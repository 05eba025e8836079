-- ===== src/Core/Wf/Relocked.antt =====
-- Row locks do not touch what makes a share well formed.
use fastmem_mariadb.Prelude.{ℕ, Bool}
use fastmem_mariadb.Core.{Share, Slot}
use fastmem_mariadb.Core.Wf.{Wf}

-- The share with its row locks as `lock` says.
abbrev pub relocked : Share → (ℕ → Bool) → Share
relocked s lock = record s {
  slot = λ i. (let sl : Slot = record (s.slot i) { wlock = lock i } in sl);
}

pub relocked-Wf : (s : Share) (lock : ℕ → Bool) → Wf s → Wf (relocked s lock)
relocked-Wf s lock w = record {
  base = record {
    bound = w.bound;
    bound_le = w.bound_le;
    unbounded = w.unbounded;
    chunks_le = w.chunks_le;
    cap_le = w.cap_le;
    active_lt = w.active_lt;
    frees = w.frees;
    counted = w.counted;
    even = w.even;
  };
  chains = w.chains;
}
