-- ===== src/Core/Wf/Fresh.antt =====
-- A share as `fm_core_init_share` leaves it.
use fastmem_mariadb.Prelude.{ℕ, ◌^◌, ◌≤◌, refl, [], arith}
use fastmem_mariadb.Core.{KeyCore, init_share}
use fastmem_mariadb.Core.Wf.{Wf}

-- A new share is well formed, where its limit is at most 2 ^ 31 records.
pub init_share-Wf :
    (reclength keys max_records nbuckets : ℕ) (keydef : ℕ → KeyCore)
    → max_records ≤ 2 ^ 31
    → Wf (init_share reclength keys max_records nbuckets keydef)
unfolding init_share
init_share-Wf reclength keys max_records nbuckets keydef le = record {
  base = record {
    bound = 0;
    bound_le = omega arith;
    unbounded = λ h. refl;
    chunks_le = omega arith;
    cap_le = ground arith;
    active_lt = λ i. ground arith;
    frees = record { slots = []; linked = refl; distinct = tt; members = λ i. ground arith };
    counted = refl;
    even = λ i. refl;
  };
  chains = λ k lt. record {
    chain = λ b. [];
    linked = λ b. refl;
    distinct = λ b. tt;
    members = λ b i. refl;
  };
}
