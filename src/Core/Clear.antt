-- ===== src/Core/Clear.antt =====
-- `fm_core_clear` of fm_core.h.
pub mod Empties
use fastmem_mariadb.Prelude.{
  ℕ, zero, suc, ◌+◌, ◌%◌, ◌&&◌, none, Run, done, ◌>>=◌, ltb, if◌then◌else◌,
}
use fastmem_mariadb.Core.{Share, slot_free, set_slot, lock_slot, unlock_slot, slot_count, u32_mod}
use fastmem_mariadb.Core.Alloc.{free_slot}

-- Every bucket of every key is emptied.
unfoldable pub clear_heads : Share → Share
clear_heads s = record s {
  head = λ k b. if ltb k s.keys && ltb b (s.keydef k).nbuckets then none else s.head k b;
}

-- The loop that frees the slots `i`, …, `i + n - 1`, each under its row lock.
unfoldable pub reset_slots : ℕ → ℕ → Share → Run Share
reset_slots zero i s = done s
reset_slots (suc n) i s = do
  locked ← lock_slot s i
  let sl = locked.slot i
  let freed = set_slot locked i (record sl { state = slot_free; gen = (sl.gen + 1) % u32_mod })
  reset_slots n (suc i) (unlock_slot freed i)

-- The loop that pushes the slots `i`, …, `i + n - 1` on the freelist.
unfoldable pub push_up : ℕ → ℕ → Share → Share
push_up zero i s = s
push_up (suc n) i s = push_up n (suc i) (free_slot s i)

unfoldable pub clear : Share → Run Share
unfolding clear_heads
clear s = do
  let total = slot_count s
  reset ← reset_slots total 0 (clear_heads s)
  let listed = push_up total 0 (record reset { free_head = none })
  done (record listed { records = 0 })
