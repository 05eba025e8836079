-- ===== src/Core/Delete.antt =====
-- `fm_core_delete_row` and `fm_core_delete_row_locked` of fm_core.h.
pub mod Removes
use fastmem_mariadb.Prelude.{
  ℕ, zero, suc, ◌+◌, ◌-◌, ◌%◌, Bool, ◌&&◌, Run, done, ◌>>=◌, ◌==◌, if◌then◌else◌,
}
use fastmem_mariadb.Core.{
  Share, Slot, Status, err_ok, err_deleted, slot_deleted, slot_deleting, is_active, Bytes, set_slot,
  key_bucket, lock_slot, unlock_slot, u32_mod, u64_mod,
}
use fastmem_mariadb.Core.Chain.{chain_unlink}
use fastmem_mariadb.Core.Alloc.{free_slot}

-- The row is there, in the generation that the caller saw.
unfoldable pub is_current : Slot → ℕ → Bool
is_current sl expect_gen = is_active sl.state && sl.gen == expect_gen

-- The loop over the keys from `k` on, with the frozen image `rec`.
unfoldable pub unlink_keys : ℕ → ℕ → Share → Bytes → ℕ → Run Share
unlink_keys zero k s rec idx = done s
unlink_keys (suc n) k s rec idx = do
  (s', rc) ← chain_unlink s k (key_bucket (s.keydef k) rec) idx
  unlink_keys n (suc k) s' rec idx

-- State DELETED, the next generation, one record less, and the slot on the freelist.
unfoldable pub recycle : Share → ℕ → Share
recycle s idx =
    let sl = s.slot idx in
    let s' = set_slot s idx (record sl { state = slot_deleted; gen = (sl.gen + 1) % u32_mod }) in
    free_slot (record s' { records = (s.records + (u64_mod - 1)) % u64_mod }) idx

-- The caller holds the row lock and keeps it.
unfoldable pub delete_row_locked : Share → ℕ → ℕ → Run (Share × Status)
unfolding is_current recycle
delete_row_locked s idx expect_gen =
    if is_current (s.slot idx) expect_gen
    then (do
      let frozen = set_slot s idx (record (s.slot idx) { state = slot_deleting })
      unlinked ← unlink_keys s.keys 0 frozen (frozen.slot idx).image idx
      done (recycle unlinked idx, err_ok))
    else done (s, err_deleted)

-- The share with the row DELETING and its lock released.
unfoldable pub freeze : Share → ℕ → Share
freeze locked idx =
    unlock_slot (set_slot locked idx (record (locked.slot idx) { state = slot_deleting })) idx

-- The part of `fm_core_delete_row` from the test on, which the row lock covers.
unfoldable pub delete_under_lock : Share → ℕ → ℕ → Run (Share × Status)
unfolding is_current freeze recycle
delete_under_lock locked idx expect_gen =
    let frozen = freeze locked idx in
    if is_current (locked.slot idx) expect_gen
    then (do
      unlinked ← unlink_keys locked.keys 0 frozen (frozen.slot idx).image idx
      done (recycle unlinked idx, err_ok))
    else done (unlock_slot locked idx, err_deleted)

-- Takes the row lock for the test and the change to DELETING only.
unfoldable pub delete_row : Share → ℕ → ℕ → Run (Share × Status)
unfolding delete_under_lock
delete_row s idx expect_gen = do locked ← lock_slot s idx; delete_under_lock locked idx expect_gen
