-- ===== src/Core/Update.antt =====
-- `fm_core_update_row` and `fm_core_update_row_locked` of fm_core.h. The bucket locks that a key
-- change takes are in `Update.Locks`.
pub mod Locks
pub mod Relink
pub mod Agrees
pub mod Changes
use fastmem_mariadb.Prelude.{
  ℕ, zero, suc, ◌+◌, ◌-◌, ◌%◌, not, Option, none, some, List, [], ◌∷◌, Run, done, ◌>>=◌, ◌==◌, ltb,
  if◌then◌else◌,
}
use fastmem_mariadb.Core.{
  Share, Status, err_ok, err_deleted, err_dup_key, Bytes, set_slot, key_bucket, lock_slot,
  unlock_slot, u32_mod, max_changed_keys,
}
use fastmem_mariadb.Core.Chain.{chain_link, chain_unlink}
use fastmem_mariadb.Core.Lookup.{dup_check}
use fastmem_mariadb.Core.Delete.{is_current}

-- The keys from `k` on whose columns differ, while fewer than `FM_MAX_CHANGED_KEYS` are found.
unfoldable pub changed_loop : ℕ → ℕ → ℕ → Share → Bytes → Bytes → List ℕ
changed_loop zero k nch s old_rec new_rec = []
changed_loop (suc n) k nch s old_rec new_rec =
    let hit = not ((s.keydef k).ops.cmp_rec_rec old_rec new_rec == 0) in
    let rest = changed_loop n (suc k) (if hit then suc nch else nch) s old_rec new_rec in
    if ltb nch max_changed_keys then (if hit then k ∷ rest else rest) else []

unfoldable pub changed_keys : Share → Bytes → Bytes → List ℕ
changed_keys s old_rec new_rec = changed_loop s.keys 0 0 s old_rec new_rec

-- One image under the sequence counter: odd, copy, even.
unfoldable pub write_image : Share → ℕ → Bytes → Share
write_image s idx rec =
    let odd = set_slot s idx (record (s.slot idx) { seq = ((s.slot idx).seq + 1) % u32_mod }) in
    let copied = set_slot odd idx (record (odd.slot idx) { image = rec }) in
    set_slot copied idx (record (copied.slot idx) { seq = ((copied.slot idx).seq + 1) % u32_mod })

-- The first changed key whose new value another row has.
unfoldable pub dup_checks : List ℕ → Share → Bytes → Run (Option ℕ)
dup_checks [] s new_rec = done none
dup_checks (k ∷ ks) s new_rec =
    dup_check s k (key_bucket (s.keydef k) new_rec) new_rec
    >>= elim [ err_ok ↦ dup_checks ks s new_rec | _ ↦ done (some k) ]

-- For each changed key, out of the chain of the old value and into that of the new one.
unfoldable pub relink : List ℕ → Share → ℕ → Bytes → Bytes → Run Share
relink [] s idx old_rec new_rec = done s
relink (k ∷ ks) s idx old_rec new_rec = do
  (s', rc) ← chain_unlink s k (key_bucket (s.keydef k) old_rec) idx
  relink ks (chain_link s' k (key_bucket (s.keydef k) new_rec) idx) idx old_rec new_rec

-- The result has the status, and the key index + 1 where `*errkey` is written.
abbrev pub UpdateResult : Type 0
UpdateResult = Share × Status × Option ℕ

-- The key change path under the row lock of the caller.
unfoldable pub change_keys_locked : List ℕ → Share → ℕ → Bytes → Bytes → Run UpdateResult
change_keys_locked changed s idx old_rec new_rec =
    let commit = relink changed (write_image s idx new_rec) idx old_rec new_rec in
    dup_checks changed s new_rec >>= elim [
      | some k ↦ done (s, err_dup_key, some (k + 1))
      | none ↦ (do s' ← commit; done (s', err_ok, none))
    ]

-- The part behind the collection of the changed keys.
unfoldable pub update_locked : List ℕ → Share → ℕ → Bytes → Bytes → Run UpdateResult
update_locked [] s idx old_rec new_rec = done (write_image s idx new_rec, err_ok, none)
update_locked (k ∷ ks) s idx old_rec new_rec = change_keys_locked (k ∷ ks) s idx old_rec new_rec

-- The caller holds the row lock and keeps it.
unfoldable pub update_row_locked : Share → ℕ → ℕ → Bytes → Bytes → Run UpdateResult
unfolding is_current changed_keys update_locked change_keys_locked
update_row_locked s idx expect_gen old_rec new_rec =
    if is_current (s.slot idx) expect_gen
    then update_locked (changed_keys s old_rec new_rec) s idx old_rec new_rec
    else done (s, err_deleted, none)

-- The part of `fm_core_update_row` under the row lock, which it releases.
unfoldable pub commit_locked : Share → ℕ → ℕ → Run Share → Run UpdateResult
unfolding is_current
commit_locked locked idx expect_gen commit =
    if is_current (locked.slot idx) expect_gen
    then (do s' ← commit; done (unlock_slot s' idx, err_ok, none))
    else done (unlock_slot locked idx, err_deleted, none)

-- The image write under the row lock, and the moves between the chains of the keys `changed`.
unfoldable pub lock_and_commit : List ℕ → Share → ℕ → ℕ → Bytes → Bytes → Run UpdateResult
unfolding commit_locked
lock_and_commit changed s idx expect_gen old_rec new_rec = do
  locked ← lock_slot s idx
  commit_locked locked idx expect_gen
      (relink changed (write_image locked idx new_rec) idx old_rec new_rec)

-- Takes the row lock itself, for a key change behind the duplicate checks.
unfoldable pub update_row : Share → ℕ → ℕ → Bytes → Bytes → Run UpdateResult
unfolding lock_and_commit changed_keys
update_row s idx expect_gen old_rec new_rec =
    let changed = changed_keys s old_rec new_rec in
    let commit = lock_and_commit changed s idx expect_gen old_rec new_rec in
    let slow =
      dup_checks changed s new_rec
      >>= elim [ some k ↦ done (s, err_dup_key, some (k + 1)) | none ↦ commit ] in
    elim changed [ [] ↦ commit | k ∷ ks ↦ slow ]
