-- ===== src/Core/Update/Agrees.antt =====
-- The two routines of an update agree: `fm_core_update_row`, which takes the row lock itself, and
-- `fm_core_update_row_locked` between taking and releasing it.
use fastmem_mariadb.Prelude.{
  ℕ, zero, suc, not, ltb, ◌+◌, ◌≡◌, refl, sym, ap, ◌∙◌, fun_ext, true, false, Option, none, some,
  List, [], ◌∷◌, Run, done, diverges, ◌>>=◌, ◌==◌, if◌then◌else◌, update, arith,
}
use fastmem_mariadb.Core.{
  Share, Slot, Status, err_ok, err_dup_key, Bytes, key_bucket, lock_slot, unlock_slot, slot_count,
  max_changed_keys,
}
use fastmem_mariadb.Core.Delete.{is_current}
use fastmem_mariadb.Core.Lookup.{read_row, visit_rec, dup_check}
use fastmem_mariadb.Core.Update.{
  UpdateResult, changed_loop, changed_keys, write_image, dup_checks, relink, change_keys_locked,
  update_locked, update_row_locked, commit_locked, lock_and_commit, update_row,
}

-- The share with the lock of row `idx` taken.
abbrev pub with_lock : Share → ℕ → Share
with_lock s idx = record s {
  slot = update s.slot idx (let sl : Slot = record (s.slot idx) { wlock = true } in sl);
}

read_row-with_lock :
    (s : Share) (idx h : ℕ) → read_row (with_lock s idx) h false 0 ≡ read_row s h false 0
unfolding read_row
read_row-with_lock s idx h = ground arith

dup_check-with_lock :
    (s : Share) (idx k b : ℕ) (rec : Bytes)
    → dup_check (with_lock s idx) k b rec ≡ dup_check s k b rec
unfolding dup_check visit_rec slot_count
dup_check-with_lock s idx k b rec =
    let same : visit_rec (with_lock s idx) k rec ≡ visit_rec s k rec =
      fun_ext (λ h. rw (read_row-with_lock s idx h) refl) in
    rw same refl

changed_loop-with_lock :
    (n k nch : ℕ) (s : Share) (idx : ℕ) (old_rec new_rec : Bytes)
    → changed_loop n k nch (with_lock s idx) old_rec new_rec
      ≡ changed_loop n k nch s old_rec new_rec
unfolding changed_loop
changed_loop-with_lock zero k nch s idx old_rec new_rec = refl
changed_loop-with_lock (suc n) k nch s idx old_rec new_rec =
    let hit = not ((s.keydef k).ops.cmp_rec_rec old_rec new_rec == 0) in
    let same =
      changed_loop-with_lock n (suc k) (if hit then suc nch else nch) s idx old_rec new_rec in
    ap
      (λ (rest : List ℕ). if ltb nch max_changed_keys then (if hit then k ∷ rest else rest) else [])
      same

changed_keys-with_lock :
    (s : Share) (idx : ℕ) (old_rec new_rec : Bytes)
    → changed_keys (with_lock s idx) old_rec new_rec ≡ changed_keys s old_rec new_rec
unfolding changed_keys
changed_keys-with_lock s idx old_rec new_rec =
    changed_loop-with_lock s.keys 0 0 s idx old_rec new_rec

-- The checks behind one that has ended.
abbrev next_check : ℕ → Run (Option ℕ) → Status → Run (Option ℕ)
next_check k rest err_ok = rest
next_check k rest _ = done (some k)

dup_checks-with_lock :
    (ks : List ℕ) (s : Share) (idx : ℕ) (rec : Bytes)
    → dup_checks ks (with_lock s idx) rec ≡ dup_checks ks s rec
unfolding dup_checks
dup_checks-with_lock [] s idx rec = refl
dup_checks-with_lock (k ∷ ks) s idx rec =
    let b = key_bucket (s.keydef k) rec in
    ap (λ (r : Run Status). r >>= next_check k (dup_checks ks (with_lock s idx) rec))
      (dup_check-with_lock s idx k b rec)
    ∙ ap (λ rest. dup_check s k b rec >>= next_check k rest) (dup_checks-with_lock ks s idx rec)

-- What the caller does with the row lock behind the call.
abbrev pub unlocked_result : ℕ → UpdateResult → UpdateResult
unlocked_result idx (s, rc, ek) = (unlock_slot s idx, rc, ek)

abbrev pub and_unlock : ℕ → Run UpdateResult → Run UpdateResult
and_unlock idx run = run >>= λ r. done (unlocked_result idx r)

wlock_eta : (sl : Slot) → sl.wlock ≡ false → record sl { wlock = false } ≡ sl
wlock_eta sl e = ap (λ x. let r : Slot = record sl { wlock = x } in r) (sym e)

pub unlock-with_lock :
    (s : Share) (idx : ℕ) → (s.slot idx).wlock ≡ false → unlock_slot (with_lock s idx) idx ≡ s
unfolding unlock_slot
unlock-with_lock s idx free =
    let same : (unlock_slot (with_lock s idx) idx).slot ≡ s.slot =
      fun_ext (λ i. ground (arith, wlock_eta (s.slot idx) free)) in
    ap (λ sl. let r : Share = record s { slot = sl } in r) same

pub lock_slot-free :
    (s : Share) (idx : ℕ) → (s.slot idx).wlock ≡ false → lock_slot s idx ≡ done (with_lock s idx)
unfolding lock_slot
lock_slot-free s idx free = rw free refl

commit_agrees :
    (s1 : Share) (idx gen : ℕ) (commit : Run Share)
    → is_current (s1.slot idx) gen ≡ true
    → commit_locked s1 idx gen commit ≡ and_unlock idx (commit >>= λ s'. done (s', err_ok, none))
unfolding commit_locked
commit_agrees s1 idx gen diverges now = rw now refl
commit_agrees s1 idx gen (done s') now = rw now refl

module _ (s : Share) (idx gen : ℕ) (old_rec new_rec : Bytes) (free : (s.slot idx).wlock ≡ false)
    (now : is_current (s.slot idx) gen ≡ true) where
  abbrev s1 : Share
  s1 = with_lock s idx

  still_current : is_current (s1.slot idx) gen ≡ true
  unfolding is_current
  still_current = ground (arith, now)

  lock_and_commit-agrees :
      (changed : List ℕ)
      → lock_and_commit changed s idx gen old_rec new_rec
        ≡ and_unlock idx (
            relink changed (write_image s1 idx new_rec) idx old_rec new_rec >>= λ s'.
            done (s', err_ok, none))
  unfolding lock_and_commit
  lock_and_commit-agrees changed = rw (lock_slot-free s idx free) (
      commit_agrees s1 idx gen (relink changed (write_image s1 idx new_rec) idx old_rec new_rec)
        still_current)

  checked-agrees :
      (r : Run (Option ℕ)) (commit commit_held : Run UpdateResult)
      → commit ≡ and_unlock idx commit_held
      → (r >>= elim [ some k ↦ done (s, err_dup_key, some (k + 1)) | none ↦ commit ])
        ≡ and_unlock idx
            (r >>= elim [ some k ↦ done (s1, err_dup_key, some (k + 1)) | none ↦ commit_held ])
  checked-agrees diverges commit commit_held e = refl
  checked-agrees (done none) commit commit_held e = e
  checked-agrees (done (some k)) commit commit_held e =
      ap (λ (z : Share). let r : Run UpdateResult = done (z, err_dup_key, some (k + 1)) in r)
        (sym (unlock-with_lock s idx free))

  -- One routine by the list of changed keys, and the other.
  abbrev alone_by : List ℕ → Run UpdateResult
  alone_by changed =
      let commit = lock_and_commit changed s idx gen old_rec new_rec in
      let slow =
        dup_checks changed s new_rec
        >>= elim [ some k ↦ done (s, err_dup_key, some (k + 1)) | none ↦ commit ] in
      elim changed [ [] ↦ commit | k ∷ ks ↦ slow ]

  agrees_by :
      (changed : List ℕ)
      → alone_by changed ≡ and_unlock idx (update_locked changed s1 idx old_rec new_rec)
  unfolding update_locked change_keys_locked relink
  agrees_by [] = lock_and_commit-agrees []
  agrees_by (k ∷ ks) =
      let changed = k ∷ ks in
      let held = relink changed (write_image s1 idx new_rec) idx old_rec new_rec >>= λ s'.
      done (s', err_ok, none) in
      checked-agrees (dup_checks changed s new_rec)
        (lock_and_commit changed s idx gen old_rec new_rec) held (lock_and_commit-agrees changed)
      ∙ ap
          (λ (r : Run (Option ℕ)).
            and_unlock idx
              (r >>= elim [ some j ↦ done (s1, err_dup_key, some (j + 1)) | none ↦ held ]))
          (sym (dup_checks-with_lock changed s idx new_rec))

  -- Where the row lock is free and the row is current, `update_row` computes the same as taking the lock,
  -- `update_row_locked`, and releasing the lock: the same share, the same status and the same key, or both do not end.
  pub update_row-update_row_locked :
      update_row s idx gen old_rec new_rec
      ≡ and_unlock idx (update_row_locked (with_lock s idx) idx gen old_rec new_rec)
  unfolding update_row update_row_locked
  update_row-update_row_locked =
      agrees_by (changed_keys s old_rec new_rec)
      ∙ rw (still_current, changed_keys-with_lock s idx old_rec new_rec) refl
