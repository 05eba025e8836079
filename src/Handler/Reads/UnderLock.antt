-- ===== src/Handler/Reads/UnderLock.antt =====
-- What a read of a write statement leaves behind: the row, read under its lock.
use mathlib.Core.Path.{subst}
use fastmem_mariadb.Prelude.{
  ℕ, ◌%◌, ◌<◌, ◌≡◌, ◌⊎◌, refl, sym, ap, ◌∙◌, true, false, Option, none, some, done, Returns, inl,
  inr, Bool-cases, arith,
}
use fastmem_mariadb.Core.{err_ok, err_deleted, Bytes}
use fastmem_mariadb.Core.Delete.{is_current}
use fastmem_mariadb.Core.Lookup.{read_row}
use fastmem_mariadb.Core.Wf.{Wf, LawfulKey, row_at, active_at}
use fastmem_mariadb.Core.Wf.Walks.Find.{find-Found}
use fastmem_mariadb.Data.{Table, Info, HaCode, ha_ok, ha_key_not_found, ha_record_deleted}
use fastmem_mariadb.Data.Read.{ReadOutcome, reread_locked, found_key, find_key}
use fastmem_mariadb.Handler.{Handler, unlock_current_row}
use fastmem_mariadb.Handler.Writes.{holds_lock}
use fastmem_mariadb.Handler.Locked.{
  OnlyMine, Locks, unlock_current_row-Released, lock_current_row-Locks,
}
use fastmem_mariadb.Handler.Reads.{
  RowOutcome, reread, lock_and_reread, after_read, index_read_idx_map,
}

-- The handler holds the lock of its current row, in whose current generation `rec` is the image.
pub record HeldRow (t : Table) (h : Handler) (rec : Bytes) : Type 0 where
  pub idx : ℕ
  pub here : h.file.current_slot ≡ some idx
  pub holds : holds_lock h ≡ true
  pub current : row_at t.core idx ≡ some rec
  pub gen : is_current (t.core.slot idx) h.file.current_gen ≡ true
  pub mine : OnlyMine t h

-- With the code 0 the image that was read is that of the row under the lock.
abbrev pub ReadsHeld : RowOutcome → Type 0
ReadsHeld (t, h, ha_ok, some rec) = HeldRow t h rec
ReadsHeld (t, h, ha_ok, none) = ⊥
ReadsHeld (t, h, code, buf) = (buf ≡ none) × OnlyMine t h

reread_locked-row :
    (t : Table) (info : Info) (idx : ℕ)
    → info.current_slot ≡ some idx
    → (t.core.slot idx).seq % 2 ≡ 0
    → active_at t.core idx ≡ true
    → reread_locked t info
      ≡ done (
        record info { current_gen = (t.core.slot idx).gen },
        err_ok,
        some (t.core.slot idx).image,
      )
unfolding reread_locked read_row
reread_locked-row t info idx here even on = ground arith

reread_locked-gone :
    (t : Table) (info : Info) (idx : ℕ)
    → info.current_slot ≡ some idx
    → active_at t.core idx ≡ false
    → reread_locked t info ≡ done (info, err_deleted, none)
unfolding reread_locked read_row
reread_locked-gone t info idx here off = ground arith

-- The lock is held and the row is still there: it is read again, in the generation that it has now.
held-ReadsHeld :
    (lost : HaCode) (t t' : Table) (h h' : Handler) (idx : ℕ)
    → Locks t h idx t' h'
    → h.file.current_slot ≡ some idx
    → (t.core.slot idx).seq % 2 ≡ 0
    → active_at t.core idx ≡ true
    → Returns (reread lost t' h') ReadsHeld
unfolding reread row_at is_current
held-ReadsHeld lost t t' h h' idx l here even on =
    let at' : h'.file.current_slot ≡ some idx = ap (λ (i : Info). i.current_slot) l.file ∙ here in
    let on' : active_at t'.core idx ≡ true = ground (arith, l.slots idx) in
    let run = reread_locked-row t' h'.file idx at' (ground (arith, l.slots idx)) on' in
    let info : Info = record h'.file { current_gen = (t'.core.slot idx).gen } in
    (
      (t', record h' { file = info }, ha_ok, some (t'.core.slot idx).image),
      simp run,
      record {
        idx = idx;
        here = at';
        holds = ground (arith, at', l.locked_slot, l.row_locked);
        current = ground (arith, on');
        gen = ground (arith, on');
        mine = λ i. ground (arith, l.slots i, l.locked_slot, l.row_locked);
      },
    )

-- The row has gone: the lock is released.
lost-ReadsHeld :
    (lost : HaCode) (t t' : Table) (h h' : Handler) (idx : ℕ)
    → ((lost ≡ ha_key_not_found) ⊎ (lost ≡ ha_record_deleted))
    → Locks t h idx t' h'
    → h.file.current_slot ≡ some idx
    → active_at t.core idx ≡ false
    → Returns (reread lost t' h') ReadsHeld
unfolding reread
lost-ReadsHeld lost t t' h h' idx which l here off =
    let at' : h'.file.current_slot ≡ some idx = ap (λ (i : Info). i.current_slot) l.file ∙ here in
    let run = reread_locked-gone t' h'.file idx at' (ground (arith, l.slots idx)) in
    let mine : OnlyMine t' h' = λ i. ground (arith, l.slots i, l.locked_slot, l.row_locked) in
    let r = unlock_current_row-Released t' h' mine in
    let t1 = (unlock_current_row t' h').0 in
    let h1 = (unlock_current_row t' h').1 in
    let free : OnlyMine t1 h1 = λ i. ground (arith, r.slots i, r.row_locked) in
    (
      (t1, h1, lost, none),
      simp run,
      elim which [
        | inl e ↦ subst (λ c. ReadsHeld (t1, h1, c, none)) (sym e) (refl, free)
        | inr e ↦ subst (λ c. ReadsHeld (t1, h1, c, none)) (sym e) (refl, free)
      ],
    )

abbrev CodeOfLost : HaCode → Type 0
CodeOfLost lost = (lost ≡ ha_key_not_found) ⊎ (lost ≡ ha_record_deleted)

pub lock_and_reread-ReadsHeld :
    (lost : HaCode) (t : Table) (h : Handler) (idx : ℕ)
    → CodeOfLost lost
    → OnlyMine t h
    → h.file.current_slot ≡ some idx
    → (t.core.slot idx).seq % 2 ≡ 0
    → Returns (lock_and_reread lost t h) ReadsHeld
unfolding lock_and_reread
lock_and_reread-ReadsHeld lost t h idx which mine here even =
    let ((t', h'), run, l) = lock_current_row-Locks t h idx mine here in
    let (res, run', post) : Returns (reread lost t' h') ReadsHeld =
      elim (Bool-cases (active_at t.core idx)) [
        | inl on ↦ held-ReadsHeld lost t t' h h' idx l here even on
        | inr off ↦ lost-ReadsHeld lost t t' h h' idx which l here off
      ] in
    let go : lock_and_reread lost t h ≡ reread lost t' h' = simp run in (res, go ∙ run', post)

-- What a lookup leaves in the handle.
abbrev pub Looked : ReadOutcome → Type 0
Looked (info, ha_ok, some buf) = (i : ℕ) × (info.current_slot ≡ some i)
Looked (info, ha_ok, none) = ⊥
Looked (info, code, buf) = buf ≡ none

found_key-Looked :
    (t : Table) (info : Info) (inx : ℕ) (key : Bytes) (r : Option (ℕ × Bytes))
    → Looked (found_key t info inx key r)
unfolding found_key
found_key-Looked t info inx key none = refl
found_key-Looked t info inx key (some (i, buf)) = (i, refl)

find_key-Looked :
    (t : Table) (info : Info) (inx : ℕ) (key : Bytes)
    → Wf t.core
    → inx < t.core.keys
    → LawfulKey (t.core.keydef inx).ops
    → Returns (find_key t info inx key) Looked
unfolding find_key
find_key-Looked t info inx key w lt law =
    let (r, run, _) = find-Found t.core inx key w lt law in
    (found_key t info inx key r, simp run, found_key-Looked t info inx key r)

-- What the handler does behind a lookup, where the other threads leave the table well formed and no
-- row locked but the handler's.
pub after_read-ReadsHeld :
    (lost : HaCode) (others : Table → Table) (t : Table) (h : Handler) (r : ReadOutcome)
    → CodeOfLost lost
    → Looked r
    → h.write_stmt ≡ true
    → OnlyMine t h
    → OnlyMine (others t) h
    → Wf (others t).core
    → Returns (after_read lost others t h r) ReadsHeld
unfolding after_read
after_read-ReadsHeld lost others t h (info, ha_ok, some buf) which (i, here) stmt mine mine' w =
    let found : Handler = record h { file = info } in
    let (res, run, post) =
      lock_and_reread-ReadsHeld lost (others t) found i which mine' here (w.even i) in
    let go : after_read lost others t h (info, ha_ok, some buf)
        ≡ lock_and_reread lost (others t) found =
      simp stmt in
    (res, go ∙ run, post)
after_read-ReadsHeld lost others t h (info, ha_ok, none) which looked stmt mine mine' w =
    absurd looked
after_read-ReadsHeld lost others t h (info, _, buf) which looked stmt mine mine' w =
    (_, refl, (looked, mine))

-- In a write statement a key lookup ends. With the code 0 the handler holds the lock of the row, and
-- the image that it returns is that of the row now, in its current generation, whatever the other
-- threads did to the table between the lookup and the lock; with another code there is no image. The
-- handler's is the only row lock taken then. The table is well formed before and behind the work of the
-- other threads, which leave no row locked but the handler's, and the key is a lawful key of it.
pub index_read_idx_map-ReadsHeld :
    (others : Table → Table) (t : Table) (h : Handler) (index : ℕ) (key : Bytes)
    → Wf t.core
    → Wf (others t).core
    → index < t.core.keys
    → LawfulKey (t.core.keydef index).ops
    → h.write_stmt ≡ true
    → OnlyMine t h
    → OnlyMine (others t) h
    → Returns (index_read_idx_map others t h index key) ReadsHeld
unfolding index_read_idx_map
index_read_idx_map-ReadsHeld others t h index key w w' lt law stmt mine mine' =
    let (r, run, looked) = find_key-Looked t h.file index key w lt law in
    let (res, run', post) =
      after_read-ReadsHeld ha_key_not_found others t h r (inl refl) looked stmt mine mine' w' in
    let go : index_read_idx_map others t h index key ≡ after_read ha_key_not_found others t h r =
      simp run in
    (res, go ∙ run', post)
