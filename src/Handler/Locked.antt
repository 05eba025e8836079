-- ===== src/Handler/Locked.antt =====
-- The row lock that a handler holds across its calls.
use fastmem_mariadb.Prelude.{
  ℕ, ◌≡◌, refl, ap, ◌∙◌, Bool, true, false, ◌&&◌, some, Returns, ◌==◌, inl, inr, Bool-cases, arith,
}
use fastmem_mariadb.Core.{Slot, set_slot, lock_slot, unlock_slot}
use fastmem_mariadb.Data.{Table}
use fastmem_mariadb.Handler.{
  Handler, same_slot, with_core, unlock_current_row, take_lock, lock_current_row,
}

-- The only row lock that is taken is the one that the handler holds.
abbrev pub OnlyMine : Table → Handler → Type 0
OnlyMine t h = (i : ℕ) → (t.core.slot i).wlock ≡ (h.row_locked && same_slot h.locked_slot (some i))

-- The handler has moved its lock to slot `idx`, and nothing else has changed.
pub record Locks (t : Table) (h : Handler) (idx : ℕ) (t' : Table) (h' : Handler) : Type 0 where
  pub file : h'.file ≡ h.file
  pub write_stmt : h'.write_stmt ≡ h.write_stmt
  pub row_locked : h'.row_locked ≡ true
  pub locked_slot : h'.locked_slot ≡ some idx
  pub slots : (i : ℕ) → t'.core.slot i ≡ record (t.core.slot i) { wlock = i == idx }

wlock_eta : (sl : Slot) (b : Bool) → sl.wlock ≡ b → sl ≡ record sl { wlock = b }
wlock_eta sl b e = ap (λ x. let r : Slot = record sl { wlock = x } in r) e

take_lock-Locks :
    (t : Table) (h : Handler) (idx : ℕ)
    → ((i : ℕ) → (t.core.slot i).wlock ≡ false)
    → Returns (take_lock t h idx) (λ (t', h'). Locks t h idx t' h')
unfolding take_lock lock_slot
take_lock-Locks t h idx free =
    let sl : Slot = record (t.core.slot idx) { wlock = true } in
    (
      (
        with_core t (set_slot t.core idx sl),
        record h { row_locked = true; locked_slot = some idx },
      ),
      rw (free idx) refl,
      record {
        file = refl;
        write_stmt = refl;
        row_locked = refl;
        locked_slot = refl;
        slots = λ i. ground (arith, free i, wlock_eta (t.core.slot i) false);
      },
    )

-- A release leaves no row locked, and changes nothing else of the rows.
pub record Released (t : Table) (h : Handler) (t' : Table) (h' : Handler) : Type 0 where
  pub file : h'.file ≡ h.file
  pub write_stmt : h'.write_stmt ≡ h.write_stmt
  pub row_locked : h'.row_locked ≡ false
  pub slots : (i : ℕ) → t'.core.slot i ≡ record (t.core.slot i) { wlock = false }

pub unlock_current_row-Released :
    (t : Table) (h : Handler)
    → OnlyMine t h
    → Released t h (unlock_current_row t h).0 (unlock_current_row t h).1
unfolding unlock_current_row unlock_slot
unlock_current_row-Released t h mine = record {
  file = ground arith;
  write_stmt = ground arith;
  row_locked = ground arith;
  slots = λ i. ground (arith, mine i, wlock_eta (t.core.slot i) false);
}

take_after-Locks :
    (t t1 t' : Table) (h h1 h' : Handler) (idx : ℕ)
    → Released t h t1 h1
    → Locks t1 h1 idx t' h'
    → Locks t h idx t' h'
take_after-Locks t t1 t' h h1 h' idx r l = record {
  file = l.file ∙ r.file;
  write_stmt = l.write_stmt ∙ r.write_stmt;
  row_locked = l.row_locked;
  locked_slot = l.locked_slot;
  slots = λ i.
      l.slots i ∙ ap (λ (x : Slot). let y : Slot = record x { wlock = i == idx } in y) (r.slots i);
}

-- Where no other thread holds a row lock, the lock of the current row is taken.
pub lock_current_row-Locks :
    (t : Table) (h : Handler) (idx : ℕ)
    → OnlyMine t h
    → h.file.current_slot ≡ some idx
    → Returns (lock_current_row t h) (λ (t', h'). Locks t h idx t' h')
unfolding lock_current_row
lock_current_row-Locks t h idx mine here =
    elim (Bool-cases (h.row_locked && same_slot h.locked_slot (some idx))) [
      | inl on ↦ (
        (t, h),
        simp (here, on, lock_current_row),
        record {
          file = refl;
          write_stmt = refl;
          row_locked = ground (arith, on);
          locked_slot = ground (arith, on);
          slots = λ i. ground (arith, mine i, on, wlock_eta (t.core.slot i) (i == idx));
        },
      )
      | inr off ↦
          let t1 = (unlock_current_row t h).0 in
          let h1 = (unlock_current_row t h).1 in
          let r = unlock_current_row-Released t h mine in
          let run_moved : lock_current_row t h ≡ take_lock t1 h1 idx =
            simp (here, off, lock_current_row) in
          let (res, run, l) = take_lock-Locks t1 h1 idx (λ i. ground (arith, r.slots i)) in
          (res, run_moved ∙ run, take_after-Locks t t1 res.0 h h1 res.1 idx r l)
    ]
