-- ===== src/Handler/Writes/Deletes.antt =====
-- `delete_row` under the row lock, from the handler down to the core.
use fastmem_mariadb.Prelude.{
  ℕ, ◌+◌, ◌%◌, ◌≡◌, refl, ap, ◌∙◌, true, false, none, some, Run, done, Returns, ◌>>=◌, ◌==◌,
  if◌then◌else◌, arith,
}
use fastmem_mariadb.Core.{Share, Bytes, Status, err_ok, u32_mod, unlock_slot}
use fastmem_mariadb.Core.Delete.{is_current, delete_row_locked}
use fastmem_mariadb.Core.Delete.Removes.{Removed, delete_row_locked-Removed}
use fastmem_mariadb.Core.Wf.{Wf, row_at}
use fastmem_mariadb.Data.{Table, Info, HaCode, ha_ok}
use fastmem_mariadb.Data.Write.{WriteOutcome, checked, after_delete, delete_locked}
use fastmem_mariadb.Handler.{Handler, unlock_current_row}
use fastmem_mariadb.Handler.Reads.UnderLock.{HeldRow}
use fastmem_mariadb.Handler.Writes.{write_and_unlock, locked_write, delete_handler_row}
use fastmem_mariadb.Handler.Writes.Commits.{read_check-held, unlock-rows, unlock-held}

-- What the delete of the row at `idx` leaves.
abbrev pub Gone : Table → Info → ℕ → WriteOutcome → Type 0
Gone t info idx (t', info', code) =
    (code ≡ ha_ok)
    × Removed t.core idx t'.core
    × (info'.current_slot ≡ none)
    × (info'.lastinx ≡ info.lastinx)

delete_locked-Gone :
    (t : Table) (info : Info) (idx : ℕ) (buf : Bytes)
    → Wf t.core
    → info.current_slot ≡ some idx
    → row_at t.core idx ≡ some buf
    → is_current (t.core.slot idx) info.current_gen ≡ true
    → Returns (delete_locked t info buf) (Gone t info idx)
unfolding delete_locked checked after_delete
delete_locked-Gone t info idx buf w here current now =
    let ((s', rc), run, (ok, removed)) =
      delete_row_locked-Removed t.core idx info.current_gen w now in
    let work : ℕ → Run WriteOutcome =
      λ j. delete_row_locked t.core j info.current_gen >>= λ r. done (after_delete t info r) in
    let at_slot : delete_locked t info buf ≡ checked t info buf work (some idx) =
      ap (checked t info buf work) here in
    let checks = read_check-held t info idx buf (w.even idx) current now in
    let outcome : Share × Status → Run WriteOutcome = λ r. done (after_delete t info r) in
    (
      after_delete t info (s', err_ok),
      at_slot ∙ rw checks (rw run (ap (λ (c : Status). outcome (s', c)) ok)),
      (refl, removed, refl, refl),
    )

unlock-slot :
    (t : Table) (h : Handler) (i : ℕ)
    → ((unlock_current_row t h).0.core.slot i).gen ≡ (t.core.slot i).gen
unfolding unlock_current_row unlock_slot
unlock-slot t h i = ground arith

unlock-count : (t : Table) (h : Handler) → (unlock_current_row t h).0.core.records ≡ t.core.records
unfolding unlock_current_row unlock_slot
unlock-count t h = ground arith

-- What a delete of the row that the handler holds leaves, in the table and in the handler.
abbrev pub AfterDelete : Table → Handler → ℕ → Table × Handler × HaCode → Type 0
AfterDelete t h idx (t', h', code) =
    (code ≡ ha_ok)
    × ((i : ℕ) → row_at t'.core i ≡ (if i == idx then none else row_at t.core i))
    × ((t'.core.slot idx).gen ≡ ((t.core.slot idx).gen + 1) % u32_mod)
    × (t'.core.records + 1 ≡ t.core.records)
    × (h'.row_locked ≡ false)
    × ((t'.core.slot idx).wlock ≡ false)
    × (h'.file.current_slot ≡ none)
    × (h'.file.lastinx ≡ h.file.lastinx)

unlock-file : (t : Table) (h : Handler) → (unlock_current_row t h).1.file ≡ h.file
unfolding unlock_current_row
unlock-file t h = ground arith

pub delete_handler_row-AfterDelete :
    (t : Table) (h : Handler) (buf : Bytes)
    → Wf t.core
    → h.write_stmt ≡ true
    → (held : HeldRow t h buf) → Returns (delete_handler_row t h buf) (AfterDelete t h held.idx)
unfolding delete_handler_row locked_write write_and_unlock
delete_handler_row-AfterDelete t h buf w stmt held =
    let ((t', info, code), run, (ok, removed, off, same)) =
      delete_locked-Gone t h.file held.idx buf w held.here held.current held.gen in
    let done_by : Handler = record h { file = info } in
    let locked : (h.row_locked ≡ true) × (h.locked_slot ≡ some held.idx) =
      (ground (arith, held.holds), ground (arith, held.holds, held.here)) in
    let u = unlock_current_row t' done_by in
    let (unlocked, free) = unlock-held t' done_by held.idx locked.0 locked.1 in
    (
      (u.0, u.1, code),
      simp (stmt, held.holds, run),
      (
        ok,
        (λ i. unlock-rows t' done_by i ∙ removed.rows i),
        unlock-slot t' done_by held.idx ∙ ground (arith, removed.gens held.idx),
        omega (arith, unlock-count t' done_by, removed.count),
        unlocked,
        free,
        ap (λ (i : Info). i.current_slot) (unlock-file t' done_by) ∙ off,
        ap (λ (i : Info). i.lastinx) (unlock-file t' done_by) ∙ same,
      ),
    )

-- In a write statement a delete of the row whose lock the handler holds, with the current image of the row,
-- ends with the code 0: exactly that row is gone, its generation has moved on, the count is one less, and
-- the lock is released. The table is well formed.
pub delete_handler_row-Gone :
    (t : Table) (h : Handler) (buf : Bytes)
    → Wf t.core
    → h.write_stmt ≡ true
    → (held : HeldRow t h buf)
    → Returns (delete_handler_row t h buf) (λ (t', h', code).
      (code ≡ ha_ok)
      × ((i : ℕ) → row_at t'.core i ≡ (if i == held.idx then none else row_at t.core i))
      × ((t'.core.slot held.idx).gen ≡ ((t.core.slot held.idx).gen + 1) % u32_mod)
      × (t'.core.records + 1 ≡ t.core.records)
      × (h'.row_locked ≡ false)
      × ((t'.core.slot held.idx).wlock ≡ false))
delete_handler_row-Gone t h buf w stmt held =
    let (res, run, (ok, rows, gen, count, unlocked, free, _, _)) =
      delete_handler_row-AfterDelete t h buf w stmt held in
    (res, run, (ok, rows, gen, count, unlocked, free))
