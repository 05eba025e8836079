-- ===== src/Handler/Reads/Scans.antt =====
-- The reads of a scan and by position in a write statement.
use fastmem_mariadb.Prelude.{
  ℕ, ◌-◌, ◌≡◌, refl, true, Option, none, some, done, Returns, inl, inr, arith, ◌&&◌, ◌==◌, ◌⊎◌,
  Bool-cases,
}
use fastmem_mariadb.Core.{Bytes}
use fastmem_mariadb.Core.Lookup.{row, gone, read_row, scan_next}
use fastmem_mariadb.Core.Wf.{Wf, active_at}
use fastmem_mariadb.Core.Wf.Walks.Scan.{scan_next-Scanned}
use fastmem_mariadb.Data.{Table, Info, ha_record_deleted, SlotRef}
use fastmem_mariadb.Data.Read.{rrnd, scan}
use fastmem_mariadb.Handler.{Handler}
use fastmem_mariadb.Handler.Locked.{OnlyMine}
use fastmem_mariadb.Handler.Reads.{rnd_next, rnd_pos}
use fastmem_mariadb.Handler.Reads.UnderLock.{ReadsHeld, Looked, after_read-ReadsHeld}

scan_of :
    (t : Table) (info : Info) (pos : ℕ) (buf : Option Bytes)
    → scan_next t.core info.scan_pos ≡ done (pos, buf)
    → Returns (scan t info) Looked
unfolding scan
scan_of t info pos none run = rw run (_, refl, refl)
scan_of t info pos (some rec) run = rw run (_, refl, (pos - 1, refl))

scan-Looked : (t : Table) (info : Info) → Wf t.core → Returns (scan t info) Looked
scan-Looked t info w =
    let ((pos, buf), run, _) = scan_next-Scanned t.core info.scan_pos w in
    scan_of t info pos buf run

read_row-ends :
    (t : Table) (idx g : ℕ)
    → Wf t.core
    → (read_row t.core idx true g ≡ done gone)
      ⊎ (read_row t.core idx true g ≡ done (row (t.core.slot idx).image))
unfolding read_row
read_row-ends t idx g w = elim (Bool-cases (active_at t.core idx && (t.core.slot idx).gen == g)) [
  | inl on ↦ inr (ground (arith, on, w.even idx))
  | inr off ↦ inl (ground (arith, off))
]

rrnd-Looked :
    (t : Table) (info : Info) (slot : Option ℕ) (gen : ℕ)
    → Wf t.core
    → Returns (rrnd t info (record { slot = slot; gen = gen })) Looked
unfolding rrnd
rrnd-Looked t info none gen w = (_, refl, refl)
rrnd-Looked t info (some idx) gen w = elim (read_row-ends t idx gen w) [
  | inl off ↦ rw (off, rrnd) (_, refl, refl)
  | inr on ↦ rw (on, rrnd) (_, refl, (idx, refl))
]

-- In a write statement a step of a scan ends. With the code 0 the handler holds the lock of the row, and
-- the image that it returns is that of the row now, in its current generation, whatever the other threads
-- did between the step and the lock; with another code there is no image. The handler's is the only
-- row lock taken then. The table is well formed before and behind the work of the other threads, which leave no
-- row locked but the handler's.
pub rnd_next-ReadsHeld :
    (others : Table → Table) (t : Table) (h : Handler)
    → Wf t.core
    → Wf (others t).core
    → h.write_stmt ≡ true
    → OnlyMine t h
    → OnlyMine (others t) h
    → Returns (rnd_next others t h) ReadsHeld
unfolding rnd_next
rnd_next-ReadsHeld others t h w w' stmt mine mine' =
    let (r, run, looked) = scan-Looked t h.file w in
    let (res, run', post) =
      after_read-ReadsHeld ha_record_deleted others t h r (inr refl) looked stmt mine mine' w' in
    (res, rw run run', post)

-- In a write statement a read by position ends, whatever position is given. With the code 0 the handler
-- holds the lock of the row, and the image that it returns is that of the row now, in its current
-- generation, whatever the other threads did between the read and the lock; with another code there is
-- no image. The handler's is the only row lock taken then. The table is well formed before and behind the
-- work of the other threads, which leave no row locked but the handler's.
pub rnd_pos-ReadsHeld :
    (others : Table → Table) (t : Table) (h : Handler) (ref : SlotRef)
    → Wf t.core
    → Wf (others t).core
    → h.write_stmt ≡ true
    → OnlyMine t h
    → OnlyMine (others t) h
    → Returns (rnd_pos others t h ref) ReadsHeld
unfolding rnd_pos
rnd_pos-ReadsHeld others t h ref w w' stmt mine mine' =
    let (r, run, looked) = rrnd-Looked t h.file ref.slot ref.gen w in
    let (res, run', post) =
      after_read-ReadsHeld ha_record_deleted others t h r (inr refl) looked stmt mine mine' w' in
    (res, rw run run', post)
