-- ===== src/Handler/Server/Positions.antt =====
-- A position is good for the row that it was taken at, and for no other.
use fastmem_mariadb.Prelude.{
  ℕ, ◌≡◌, refl, true, false, none, some, done, Returns, if◌then◌else◌, inl, inr, Bool-cases, arith,
}
use fastmem_mariadb.Core.Delete.{is_current}
use fastmem_mariadb.Core.Lookup.{row, gone, read_row}
use fastmem_mariadb.Core.Wf.{Wf}
use fastmem_mariadb.Data.{Table, ha_ok, ha_record_deleted}
use fastmem_mariadb.Data.Read.{set_position, rrnd}
use fastmem_mariadb.Handler.{Handler}
use fastmem_mariadb.Handler.Reads.{after_read, rnd_pos}
use fastmem_mariadb.Handler.Server.{position}

read_row-current :
    (t : Table) (idx g : ℕ)
    → Wf t.core
    → read_row t.core idx true g
      ≡ done (if is_current (t.core.slot idx) g then row (t.core.slot idx).image else gone)
unfolding read_row is_current
read_row-current t idx g w = ground (arith, w.even idx)

-- Outside a write statement, a read by a position that `position` gave at a row ends, on whatever well-formed
-- table it is used: where the slot holds a row in the generation of the position, with the code 0 and the image
-- of the row now, and otherwise with the report that the row is deleted. The table is as before.
pub rnd_pos-position :
    (others : Table → Table) (t : Table) (h0 h : Handler) (idx : ℕ)
    → Wf t.core
    → h.write_stmt ≡ false
    → h0.file.current_slot ≡ some idx
    → Returns (rnd_pos others t h (position h0)) (λ (t', h', code, buf).
      (t' ≡ t)
      × (if is_current (t.core.slot idx) h0.file.current_gen
          then ((code ≡ ha_ok) × (buf ≡ some (t.core.slot idx).image))
          else ((code ≡ ha_record_deleted) × (buf ≡ none))))
unfolding rnd_pos position set_position rrnd after_read
rnd_pos-position others t h0 h idx w reading here =
    let run = read_row-current t idx h0.file.current_gen w in
    elim (Bool-cases (is_current (t.core.slot idx) h0.file.current_gen)) [
      | inl on ↦ rw (here, run, on, reading) (_, refl, (refl, (refl, refl)))
      | inr off ↦ rw (here, run, off) (_, refl, (refl, (refl, refl)))
    ]
