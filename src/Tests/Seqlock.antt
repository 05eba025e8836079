-- ===== src/Tests/Seqlock.antt =====
-- Concrete runs of one slot with records of one byte.
use fastmem_mariadb.Prelude.{ℕ, ◌<◌, ◌≡◌, refl, false, none, arith}
use fastmem_mariadb.Core.Seqlock.{
  Image, Pc, start_read, state_there, gen_any, seq_even, load_byte, loaded, start_insert, fill_byte,
  filled, published, System, pick, Reach, start, later,
}
use fastmem_mariadb.Core.Seqlock.Inv.{in_write}
use fastmem_mariadb.Core.Seqlock.Reads.{read_whole}
use fastmem_mariadb.Core.Seqlock.Torn.{read_may_tear}

abbrev zeros : Image
zeros j = 0

abbrev row : Image
row j = 5

filled_slot :
    (s : System) × Reach 1 zeros s
    × (buf : Image) × (s.pc 1 ≡ Pc.read_check none 0 0 1 buf)
    × (s.cell.seq ≡ 0)
    × (s.cell.ticks ≡ 0)
    × (s.cell.fills ≡ 1)
filled_slot =
    let r1 = later start (pick 0 (start_insert row refl)) in
    let r2 = later r1 (pick 0 (fill_byte (omega arith))) in
    let r3 = later r2 (pick 0 (filled refl)) in
    let r4 = later r3 (pick 0 published) in
    let q1 = later r4 (pick 1 (start_read none)) in
    let q2 = later q1 (pick 1 (state_there refl)) in
    let q3 = later q2 (pick 1 gen_any) in
    let q4 = later q3 (pick 1 (seq_even zeros refl)) in
    let q5 = later q4 (pick 1 (load_byte (omega arith))) in
    let q6 = later q5 (pick 1 (loaded refl)) in (_, q6, _, refl, refl, refl, refl)

read_whole_example :
    ((j : ℕ) → j < 1 → filled_slot.2 j ≡ filled_slot.0.cell.image j)
    × ((k : ℕ) → in_write (filled_slot.0.pc k) ≡ false)
read_whole_example =
    read_whole filled_slot.1 1 0 0 1 none filled_slot.2 filled_slot.3 filled_slot.4
      (omega (arith, filled_slot.5)) filled_slot.6

read_may_tear_example :
    (s : System) × Reach 2 zeros s
    × (buf : Image) × (s.pc 1 ≡ Pc.read_ok buf)
    × (buf 0 ≡ row 0)
    × (buf 1 ≡ zeros 1)
    × (s.cell.image 0 ≡ zeros 0)
    × (s.cell.image 1 ≡ zeros 1)
read_may_tear_example = read_may_tear zeros row zeros
