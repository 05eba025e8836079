-- ===== src/Core/Seqlock/Torn.antt =====
-- A read across the reuse of its slot.
use fastmem_mariadb.Prelude.{◌≡◌, refl, none, arith}
use fastmem_mariadb.Core.Seqlock.{
  Image, read_ok, start_read, state_there, gen_any, seq_even, load_byte, loaded, same_seq,
  start_delete, delete_locked, delete_active, delete_current, store_deleting, delete_unlocked,
  store_deleted, next_gen, listed_again, start_insert, fill_byte, filled, published, System, pick,
  Reach, start, later,
}

-- For any two rows `a` and `b` of two bytes there is a sequence of accesses of two threads on one slot in
-- which a read without a wanted generation ends with success and has the first byte of `a` and the second
-- of `b`, while the slot holds `b`: between the two bytes the row `a` is deleted and `b` is inserted into
-- its slot, which leaves `seq` as it was.
pub read_may_tear :
    (garbage a b : Image)
    → (s : System) × Reach 2 garbage s
      × (buf : Image) × (s.pc 1 ≡ read_ok buf)
      × (buf 0 ≡ a 0)
      × (buf 1 ≡ b 1)
      × (s.cell.image 0 ≡ b 0)
      × (s.cell.image 1 ≡ b 1)
read_may_tear garbage a b =
    let r1 = later start (pick 0 (start_insert a refl)) in
    let r2 = later r1 (pick 0 (fill_byte (omega arith))) in
    let r3 = later r2 (pick 0 (fill_byte (omega arith))) in
    let r4 = later r3 (pick 0 (filled refl)) in
    let r5 = later r4 (pick 0 published) in
    let q1 = later r5 (pick 1 (start_read none)) in
    let q2 = later q1 (pick 1 (state_there refl)) in
    let q3 = later q2 (pick 1 gen_any) in
    let q4 = later q3 (pick 1 (seq_even garbage refl)) in
    let q5 = later q4 (pick 1 (load_byte (omega arith))) in
    let d1 = later q5 (pick 0 (start_delete 0)) in
    let d2 = later d1 (pick 0 (delete_locked refl)) in
    let d3 = later d2 (pick 0 (delete_active refl)) in
    let d4 = later d3 (pick 0 (delete_current refl)) in
    let d5 = later d4 (pick 0 store_deleting) in
    let d6 = later d5 (pick 0 delete_unlocked) in
    let d7 = later d6 (pick 0 store_deleted) in
    let d8 = later d7 (pick 0 next_gen) in
    let d9 = later d8 (pick 0 listed_again) in
    let i1 = later d9 (pick 0 (start_insert b refl)) in
    let i2 = later i1 (pick 0 (fill_byte (omega arith))) in
    let i3 = later i2 (pick 0 (fill_byte (omega arith))) in
    let i4 = later i3 (pick 0 (filled refl)) in
    let i5 = later i4 (pick 0 published) in
    let e1 = later i5 (pick 1 (load_byte (omega arith))) in
    let e2 = later e1 (pick 1 (loaded refl)) in
    let e3 = later e2 (pick 1 (same_seq refl)) in (_, e3, _, refl, refl, refl, refl, refl)
