-- ===== src/Core/Seqlock.antt =====
-- One slot of fm_core.h under any number of threads, a shared access at a time: the reader
-- `fm_core_read_row`, the update of an image under `wlock` (`fm_core_update_row` where no key column
-- changes, with `fm_core_write_image`), `fm_core_delete_row`, and the reuse of the slot by
-- `fm_core_insert_row`. Accesses are taken one at a time in program order, the copies byte by byte; the
-- weaker memory orders of the source are not modelled.
pub mod Inv
pub mod Reads
pub mod Torn
use fastmem_mariadb.Prelude.{
  ℕ, suc, ◌+◌, ◌%◌, ◌<◌, ◌≡◌, ◌≢◌, Bool, true, false, Option, none, some, update,
}
use fastmem_mariadb.Core.{SlotState, slot_active, slot_deleted, slot_deleting, is_active, u32_mod}

-- A record image: the byte at each place below the record length.
abbrev pub Image : Type 0
Image = ℕ → ℕ

-- The slot. `listed` is whether it is on the freelist. Two counters are no part of the program: `ticks`
-- counts the steps of `seq`, which wraps round, and `fills` the bytes that inserts have stored.
pub record Cell : Type 0 where
  pub state : SlotState
  pub wlock : Bool
  pub seq : ℕ
  pub gen : ℕ
  pub listed : Bool
  pub image : Image
  pub ticks : ℕ
  pub fills : ℕ

-- Where a thread stands, with the local variables that are live there. A reader past its first load of
-- `seq` keeps the two counters as they were then.
pub data Pc : Type 0 where
  idle : Pc
  read_state : (want : Option ℕ) → Pc
  read_gen : (want : Option ℕ) → Pc
  read_seq : (want : Option ℕ) → Pc
  read_copy : (want : Option ℕ) (s1 ticks fills k : ℕ) (buf : Image) → Pc
  read_check : (want : Option ℕ) (s1 ticks fills : ℕ) (buf : Image) → Pc
  read_ok : (buf : Image) → Pc
  read_gone : Pc
  update_lock : (gen : ℕ) (rec : Image) → Pc
  update_state : (gen : ℕ) (rec : Image) → Pc
  update_gen : (gen : ℕ) (rec : Image) → Pc
  update_odd : (rec : Image) → Pc
  update_copy : (k : ℕ) (rec : Image) → Pc
  update_even : Pc
  update_unlock : Pc
  delete_lock : (gen : ℕ) → Pc
  delete_state : (gen : ℕ) → Pc
  delete_gen : (gen : ℕ) → Pc
  delete_freeze : Pc
  delete_unlock : Pc
  delete_done : Pc
  delete_next : Pc
  delete_free : Pc
  insert_copy : (k : ℕ) (rec : Image) → Pc
  insert_publish : Pc

abbrev tick : Cell → Cell
tick c = record c { seq = (c.seq + 1) % u32_mod; ticks = c.ticks + 1 }

abbrev store : Cell → ℕ → ℕ → Cell
store c k v = record c { image = update c.image k v }

-- One access of one thread, for records of `n` bytes.
pub data Move (n : ℕ) (c : Cell) : Pc → Cell → Pc → Type 0 where
  start_read : (want : Option ℕ) → Move n c idle c (read_state want)
  state_gone :
      {want : Option ℕ} → is_active c.state ≡ false → Move n c (read_state want) c read_gone
  state_there :
      {want : Option ℕ} → is_active c.state ≡ true → Move n c (read_state want) c (read_gen want)
  gen_any : Move n c (read_gen none) c (read_seq none)
  gen_there : {g : ℕ} → c.gen ≡ g → Move n c (read_gen (some g)) c (read_seq (some g))
  gen_gone : {g : ℕ} → c.gen ≢ g → Move n c (read_gen (some g)) c read_gone
  seq_odd : {want : Option ℕ} → c.seq % 2 ≡ 1 → Move n c (read_seq want) c (read_state want)
  seq_even :
      {want : Option ℕ} (buf : Image)
      → c.seq % 2 ≡ 0
      → Move n c (read_seq want) c (read_copy want c.seq c.ticks c.fills 0 buf)
  load_byte :
      {want : Option ℕ} {s1 t f k : ℕ} {buf : Image}
      → k < n
      → Move n c
          (read_copy want s1 t f k buf)
          c
          (read_copy want s1 t f (k + 1) (update buf k (c.image k)))
  loaded :
      {want : Option ℕ} {s1 t f k : ℕ} {buf : Image}
      → k ≡ n
      → Move n c (read_copy want s1 t f k buf) c (read_check want s1 t f buf)
  same_seq :
      {want : Option ℕ} {s1 t f : ℕ} {buf : Image}
      → c.seq ≡ s1
      → Move n c (read_check want s1 t f buf) c (read_ok buf)
  other_seq :
      {want : Option ℕ} {s1 t f : ℕ} {buf : Image}
      → c.seq ≢ s1
      → Move n c (read_check want s1 t f buf) c (read_state want)
  start_update : (g : ℕ) (rec : Image) → Move n c idle c (update_lock g rec)
  update_locked :
      {g : ℕ} {rec : Image}
      → c.wlock ≡ false
      → Move n c (update_lock g rec) (record c { wlock = true }) (update_state g rec)
  update_not_active :
      {g : ℕ} {rec : Image}
      → is_active c.state ≡ false
      → Move n c (update_state g rec) c update_unlock
  update_active :
      {g : ℕ} {rec : Image}
      → is_active c.state ≡ true
      → Move n c (update_state g rec) c (update_gen g rec)
  update_stale : {g : ℕ} {rec : Image} → c.gen ≢ g → Move n c (update_gen g rec) c update_unlock
  update_current :
      {g : ℕ} {rec : Image} → c.gen ≡ g → Move n c (update_gen g rec) c (update_odd rec)
  store_odd : {rec : Image} → Move n c (update_odd rec) (tick c) (update_copy 0 rec)
  store_byte :
      {k : ℕ} {rec : Image}
      → k < n
      → Move n c (update_copy k rec) (store c k (rec k)) (update_copy (k + 1) rec)
  stored : {k : ℕ} {rec : Image} → k ≡ n → Move n c (update_copy k rec) c update_even
  store_even : Move n c update_even (tick c) update_unlock
  update_unlocked : Move n c update_unlock (record c { wlock = false }) idle
  start_delete : (g : ℕ) → Move n c idle c (delete_lock g)
  delete_locked :
      {g : ℕ}
      → c.wlock ≡ false
      → Move n c (delete_lock g) (record c { wlock = true }) (delete_state g)
  delete_not_active :
      {g : ℕ} → is_active c.state ≡ false → Move n c (delete_state g) c update_unlock
  delete_active : {g : ℕ} → is_active c.state ≡ true → Move n c (delete_state g) c (delete_gen g)
  delete_stale : {g : ℕ} → c.gen ≢ g → Move n c (delete_gen g) c update_unlock
  delete_current : {g : ℕ} → c.gen ≡ g → Move n c (delete_gen g) c delete_freeze
  store_deleting : Move n c delete_freeze (record c { state = slot_deleting }) delete_unlock
  delete_unlocked : Move n c delete_unlock (record c { wlock = false }) delete_done
  store_deleted : Move n c delete_done (record c { state = slot_deleted }) delete_next
  next_gen : Move n c delete_next (record c { gen = (c.gen + 1) % u32_mod }) delete_free
  listed_again : Move n c delete_free (record c { listed = true }) idle
  start_insert :
      (rec : Image)
      → c.listed ≡ true
      → Move n c idle (record c { listed = false }) (insert_copy 0 rec)
  fill_byte :
      {k : ℕ} {rec : Image}
      → k < n
      → Move n c
          (insert_copy k rec)
          (record c { image = update c.image k (rec k); fills = c.fills + 1 })
          (insert_copy (k + 1) rec)
  filled : {k : ℕ} {rec : Image} → k ≡ n → Move n c (insert_copy k rec) c insert_publish
  refused : Move n c insert_publish (record c { listed = true }) idle
  published : Move n c insert_publish (record c { state = slot_active }) idle

-- The threads, by number, over the slot.
pub record System : Type 0 where
  pub cell : Cell
  pub pc : ℕ → Pc

pub data Step (n : ℕ) (s : System) : System → Type 0 where
  pick :
      (i : ℕ) {c : Cell} {p : Pc}
      → Move n s.cell (s.pc i) c p
      → Step n s (record { cell = c; pc = update s.pc i p })

-- A slot of a fresh chunk, on the freelist.
abbrev pub init : Image → System
init garbage = record {
  cell = record {
    state = SlotState.slot_free;
    wlock = false;
    seq = 0;
    gen = 0;
    listed = true;
    image = garbage;
    ticks = 0;
    fills = 0;
  };
  pc = λ i. idle;
}

pub data Reach (n : ℕ) (garbage : Image) : System → Type 0 where
  start : Reach n garbage (init garbage)
  later : {s t : System} → Reach n garbage s → Step n s t → Reach n garbage t
