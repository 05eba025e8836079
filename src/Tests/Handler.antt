-- ===== src/Tests/Handler.antt =====
-- The theorems on a handle and on the handler, at a table of one row.
use fastmem_mariadb.Prelude.{
  ◌%◌, ℕ, ◌+◌, ◌≤◌, ◌≡◌, refl, true, false, Option, none, some, [], Returns, ◌>>=◌, ◌==◌,
  if◌then◌else◌, arith,
}
use fastmem_mariadb.Core.{Share, u32_mod}
use fastmem_mariadb.Core.Delete.{is_current}
use fastmem_mariadb.Core.Wf.{row_at}
use fastmem_mariadb.Core.Wf.Relocked.{relocked, relocked-Wf}
use fastmem_mariadb.Data.{Table, Info, no_flags}
use fastmem_mariadb.Data.AutoValue.{Readers, binary}
use fastmem_mariadb.Data.{ha_ok}
use fastmem_mariadb.Handler.Reads.{rnd_next}
use fastmem_mariadb.Handler.Reads.Scans.{rnd_next-ReadsHeld}
use fastmem_mariadb.Handler.Writes.{delete_handler_row}
use fastmem_mariadb.Handler.Writes.Deletes.{delete_handler_row-Gone}
use fastmem_mariadb.Handler.Estimates.{
  TableStats, ServerKey, handler_info, KeyRange, read_key_exact, read_after_key, whole_key,
  records_in_range,
}
use fastmem_mariadb.Handler.Estimates.Bounds.{records_in_range-bounds}
use fastmem_mariadb.Handler.{Handler}
use fastmem_mariadb.Handler.Reads.{index_read_idx_map}
use fastmem_mariadb.Handler.Reads.UnderLock.{ReadsHeld, HeldRow, index_read_idx_map-ReadsHeld}
use fastmem_mariadb.Handler.Writes.{update_handler_row}
use fastmem_mariadb.Handler.Writes.Commits.{Committed, update_handler_row-Committed}
use fastmem_mariadb.Handler.Reads.{index_next}
use fastmem_mariadb.Handler.Reads.Nexts.{index_next-ReadsHeld, index_next-delete_handler_row}
use fastmem_mariadb.Data.{ha_end_of_file}
use fastmem_mariadb.Tests.Table.{
  first_byte, rec_a, s1, s1-Added, is_current_a, unlocked_s1, lawful_s1, keys_s1, rec_b, s_c,
  s_c-Updated, unlocked_s_c,
}

abbrev pub table_of : Share → Table
table_of s = record {
  core = s;
  keydef = λ k. record { nosame = true; null_part_key = false; length = 1; segs = [] };
  create_time = 0;
}

abbrev pub file_at : Option ℕ → Info
file_at slot = record {
  current_slot = slot;
  current_gen = 0;
  current_hash_slot = none;
  lastinx = none;
  errkey = 0;
  update = no_flags;
  read_check = true;
  scan_pos = 0;
  lastkey = [];
  lastkey_len = 0;
}

-- The handle on row 0, which a lookup with key 0 has found.
abbrev pub at_key : Info
at_key = record (file_at (some 0)) { lastinx = some 0; lastkey = rec_a; lastkey_len = 1 }

-- A handler in a write statement that holds no lock, and one that holds the lock of row 0.
abbrev pub fresh_handler : Handler
fresh_handler = record {
  file = file_at none;
  write_stmt = true;
  row_locked = false;
  locked_slot = none;
}

abbrev holder : Handler
holder = record { file = at_key; write_stmt = true; row_locked = true; locked_slot = some 0 }

index_read_idx_map-ReadsHeld_example :
    Returns (index_read_idx_map (λ t. table_of s_c) (table_of s1) fresh_handler 0 rec_a) ReadsHeld
index_read_idx_map-ReadsHeld_example =
    index_read_idx_map-ReadsHeld (λ t. table_of s_c) (table_of s1) fresh_handler 0 rec_a s1-Added.wf
      s_c-Updated.1.wf (omega (arith, keys_s1)) (lawful_s1 0) refl unlocked_s1 unlocked_s_c

abbrev held_table : Table
held_table = table_of (relocked s1 (λ i. 0 == i))

row_a : row_at s1 0 ≡ some rec_a
row_a = s1-Added.rows 0

held_a : HeldRow held_table holder rec_a
unfolding is_current row_at
held_a = record {
  idx = 0;
  here = refl;
  holds = refl;
  current = row_a;
  gen = is_current_a;
  mine = λ i. refl;
}

abbrev pub readers : Readers
readers = record {
  type_of = λ n. binary;
  uint = λ n key. first_byte key;
  sint = λ n key. first_byte key;
  float_value = λ key. 0;
  double_value = λ key. 0;
}

update_handler_row-Committed_example :
    Returns (update_handler_row readers held_table holder rec_a rec_b) (λ (t', h', code).
      Committed held_table 0 rec_b code t'
      × (h'.row_locked ≡ false)
      × ((t'.core.slot 0).wlock ≡ false))
unfolding held_a
update_handler_row-Committed_example =
    update_handler_row-Committed readers held_table holder rec_a rec_b
      (relocked-Wf s1 (λ i. 0 == i) s1-Added.wf) (omega (arith, keys_s1)) lawful_s1 refl held_a

rnd_next-ReadsHeld_example :
    Returns (rnd_next (λ t. table_of s_c) (table_of s1) fresh_handler) ReadsHeld
rnd_next-ReadsHeld_example =
    rnd_next-ReadsHeld (λ t. table_of s_c) (table_of s1) fresh_handler s1-Added.wf s_c-Updated.1.wf
      refl unlocked_s1 unlocked_s_c

delete_handler_row-Gone_example :
    Returns (delete_handler_row held_table holder rec_a) (λ (t', h', code).
      (code ≡ ha_ok)
      × ((i : ℕ) → row_at t'.core i ≡ (if i == 0 then none else row_at held_table.core i))
      × ((t'.core.slot 0).gen ≡ ((held_table.core.slot 0).gen + 1) % u32_mod)
      × (t'.core.records + 1 ≡ held_table.core.records)
      × (h'.row_locked ≡ false)
      × ((t'.core.slot 0).wlock ≡ false))
unfolding held_a
delete_handler_row-Gone_example =
    delete_handler_row-Gone held_table holder rec_a (relocked-Wf s1 (λ i. 0 == i) s1-Added.wf) refl
      held_a

abbrev server_key : ServerKey
server_key = record { has_rec_per_key = true; nosame = false; key_length = 1 }

abbrev no_stats : TableStats
no_stats = record {
  errkey = 0;
  records = 0;
  deleted = 0;
  mean_rec_length = 0;
  data_file_length = 0;
  index_file_length = 0;
  max_data_file_length = 0;
  delete_length = 0;
  create_time = 0;
  auto_increment_value = 0;
  rec_per_key = λ i. 0;
}

abbrev lower : KeyRange
lower = record { length = 1; flag = read_key_exact }

abbrev upper : KeyRange
upper = record { length = 1; flag = read_after_key }

is_whole : whole_key server_key (some lower) (some upper) ≡ true
unfolding whole_key
is_whole = refl

records_in_range-bounds_example :
    let told = (handler_info 4 (table_of s1) (file_at none) 1 (λ i. server_key) false no_stats).1 in
    let n = records_in_range told (λ i. server_key) 0 (some lower) (some upper) in
    (n ≤ s1.records) × ((n == 0) ≡ (s1.records == 0))
records_in_range-bounds_example =
    records_in_range-bounds 4 (table_of s1) (file_at none) 1 (λ i. server_key) false no_stats 0
      (some lower) (some upper) (omega arith) refl is_whole

-- A handler behind the lookup, whose row lock is taken again with the next row.
abbrev pub unlocked_at_key : Handler
unlocked_at_key = record fresh_handler { file = at_key }

index_next-ReadsHeld_example :
    Returns (index_next (λ t. table_of s_c) (table_of s1) unlocked_at_key) ReadsHeld
index_next-ReadsHeld_example =
    index_next-ReadsHeld (λ t. table_of s_c) (table_of s1) unlocked_at_key s1-Added.wf
      s_c-Updated.1.wf (λ i e. ground (arith, keys_s1)) refl unlocked_s1 unlocked_s_c

index_next-delete_handler_row_example :
    Returns
      (delete_handler_row held_table holder rec_a >>= λ (t, h, code). index_next (λ u. u) t h)
      (λ (t, h, code, rec). (code ≡ ha_end_of_file) × (rec ≡ none))
index_next-delete_handler_row_example =
    index_next-delete_handler_row (λ u. u) (λ u. u) held_table holder rec_a 0
      (relocked-Wf s1 (λ i. 0 == i) s1-Added.wf) refl held_a refl
