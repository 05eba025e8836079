-- ===== src/Tests/Prepare.antt =====
-- A table with a unique key over a VARCHAR column and a nullable column of four bytes.
use fastmem_mariadb.Prelude.{
  ◌^◌, ◌<◌, ◌≤◌, ◌≡◌, refl, true, false, none, some, [], ◌∷◌, length, arith,
}
use fastmem_mariadb.Core.{Bytes}
use fastmem_mariadb.Core.Wf.{LawfulKey}
use fastmem_mariadb.Hash.Callbacks.{key_ops}
use fastmem_mariadb.Hash.MakeKey.{make_key}
use fastmem_mariadb.Hash.Lawful.{BitsLast}
use fastmem_mariadb.Registry.{CreateInfo}
use fastmem_mariadb.Prepare.{
  KeyTypes, Field, Algorithm, Key, SqlTable, prepared, prepare_create_info, keydef_at, longest,
  estimate, has_btree, auto_keys, final_seg, final_segs, make_keydef, seg_type, auto_part,
  make_segs, make_seg,
}
use fastmem_mariadb.Prepare.Bounds.{Bounded, prepare_create_info-Bounded}
use fastmem_mariadb.Prepare.Fits.{KeysOk, total_length, prepared-LawfulKey, make_key-fits}
use fastmem_mariadb.Tests.Hash.{server, charset, charset-Collates}

abbrev pub ha : KeyTypes
ha = record {
  ha_text = 1;
  ha_vartext1 = 15;
  ha_vartext2 = 17;
  ha_varbinary1 = 16;
  ha_varbinary2 = 18;
  ha_bit = 19;
}

abbrev pub name_field : Field
name_field = record {
  key_type = 15;
  enum_or_set = false;
  auto_increment = false;
  charset = charset;
  null = none;
  bit_len = 0;
  bit_ofs = 0;
  bit_pos = 0;
}

abbrev pub number_field : Field
number_field = record {
  key_type = 4;
  enum_or_set = false;
  auto_increment = false;
  charset = charset;
  null = some (2, 0);
  bit_len = 0;
  bit_ofs = 0;
  bit_pos = 0;
}

abbrev pub key_of_both : Key
key_of_both = record {
  algorithm = Algorithm.alg_hash;
  nosame = true;
  parts =
      record { field = name_field; offset = 1; length = 3 }
      ∷ record { field = number_field; offset = 5; length = 4 }
      ∷ [];
}

abbrev pub table : SqlTable
table = record {
  total_keys = 1;
  key_info = key_of_both ∷ [];
  next_number = false;
  next_number_index = 0;
  reclength = 9;
  max_rows = 100;
  max_heap_table_size = 1024;
}

-- What is prepared for it.
abbrev table_ci : CreateInfo
table_ci = record {
  keydef = keydef_at ha charset (key_of_both ∷ []);
  keys = 1;
  reclength = 9;
  max_key_length = longest ha charset (key_of_both ∷ []) 0;
  max_records = estimate table;
  auto_increment = 0;
  auto_key = 0;
  auto_key_type = 0;
  internal_table = false;
}

table_made : prepare_create_info ha charset table false true ≡ prepared table_ci
unfolding prepare_create_info has_btree auto_keys auto_part
table_made = refl

table-KeysOk : KeysOk table.key_info
table-KeysOk = ((charset-Collates, omega arith, (charset-Collates, omega arith, tt)), tt)

table-BitsLast : BitsLast (table_ci.keydef 0).segs
unfolding keydef_at make_keydef make_segs final_segs make_seg final_seg seg_type
table-BitsLast = ((λ e. cc), ((λ e. cc), tt))

table_room : total_length (table_ci.keydef 0).segs < 2 ^ 32
unfolding keydef_at make_keydef make_segs final_segs make_seg final_seg seg_type total_length
table_room = omega arith

abbrev row : Bytes
row = 0 ∷ 2 ∷ 65 ∷ 66 ∷ 0 ∷ 7 ∷ 0 ∷ 0 ∷ 0 ∷ []

prepare_create_info-Bounded_example : Bounded ha charset table table_ci
prepare_create_info-Bounded_example =
    prepare_create_info-Bounded ha charset table false true table_ci table_made

prepared-LawfulKey_example : LawfulKey (key_ops server (table_ci.keydef 0))
prepared-LawfulKey_example =
    prepared-LawfulKey ha charset table false true table_ci table_made charset-Collates table-KeysOk
      server 0 table-BitsLast

make_key-fits_example :
    length (make_key server (table_ci.keydef 0).segs row) ≤ table_ci.max_key_length
make_key-fits_example =
    make_key-fits ha charset table false true table_ci table_made charset-Collates table-KeysOk
      server 0 row (omega arith) table_room
