-- ===== src/Prepare.antt =====
-- `fm_prepare_create_info` of fm_create.cc: from the server's description of a table to the input of
-- `fm_create`. What the source reads of MariaDB's `TABLE`, `KEY`, `KEY_PART_INFO` and `Field` stands in
-- records; the values of MariaDB's key types and `my_charset_bin` are parameters.
pub mod Bounds
pub mod Fits
use fastmem_mariadb.Prelude.{
  ℕ, zero, suc, ◌+◌, ◌*◌, ◌/◌, ◌%◌, Bool, true, false, not, ◌&&◌, Option, none, some, List, [], ◌∷◌,
  ◌==◌, ltb, if◌then◌else◌, length,
}
use fastmem_mariadb.Core.{align8, slot_data_offset, u32_mod}
use fastmem_mariadb.KeyDef.{
  Charset, SegType, text, vartext1, vartext2, varbinary1, varbinary2, bit, binary, KeySeg, KeyDef,
}
use fastmem_mariadb.Hash.{is_bit, nullable}
use fastmem_mariadb.Registry.{CreateInfo}

-- The values of `HA_KEYTYPE_TEXT` and the others that the source names.
pub record KeyTypes : Type 0 where
  pub ha_text : ℕ
  pub ha_vartext1 : ℕ
  pub ha_vartext2 : ℕ
  pub ha_varbinary1 : ℕ
  pub ha_varbinary2 : ℕ
  pub ha_bit : ℕ

-- A column. `null` is its `null_bit` with the place of that, and `bit_pos` the place of `bit_ptr`.
pub record Field : Type 0 where
  pub key_type : ℕ
  pub enum_or_set : Bool
  pub auto_increment : Bool
  pub charset : Charset
  pub null : Option (ℕ × ℕ)
  pub bit_len : ℕ
  pub bit_ofs : ℕ
  pub bit_pos : ℕ

pub record KeyPart : Type 0 where
  pub field : Field
  pub offset : ℕ
  pub length : ℕ

pub data Algorithm : Type 0 where
  alg_undef alg_hash alg_btree alg_other : Algorithm

pub record Key : Type 0 where
  pub algorithm : Algorithm
  pub nosame : Bool
  pub parts : List KeyPart

-- `next_number` is whether `found_next_number_field` is set. The number of keys is the length of
-- `key_info`. `max_heap_table_size` is the variable of the session.
pub record SqlTable : Type 0 where
  pub total_keys : ℕ
  pub key_info : List Key
  pub next_number : Bool
  pub next_number_index : ℕ
  pub reclength : ℕ
  pub max_rows : ℕ
  pub max_heap_table_size : ℕ

pub data Prepared : Type 0 where
  unsupported : Prepared
  no_memory : Prepared
  prepared : (ci : CreateInfo) → Prepared

unfoldable pub seg_type : KeyTypes → ℕ → SegType
seg_type ha n =
    if n == ha.ha_text
    then text
    else if n == ha.ha_vartext1
    then vartext1
    else if n == ha.ha_vartext2
    then vartext2
    else if n == ha.ha_varbinary1
    then varbinary1
    else if n == ha.ha_varbinary2
    then varbinary2
    else if n == ha.ha_bit
    then bit
    else binary

unfoldable pub make_seg : KeyTypes → Charset → KeyPart → KeySeg
unfolding seg_type
make_seg ha charset_bin p =
    let f = p.field in
    let ty = seg_type ha f.key_type in
    record {
      type = ty;
      start = p.offset;
      length = p.length;
      null_bit = elim f.null [ none ↦ 0 | some (b, pos) ↦ b ];
      null_pos = elim f.null [ none ↦ 0 | some (b, pos) ↦ pos ];
      bit_start = if is_bit ty then f.bit_ofs else 0;
      bit_length = if is_bit ty then f.bit_len else 0;
      bit_pos = if is_bit ty then f.bit_pos else 0;
      charset = if f.enum_or_set then charset_bin else f.charset;
    }

abbrev pub is_var : SegType → Bool
is_var vartext1 = true
is_var vartext2 = true
is_var varbinary1 = true
is_var varbinary2 = true
is_var _ = false

abbrev pub final_type : SegType → SegType
final_type vartext2 = vartext1
final_type varbinary1 = vartext1
final_type varbinary2 = vartext1
final_type ty = ty

abbrev pub final_start : SegType → ℕ → ℕ
final_start vartext1 b = 1
final_start varbinary1 b = 1
final_start vartext2 b = 2
final_start varbinary2 b = 2
final_start _ b = b

-- The segment behind the `switch` of the last loop.
unfoldable pub final_seg : KeySeg → KeySeg
final_seg s = record s { type = final_type s.type; bit_start = final_start s.type s.bit_start }

-- What a segment adds to the length of a packed key.
abbrev pub part_length : KeySeg → ℕ
part_length s = s.length + (if nullable s then 1 else 0) + (if is_var s.type then 2 else 0)

unfoldable pub key_length : ℕ → List KeySeg → ℕ
key_length n [] = n
key_length n (s ∷ ss) = key_length ((n + part_length s) % u32_mod) ss

unfoldable pub make_segs : KeyTypes → Charset → List KeyPart → List KeySeg
unfolding make_seg
make_segs ha charset_bin [] = []
make_segs ha charset_bin (p ∷ ps) = make_seg ha charset_bin p ∷ make_segs ha charset_bin ps

unfoldable pub final_segs : List KeySeg → List KeySeg
unfolding final_seg
final_segs [] = []
final_segs (s ∷ ss) = final_seg s ∷ final_segs ss

-- Of the flags only `HA_NOSAME`, `HA_NULL_ARE_EQUAL` and `HA_AUTO_KEY` are kept.
unfoldable pub make_keydef : KeyTypes → Charset → Key → KeyDef
unfolding make_segs final_segs key_length
make_keydef ha charset_bin key =
    let segs = make_segs ha charset_bin key.parts in
    record {
      segs = final_segs segs;
      nosame = key.nosame;
      null_part_key = false;
      length = key_length 0 segs;
    }

-- The definition of key `k`; past the keys there is none, and the value is not read.
unfoldable pub keydef_at : KeyTypes → Charset → List Key → ℕ → KeyDef
unfolding make_keydef
keydef_at ha charset_bin [] k = record {
  segs = [];
  nosame = false;
  null_part_key = false;
  length = 0;
}
keydef_at ha charset_bin (key ∷ keys) k = elim k [
  | zero ↦ make_keydef ha charset_bin key
  | suc j ↦ keydef_at ha charset_bin keys j
]

unfoldable pub has_btree : List Key → Bool
has_btree [] = false
has_btree (key ∷ keys) = elim key.algorithm [ alg_btree ↦ true | _ ↦ has_btree keys ]

-- `auto_key` and `auto_key_type`: the parts of key `k`.
unfoldable pub auto_part : SqlTable → ℕ → List KeyPart → ℕ × ℕ → ℕ × ℕ
auto_part t k [] auto = auto
auto_part t k (p ∷ ps) auto = auto_part t k ps (
    if p.field.auto_increment && t.next_number && k == t.next_number_index
    then (k + 1, p.field.key_type)
    else auto)

unfoldable pub auto_keys : SqlTable → ℕ → List Key → ℕ × ℕ → ℕ × ℕ
unfolding auto_part
auto_keys t k [] auto = auto
auto_keys t k (key ∷ keys) auto = auto_keys t (k + 1) keys (auto_part t k key.parts auto)

abbrev pub mem_per_row : SqlTable → ℕ
mem_per_row t = align8 (slot_data_offset + t.reclength) + length t.key_info * 4 + 16

-- The limit of rows.
unfoldable pub estimate : SqlTable → ℕ
estimate t =
    let max_table_size = if ltb t.max_heap_table_size 8 then 8 else t.max_heap_table_size in
    let fit = max_table_size / mem_per_row t in
    let limited = if not (t.max_rows == 0) && ltb t.max_rows fit then t.max_rows else fit in
    if limited == 0 then 1 else limited

unfoldable pub longest : KeyTypes → Charset → List Key → ℕ → ℕ
unfolding make_keydef
longest ha charset_bin [] n = n
longest ha charset_bin (key ∷ keys) n =
    let len = (make_keydef ha charset_bin key).length in
    longest ha charset_bin keys (if ltb n len then len else n)

-- `fm_prepare_create_info`; `granted` is whether the buffer of the key definitions is allocated.
unfoldable pub prepare_create_info : KeyTypes → Charset → SqlTable → Bool → Bool → Prepared
unfolding keydef_at has_btree auto_keys estimate longest
prepare_create_info ha charset_bin t internal_table granted =
    let keys = t.key_info in
    let auto = auto_keys t 0 keys (0, 0) in
    let ci : CreateInfo = record {
      keydef = keydef_at ha charset_bin keys;
      keys = length keys;
      reclength = t.reclength;
      max_key_length = longest ha charset_bin keys 0;
      max_records = estimate t;
      auto_increment = 0;
      auto_key = auto.0;
      auto_key_type = auto.1;
      internal_table = internal_table;
    } in
    if ltb (length keys) t.total_keys
    then unsupported
    else if not granted
    then no_memory
    else if has_btree keys
    then unsupported
    else prepared ci
