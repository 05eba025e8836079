-- ===== src/Hash.antt =====
-- fm_hash.cc: the callbacks of a key, which hash and compare record images and packed keys, and
-- `fm_make_key`. A `ulong` has 64 bits. A pointer into a buffer is the bytes from there on.
pub mod Callbacks
pub mod MakeKey
pub mod Parts
pub mod Lawful
pub mod Packed
pub mod Lookup
pub mod Same
use fastmem_mariadb.Prelude.{
  ℕ, zero, suc, ◌+◌, ◌-◌, ◌*◌, ◌/◌, ◌%◌, Bool, true, false, not, ◌&&◌, ◌||◌, List, [], ◌∷◌, ◌++◌,
  bit_and, ◌==◌, ltb, if◌then◌else◌, drop,
}
use Prim.Native.Nat.{bit_or, bit_xor}
use fastmem_mariadb.Core.{
  Share, Bytes, byte_at, rest_of, read_bytes, KeyOps, KeyCore, u32_mod, u64_mod,
}
use fastmem_mariadb.KeyDef.{HashState, Charset, SegType, text, vartext1, bit, KeySeg, KeyDef}
use fastmem_mariadb.Data.{Table, same_bytes}

-- The functions and macros of MariaDB that the file uses: `my_hasher_mysql5x`,
-- `MY_HASH_ADD_MARIADB`, `uint2korr`, `get_rec_bits`.
pub record Server : Type 0 where
  pub hasher : HashState
  pub hash_add : HashState → ℕ → HashState
  pub uint2korr : Bytes → ℕ
  pub rec_bits : Bytes → ℕ → ℕ → ℕ

abbrev pub set_if_smaller : ℕ → ℕ → ℕ
set_if_smaller a b = if ltb b a then b else a

unfoldable pub add_bytes : Server → HashState → Bytes → HashState
add_bytes sv h [] = h
add_bytes sv h (x ∷ xs) = add_bytes sv (sv.hash_add h x) xs

-- `hasher.m_nr1 ^= (hasher.m_nr1 << 1) | 1`, for a part that is null.
unfoldable pub null_hash : HashState → HashState
null_hash (nr1, nr2) = (bit_xor nr1 (bit_or (nr1 * 2 % u64_mod) 1), nr2)

abbrev pub nullable : KeySeg → Bool
nullable seg = not (seg.null_bit == 0)

unfoldable pub null_mask : KeySeg → Bytes → ℕ
null_mask seg rec = bit_and (byte_at (drop seg.null_pos rec)) seg.null_bit

unfoldable pub is_null : KeySeg → Bytes → Bool
unfolding null_mask
is_null seg rec = nullable seg && not (null_mask seg rec == 0)

abbrev pub is_vartext1 : SegType → Bool
is_vartext1 vartext1 = true
is_vartext1 _ = false

abbrev pub is_bit : SegType → Bool
is_bit bit = true
is_bit _ = false

abbrev pub has_bits : KeySeg → Bool
has_bits seg = is_bit seg.type && not (seg.bit_length == 0)

-- The text of a TEXT segment that stands at `pos`.
unfoldable pub text_part : KeySeg → Bytes → Bytes
text_part seg pos =
    let cs = seg.charset in
    let chars = cs.charpos (read_bytes seg.length pos) (seg.length / cs.mbmaxlen) in
    read_bytes (if ltb 1 cs.mbmaxlen then set_if_smaller seg.length chars else seg.length) pos

-- The text `body` of a VARCHAR of `len` bytes; `clip` is the limit where a character has one byte.
unfoldable pub var_part : KeySeg → ℕ → ℕ → Bytes → Bytes
var_part seg clip len body =
    let cs = seg.charset in
    let chars = cs.charpos (read_bytes len body) (seg.length / cs.mbmaxlen) in
    read_bytes (if ltb 1 cs.mbmaxlen then set_if_smaller len chars else set_if_smaller len clip)
      body

-- The length in front of a VARCHAR in a record.
unfoldable pub var_length : Server → KeySeg → Bytes → ℕ
var_length sv seg pos = if seg.bit_start == 1 then byte_at pos else sv.uint2korr pos

-- The VARCHAR of a record, as `fm_rec_hashnr` and `fm_key_cmp` read it, and as `fm_rec_key_cmp` does.
unfoldable pub var_of_rec : Server → KeySeg → Bytes → Bytes
unfolding var_length var_part
var_of_rec sv seg pos = var_part seg seg.length (var_length sv seg pos) (drop seg.bit_start pos)

unfoldable pub var_of_cmp : Server → KeySeg → Bytes → Bytes
unfolding var_length var_part
var_of_cmp sv seg pos =
    var_part seg seg.length (var_length sv seg pos) (drop (if seg.bit_start == 1 then 1 else 2) pos)

-- The VARCHAR of a packed key, which is not clipped.
unfoldable pub var_of_key : Server → KeySeg → Bytes → Bytes
unfolding var_part
var_of_key sv seg pos = let len = sv.uint2korr pos in var_part seg len len (drop 2 pos)

-- The bits of a BIT segment that lie apart.
unfoldable pub bits_of : Server → KeySeg → Bytes → ℕ
bits_of sv seg rec = sv.rec_bits (drop seg.bit_pos rec) seg.bit_start seg.bit_length

-- `seg->length - dec`.
abbrev pub plain_length : KeySeg → ℕ
plain_length seg = if has_bits seg then seg.length - 1 else seg.length

-- A part that is not null, in `fm_rec_hashnr`.
unfoldable pub rec_part_hash : Server → SegType → KeySeg → Bytes → HashState → HashState
unfolding text_part var_of_rec
rec_part_hash sv text seg rec h = seg.charset.hash_sort h (text_part seg (drop seg.start rec))
rec_part_hash sv vartext1 seg rec h =
    seg.charset.hash_sort h (var_of_rec sv seg (drop seg.start rec))
rec_part_hash sv _ seg rec h =
    let h' = if has_bits seg then sv.hash_add h (bits_of sv seg rec) else h in
    add_bytes sv h' (read_bytes (plain_length seg) (drop seg.start rec))

unfoldable pub rec_hashnr : Server → List KeySeg → Bytes → HashState → HashState
unfolding is_null null_hash
rec_hashnr sv [] rec h = h
rec_hashnr sv (seg ∷ segs) rec h =
    rec_hashnr sv segs rec
      (if is_null seg rec then null_hash h else rec_part_hash sv seg.type seg rec h)

-- The bytes that a part takes in a packed key, behind its null byte.
abbrev pub packed_length : KeySeg → ℕ
packed_length seg = if is_vartext1 seg.type then seg.length + 2 else seg.length

abbrev pub behind_null : KeySeg → Bytes → Bytes
behind_null seg key = if nullable seg then rest_of key else key

-- A part that is not null, in `fm_hashnr`.
unfoldable pub key_part_hash : Server → SegType → KeySeg → Bytes → HashState → HashState
unfolding text_part var_of_key
key_part_hash sv text seg pos h = seg.charset.hash_sort h (text_part seg pos)
key_part_hash sv vartext1 seg pos h = seg.charset.hash_sort h (var_of_key sv seg pos)
key_part_hash sv _ seg pos h = add_bytes sv h (read_bytes seg.length pos)

unfoldable pub hashnr : Server → List KeySeg → Bytes → HashState → HashState
unfolding null_hash
hashnr sv [] key h = h
hashnr sv (seg ∷ segs) key h =
    let pos = behind_null seg key in
    let found_null = nullable seg && not (byte_at key == 0) in
    hashnr sv segs (drop (packed_length seg) pos)
      (if found_null then null_hash h else key_part_hash sv seg.type seg pos h)

-- Whether two parts that are not null differ, in `fm_rec_key_cmp`.
unfoldable pub rec_part_differs : Server → SegType → KeySeg → Bytes → Bytes → Bool
unfolding text_part var_of_cmp
rec_part_differs sv text seg a b =
    not (
      seg.charset.collate (text_part seg (drop seg.start a)) (text_part seg (drop seg.start b))
      == 0)
rec_part_differs sv vartext1 seg a b = not (
    seg.charset.collate (var_of_cmp sv seg (drop seg.start a))
      (var_of_cmp sv seg (drop seg.start b))
    == 0)
rec_part_differs sv _ seg a b =
    has_bits seg && not (bits_of sv seg a == bits_of sv seg b)
    || not (same_bytes (plain_length seg) (drop seg.start a) (drop seg.start b))

unfoldable pub rec_key_cmp : Server → List KeySeg → Bytes → Bytes → ℕ
unfolding is_null
rec_key_cmp sv [] a b = 0
rec_key_cmp sv (seg ∷ segs) a b =
    let rest = rec_key_cmp sv segs a b in
    if nullable seg && not (null_mask seg a == null_mask seg b)
    then 1
    else if is_null seg a
    then rest
    else if rec_part_differs sv seg.type seg a b
    then 1
    else rest

-- Whether a part of a record differs from that of a packed key, in `fm_key_cmp`.
unfoldable pub key_part_differs : Server → SegType → KeySeg → Bytes → Bytes → Bool
unfolding text_part var_of_rec var_of_key
key_part_differs sv text seg rec key =
    not (seg.charset.collate (text_part seg (drop seg.start rec)) (text_part seg key) == 0)
key_part_differs sv vartext1 seg rec key =
    not (seg.charset.collate (var_of_rec sv seg (drop seg.start rec)) (var_of_key sv seg key) == 0)
key_part_differs sv _ seg rec key =
    has_bits seg && not (bits_of sv seg rec == byte_at key)
    || not (
        same_bytes (plain_length seg) (drop seg.start rec)
          (if has_bits seg then rest_of key else key))

-- How far `fm_key_cmp` moves the key on past a part that is not null: a BIT part by a byte more than
-- it takes.
abbrev pub cmp_length : KeySeg → ℕ
cmp_length seg =
    if is_vartext1 seg.type
    then seg.length + 2
    else if has_bits seg
    then seg.length + 1
    else seg.length

unfoldable pub key_cmp : Server → List KeySeg → Bytes → Bytes → ℕ
unfolding is_null
key_cmp sv [] rec key = 0
key_cmp sv (seg ∷ segs) rec key =
    let pos = behind_null seg key in
    let found_null : ℕ = if is_null seg rec then 1 else 0 in
    let past_null = key_cmp sv segs rec (drop (packed_length seg) pos) in
    let rest = key_cmp sv segs rec (drop (cmp_length seg) pos) in
    if nullable seg && not (found_null == byte_at key)
    then 1
    else if is_null seg rec
    then past_null
    else if key_part_differs sv seg.type seg rec pos
    then 1
    else rest

unfoldable pub if_null_in_key : List KeySeg → Bytes → Bool
unfolding is_null
if_null_in_key [] rec = false
if_null_in_key (seg ∷ segs) rec = is_null seg rec || if_null_in_key segs rec
