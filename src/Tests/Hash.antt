-- ===== src/Tests/Hash.antt =====
-- A key over a column of one byte and a nullable text column of two bytes.
use fastmem_mariadb.Prelude.{
  none, inl, inr, zero, suc, ◌≤◌, ◌⊎◌, bit_and, ℕ, ◌+◌, ◌*◌, ◌/◌, ◌%◌, ◌^◌, ◌<◌, ◌≡◌, refl, ap,
  Bool, true, false, ◌&&◌, some, [], ◌∷◌, ◌==◌, if◌then◌else◌, done, Returns, Returns-at, arith,
}
use fastmem_mariadb.Core.{Share, Bytes, KeyCore, byte_at, rest_of, init_share, slot_count}
use fastmem_mariadb.Core.Alloc.{
  alloc_slot, alloc_fresh, grow_chunk, push_down, free_slot, alloc_grown,
}
use fastmem_mariadb.Core.Chain.{walk, chain_link}
use fastmem_mariadb.Core.Lookup.{dup_check, find}
use fastmem_mariadb.Core.Insert.{insert_row, link_keys, publish, insert_at, inserted}
use fastmem_mariadb.Core.Insert.Adds.{Added, insert_row-Inserted}
use fastmem_mariadb.Core.Wf.{LawfulKey, row_at}
use fastmem_mariadb.Core.Wf.Fresh.{init_share-Wf}
use fastmem_mariadb.KeyDef.{Charset, text, binary, KeySeg, KeyDef}
use fastmem_mariadb.Hash.{Server, if_null_in_key, key_cmp}
use fastmem_mariadb.Hash.Callbacks.{key_ops}
use fastmem_mariadb.Hash.MakeKey.{make_key}
use fastmem_mariadb.Core.Bits.{bit_and-le}
use fastmem_mariadb.Hash.Same.{OneBits}
use fastmem_mariadb.Data.{Table, no_flags}
use fastmem_mariadb.Handler.{Handler}
use fastmem_mariadb.Handler.Unique.{find_unique_row}
use fastmem_mariadb.Handler.Unique.Decides.{PlainKey, Decides, find_unique_row-Decides}
use fastmem_mariadb.Hash.Parts.{Collates, SegOk}
use fastmem_mariadb.Hash.Lawful.{SegsOk, BitsLast, key_ops-LawfulKey}
use fastmem_mariadb.Hash.Packed.{AllFixed, key_cmp-make_key}
use fastmem_mariadb.Hash.Lookup.{Hit, find-make_key}
use fastmem_mariadb.Tests.Table.{mem, share_of}

abbrev pub server : Server
server = record {
  hasher = (1, 4);
  hash_add = λ h x. (h.0 + x, h.1);
  uint2korr = λ b. byte_at b + 256 * byte_at (rest_of b);
  rec_bits = λ b at_bit n. byte_at b / 2 ^ at_bit % 2 ^ n;
}

pub same_text : Bytes → Bytes → Bool
same_text [] [] = true
same_text (x ∷ a) (y ∷ b) = x == y && same_text a b
same_text _ _ = false

pub sum_of : Bytes → ℕ
sum_of [] = 0
sum_of (x ∷ a) = x + sum_of a

same_text_refl : (a : Bytes) → same_text a a ≡ true
unfolding same_text
same_text_refl [] = refl
same_text_refl (x ∷ a) = ground (arith, same_text_refl a)

same_text_comm : (a b : Bytes) → same_text a b ≡ same_text b a
unfolding same_text
same_text_comm [] [] = refl
same_text_comm [] (y ∷ b) = refl
same_text_comm (x ∷ a) [] = refl
same_text_comm (x ∷ a) (y ∷ b) = ground (arith, same_text_comm a b)

same_text_trans :
    (a b c : Bytes) → same_text a b ≡ true → same_text b c ≡ true → same_text a c ≡ true
unfolding same_text
same_text_trans [] [] c e f = f
same_text_trans [] (y ∷ b) c e f = cc
same_text_trans (x ∷ a) [] c e f = cc
same_text_trans (x ∷ a) (y ∷ b) [] e f = cc
same_text_trans (x ∷ a) (y ∷ b) (z ∷ c) e f = ground (arith, same_text_trans a b c)

same_text-sum : (a b : Bytes) → same_text a b ≡ true → sum_of a ≡ sum_of b
unfolding same_text sum_of
same_text-sum [] [] e = refl
same_text-sum [] (y ∷ b) e = cc
same_text-sum (x ∷ a) [] e = cc
same_text-sum (x ∷ a) (y ∷ b) e = ground (arith, same_text-sum a b)

abbrev pub charset : Charset
charset = record {
  mbmaxlen = 1;
  charpos = λ t n. n;
  hash_sort = λ h t. (h.0 + sum_of t, h.1);
  collate = λ a b. if same_text a b then 0 else 1;
}

pub charset-Collates : Collates charset
charset-Collates = record {
  same = λ a. ground (arith, same_text_refl a);
  symm = λ a b. ground (arith, same_text_comm a b);
  trans = λ a b c e f. ground (arith, same_text_trans a b c);
  hashed = λ h a b e. ap (λ n. (h.0 + n, h.1)) (same_text-sum a b (ground arith));
}

abbrev seg0 : KeySeg
seg0 = record {
  type = binary;
  start = 1;
  length = 1;
  null_bit = 0;
  null_pos = 0;
  bit_start = 0;
  bit_length = 0;
  bit_pos = 0;
  charset = charset;
}

abbrev seg1 : KeySeg
seg1 = record {
  type = text;
  start = 2;
  length = 2;
  null_bit = 1;
  null_pos = 0;
  bit_start = 0;
  bit_length = 0;
  bit_pos = 0;
  charset = charset;
}

abbrev kd : KeyDef
kd = record { segs = seg0 ∷ seg1 ∷ []; nosame = true; null_part_key = false; length = 4 }

seg0-SegOk : SegOk seg0
seg0-SegOk = record { collates = charset-Collates; length_bytes = λ e. cc; bit_byte = λ e. cc }

seg1-SegOk : SegOk seg1
seg1-SegOk = record { collates = charset-Collates; length_bytes = λ e. cc; bit_byte = λ e. cc }

kd-SegsOk : SegsOk kd.segs
kd-SegsOk = (seg0-SegOk, (seg1-SegOk, tt))

kd-BitsLast : BitsLast kd.segs
kd-BitsLast = ((λ e. cc), ((λ e. cc), tt))

kd-AllFixed : AllFixed kd.segs
kd-AllFixed = (
  record { ok = seg0-SegOk; no_var = refl; no_bits = refl; narrow = refl },
  (record { ok = seg1-SegOk; no_var = refl; no_bits = refl; narrow = refl }, tt),
)

abbrev row : Bytes
row = 0 ∷ 9 ∷ 65 ∷ 66 ∷ []

key_ops-LawfulKey_example : LawfulKey (key_ops server kd)
key_ops-LawfulKey_example = key_ops-LawfulKey server kd kd-SegsOk kd-BitsLast

key_cmp-make_key_example : key_cmp server kd.segs row (make_key server kd.segs row) ≡ 0
key_cmp-make_key_example = key_cmp-make_key server kd.segs row kd-AllFixed

abbrev keydef : ℕ → KeyCore
keydef k = record { ops = key_ops server kd; unique = true; nbuckets = 4 }

abbrev t0 : Share
t0 = init_share 4 1 3 4 keydef

abbrev t1 : Share
t1 = share_of t0 (insert_row mem t0 row)

lawful : (k : ℕ) → LawfulKey (t0.keydef k).ops
unfolding init_share
lawful k = key_ops-LawfulKey_example

insert_t1 : insert_row mem t0 row ≡ done (t1, inserted 0)
unfolding if_null_in_key insert_row alloc_slot init_share alloc_fresh slot_count grow_chunk
    link_keys push_down free_slot dup_check walk
insert_t1 = refl

t1-Added : Added t0 row 0 t1
t1-Added =
    Returns-at (insert_row mem t0 row) (t1, inserted 0)
      (insert_row-Inserted mem t0 row (init_share-Wf 4 1 3 4 keydef (omega arith)) lawful) insert_t1

ops_t1 : (t1.keydef 0).ops ≡ key_ops server kd
unfolding if_null_in_key insert_row alloc_slot init_share alloc_fresh slot_count grow_chunk
    link_keys push_down free_slot dup_check walk publish insert_at chain_link alloc_grown
ops_t1 = refl

keys_t1 : 0 < t1.keys
unfolding if_null_in_key insert_row alloc_slot init_share alloc_fresh slot_count grow_chunk
    link_keys push_down free_slot dup_check walk publish insert_at chain_link alloc_grown
keys_t1 = omega arith

holds_first : row_at t1 0 ≡ some row
unfolding if_null_in_key insert_row alloc_slot init_share alloc_fresh slot_count grow_chunk
    link_keys push_down free_slot dup_check walk publish insert_at chain_link alloc_grown row_at
holds_first = refl

find-make_key_example :
    Returns
      (find t1 0 (make_key server kd.segs row))
      (Hit t1 (key_cmp server kd.segs) (make_key server kd.segs row))
find-make_key_example =
    find-make_key server t1 0 0 kd row t1-Added.wf keys_t1 ops_t1 kd-SegsOk kd-BitsLast kd-AllFixed
      holds_first

zero_or_one : (n : ℕ) → n ≤ 1 → (n ≡ 0) ⊎ (n ≡ 1)
zero_or_one zero le = inl refl
zero_or_one (suc zero) le = inr refl
zero_or_one (suc (suc n)) le = absurd (omega arith)

kd-OneBits : OneBits kd.segs
kd-OneBits = (
  (λ x. inl (omega (arith, bit_and-le x 0))),
  ((λ x. zero_or_one (bit_and x 1) (bit_and-le x 1)), tt),
)

abbrev other_row : Bytes
other_row = 1 ∷ 9 ∷ 1 ∷ 2 ∷ []

abbrev unique_table : Table
unique_table = record { core = t1; keydef = λ k. kd; create_time = 0 }

abbrev reader : Handler
reader = record {
  file = record {
    current_slot = none;
    current_gen = 0;
    current_hash_slot = none;
    lastinx = none;
    errkey = 0;
    update = no_flags;
    read_check = false;
    scan_pos = 0;
    lastkey = [];
    lastkey_len = 0;
  };
  write_stmt = false;
  row_locked = false;
  locked_slot = none;
}

kd-PlainKey : PlainKey server unique_table 0
kd-PlainKey = record {
  below = keys_t1;
  ops = ops_t1;
  segs_ok = kd-SegsOk;
  bits_last = kd-BitsLast;
  fixed = kd-AllFixed;
  one_bits = kd-OneBits;
}

find_unique_row-Decides_example :
    Returns
      (find_unique_row server (λ t. t) unique_table reader row 0)
      (Decides server unique_table 0 row)
find_unique_row-Decides_example =
    find_unique_row-Decides server (λ t. t) unique_table 0 row kd-PlainKey reader t1-Added.wf refl
      refl
