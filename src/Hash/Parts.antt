-- ===== src/Hash/Parts.antt =====
-- One part of a key: equal parts hash equally, and equality of parts is an equivalence.
use fastmem_mariadb.Prelude.{
  ℕ, zero, suc, ◌-◌, ◌<◌, ◌≡◌, ◌⊎◌, refl, ap, true, false, not, ◌==◌, if◌then◌else◌, drop, arith,
}
use fastmem_mariadb.Core.{Bytes, byte_at, rest_of, read_bytes}
use fastmem_mariadb.KeyDef.{HashState, Charset, SegType, text, vartext1, KeySeg}
use fastmem_mariadb.Data.{same_bytes}
use fastmem_mariadb.Hash.{
  Server, add_bytes, has_bits, plain_length, text_part, var_part, var_of_rec, var_of_cmp,
  var_of_key, rec_part_hash, key_part_hash, rec_part_differs, key_part_differs, var_length,
}

-- What the character set functions have to guarantee: `collate` is an equivalence, and equal texts
-- hash equally.
pub record Collates (cs : Charset) : Type 0 where
  pub same : (a : Bytes) → cs.collate a a ≡ 0
  pub symm : (a b : Bytes) → (cs.collate a b == 0) ≡ (cs.collate b a == 0)
  pub trans : (a b c : Bytes) → cs.collate a b ≡ 0 → cs.collate b c ≡ 0 → cs.collate a c ≡ 0
  pub hashed :
      (h : HashState) (a b : Bytes) → cs.collate a b ≡ 0 → cs.hash_sort h a ≡ cs.hash_sort h b

-- A segment as `fm_prepare_create_info` makes them: a VARCHAR has one or two length bytes, and a BIT
-- part at least one byte.
pub record SegOk (seg : KeySeg) : Type 0 where
  pub collates : Collates seg.charset
  pub length_bytes : seg.type ≡ vartext1 → (seg.bit_start ≡ 1) ⊎ (seg.bit_start ≡ 2)
  pub bit_byte : has_bits seg ≡ true → 0 < seg.length

same_bytes-read : (n : ℕ) (a b : Bytes) → same_bytes n a b ≡ true → read_bytes n a ≡ read_bytes n b
unfolding same_bytes read_bytes
same_bytes-read zero a b e = refl
same_bytes-read (suc n) a b e = ground (arith, same_bytes-read n (rest_of a) (rest_of b))

pub same_bytes_refl : (n : ℕ) (a : Bytes) → same_bytes n a a ≡ true
unfolding same_bytes
same_bytes_refl zero a = refl
same_bytes_refl (suc n) a = ground (arith, same_bytes_refl n (rest_of a))

same_bytes_comm : (n : ℕ) (a b : Bytes) → same_bytes n a b ≡ same_bytes n b a
unfolding same_bytes
same_bytes_comm zero a b = refl
same_bytes_comm (suc n) a b = ground (arith, same_bytes_comm n (rest_of a) (rest_of b))

same_bytes_trans :
    (n : ℕ) (a b c : Bytes)
    → same_bytes n a b ≡ true
    → same_bytes n b c ≡ true
    → same_bytes n a c ≡ true
unfolding same_bytes
same_bytes_trans zero a b c e f = refl
same_bytes_trans (suc n) a b c e f =
    ground (arith, same_bytes_trans n (rest_of a) (rest_of b) (rest_of c))

var_of_cmp-rec :
    (sv : Server) (seg : KeySeg) (pos : Bytes)
    → SegOk seg
    → seg.type ≡ vartext1
    → var_of_cmp sv seg pos ≡ var_of_rec sv seg pos
unfolding var_of_cmp var_of_rec
var_of_cmp-rec sv seg pos ok e =
    let width : (if seg.bit_start == 1 then 1 else 2) ≡ seg.bit_start =
      ground (arith, ok.length_bytes e) in
    ap (λ w. var_part seg seg.length (var_length sv seg pos) (drop w pos)) width

add_first :
    (sv : Server) (h : HashState) (n : ℕ) (pos : Bytes)
    → 0 < n
    → add_bytes sv h (read_bytes n pos)
      ≡ add_bytes sv (sv.hash_add h (byte_at pos)) (read_bytes (n - 1) (rest_of pos))
unfolding add_bytes read_bytes
add_first sv h zero pos pos_n = absurd (omega arith)
add_first sv h (suc n) pos pos_n = ground arith

module _ (sv : Server) (seg : KeySeg) (ok : SegOk seg) where
  pub rec_part-hash :
      (ty : SegType) (a b : Bytes) (h : HashState)
      → seg.type ≡ ty
      → rec_part_differs sv ty seg a b ≡ false
      → rec_part_hash sv ty seg a h ≡ rec_part_hash sv ty seg b h
  unfolding rec_part_differs rec_part_hash
  rec_part-hash text a b h e d =
      ok.collates.hashed h (text_part seg (drop seg.start a)) (text_part seg (drop seg.start b))
        (ground arith)
  rec_part-hash vartext1 a b h e d =
      ok.collates.hashed h (var_of_rec sv seg (drop seg.start a))
        (var_of_rec sv seg (drop seg.start b))
        (ground (
          arith,
          var_of_cmp-rec sv seg (drop seg.start a) ok e,
          var_of_cmp-rec sv seg (drop seg.start b) ok e,
        ))
  rec_part-hash _ a b h e d =
      ground (arith, same_bytes-read (plain_length seg) (drop seg.start a) (drop seg.start b))

  pub rec_part_comm :
      (ty : SegType) (a b : Bytes) → rec_part_differs sv ty seg a b ≡ rec_part_differs sv ty seg b a
  unfolding rec_part_differs
  rec_part_comm text a b =
      ap not
        (ok.collates.symm (text_part seg (drop seg.start a)) (text_part seg (drop seg.start b)))
  rec_part_comm vartext1 a b = ap not (
      ok.collates.symm (var_of_cmp sv seg (drop seg.start a))
        (var_of_cmp sv seg (drop seg.start b)))
  rec_part_comm _ a b =
      ground (arith, same_bytes_comm (plain_length seg) (drop seg.start a) (drop seg.start b))

  pub rec_part_trans :
      (ty : SegType) (a b c : Bytes)
      → rec_part_differs sv ty seg a b ≡ false
      → rec_part_differs sv ty seg b c ≡ false
      → rec_part_differs sv ty seg a c ≡ false
  unfolding rec_part_differs
  rec_part_trans text a b c e f = ground (
    arith,
    ok.collates.trans (text_part seg (drop seg.start a)) (text_part seg (drop seg.start b))
        (text_part seg (drop seg.start c)),
  )
  rec_part_trans vartext1 a b c e f = ground (
    arith,
    ok.collates.trans (var_of_cmp sv seg (drop seg.start a)) (var_of_cmp sv seg (drop seg.start b))
        (var_of_cmp sv seg (drop seg.start c)),
  )
  rec_part_trans _ a b c e f = ground (
    arith,
    same_bytes_trans (plain_length seg) (drop seg.start a) (drop seg.start b) (drop seg.start c),
  )

  pub key_part-hash :
      (ty : SegType) (rec pos : Bytes) (h : HashState)
      → seg.type ≡ ty
      → key_part_differs sv ty seg rec pos ≡ false
      → rec_part_hash sv ty seg rec h ≡ key_part_hash sv ty seg pos h
  unfolding key_part_differs rec_part_hash key_part_hash
  key_part-hash text rec pos h e d =
      ok.collates.hashed h (text_part seg (drop seg.start rec)) (text_part seg pos) (ground arith)
  key_part-hash vartext1 rec pos h e d =
      ok.collates.hashed h (var_of_rec sv seg (drop seg.start rec)) (var_of_key sv seg pos)
        (ground arith)
  key_part-hash _ rec pos h e d = ground (
    arith,
    ok.bit_byte,
    same_bytes-read seg.length (drop seg.start rec) pos,
    same_bytes-read (plain_length seg) (drop seg.start rec) (rest_of pos),
    add_first sv h seg.length pos,
  )
