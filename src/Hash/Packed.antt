-- ===== src/Hash/Packed.antt =====
-- A record and the key that `fm_make_key` packs from it.
use fastmem_mariadb.Prelude.{
  ℕ, zero, suc, ◌≡◌, refl, ap, true, false, List, [], ◌∷◌, ◌++◌, ltb, drop, arith,
}
use fastmem_mariadb.Core.{Bytes, byte_at, rest_of, read_bytes}
use fastmem_mariadb.KeyDef.{SegType, text, vartext1, KeySeg}
use fastmem_mariadb.Data.{same_bytes}
use fastmem_mariadb.Hash.{Server, has_bits, text_part, key_part_differs, key_cmp, is_vartext1}
use fastmem_mariadb.Hash.MakeKey.{copied_length, make_key}
use fastmem_mariadb.Hash.Parts.{SegOk}

-- A part of fixed length: no VARCHAR, no bits apart, one byte for a character.
pub record IsFixed (seg : KeySeg) : Type 0 where
  pub ok : SegOk seg
  pub no_var : is_vartext1 seg.type ≡ false
  pub no_bits : has_bits seg ≡ false
  pub narrow : ltb 1 seg.charset.mbmaxlen ≡ false

abbrev pub AllFixed : List KeySeg → Type 0
AllFixed [] = Unit
AllFixed (seg ∷ segs) = IsFixed seg × AllFixed segs

pub drop-read : (n : ℕ) (a rest : Bytes) → drop n (read_bytes n a ++ rest) ≡ rest
unfolding read_bytes
drop-read zero a rest = refl
drop-read (suc n) a rest = drop-read n (rest_of a) rest

pub read-read : (n : ℕ) (a rest : Bytes) → read_bytes n (read_bytes n a ++ rest) ≡ read_bytes n a
unfolding read_bytes
read-read zero a rest = refl
read-read (suc n) a rest = ap (λ (b : Bytes). byte_at a ∷ b) (read-read n (rest_of a) rest)

same_bytes-read : (n : ℕ) (a rest : Bytes) → same_bytes n a (read_bytes n a ++ rest) ≡ true
unfolding same_bytes read_bytes
same_bytes-read zero a rest = refl
same_bytes-read (suc n) a rest = ground (arith, same_bytes-read n (rest_of a) rest)

pub copied_length-fixed :
    (seg : KeySeg) (pos : Bytes) → IsFixed seg → copied_length seg pos ≡ seg.length
unfolding copied_length
copied_length-fixed seg pos f = ground (arith, f.no_var, f.no_bits, f.narrow)

-- A part of fixed length is equal to its copy in a key.
part-packed :
    (sv : Server) (seg : KeySeg) (rec rest : Bytes) (ty : SegType)
    → IsFixed seg
    → is_vartext1 ty ≡ false
    → key_part_differs sv ty seg rec (read_bytes seg.length (drop seg.start rec) ++ rest) ≡ false
unfolding key_part_differs text_part
part-packed sv seg rec rest text f v =
    let pos = drop seg.start rec in
    ground (
      arith,
      f.narrow,
      read-read seg.length pos rest,
      f.ok.collates.same (read_bytes seg.length pos),
    )
part-packed sv seg rec rest vartext1 f v = cc
part-packed sv seg rec rest _ f v =
    ground (arith, f.no_bits, same_bytes-read seg.length (drop seg.start rec) rest)

-- A row compares equal to the key that `fm_make_key` packs from it, where the segments have a fixed length
-- and one byte for a character, and no bits apart.
pub key_cmp-make_key :
    (sv : Server) (segs : List KeySeg) (rec : Bytes)
    → AllFixed segs
    → key_cmp sv segs rec (make_key sv segs rec) ≡ 0
unfolding key_cmp make_key
key_cmp-make_key sv [] rec ok = refl
key_cmp-make_key sv (seg ∷ segs) rec (f, fs) =
    let pos = drop seg.start rec in
    let rest = make_key sv segs rec in
    let body = read_bytes seg.length pos ++ rest in
    ground (
      arith,
      f.no_var,
      f.no_bits,
      copied_length-fixed seg pos f,
      drop-read seg.length pos rest,
      part-packed sv seg rec rest seg.type f f.no_var,
      key_cmp-make_key sv segs rec fs,
    )
