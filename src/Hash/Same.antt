-- ===== src/Hash/Same.antt =====
-- A packed key stands for the record that it is packed from.
use fastmem_mariadb.Prelude.{
  ℕ, zero, suc, ◌≡◌, refl, true, false, List, [], ◌∷◌, ◌++◌, ◌==◌, if◌then◌else◌, drop, bit_and,
  ◌⊎◌, arith,
}
use fastmem_mariadb.Core.{Bytes, byte_at, rest_of, read_bytes}
use fastmem_mariadb.KeyDef.{HashState, SegType, text, vartext1, KeySeg}
use fastmem_mariadb.Data.{same_bytes}
use fastmem_mariadb.Hash.{
  Server, nullable, null_mask, is_null, is_vartext1, text_part, key_part_differs, rec_part_differs,
  key_cmp, rec_key_cmp, key_part_hash, rec_part_hash, hashnr, rec_hashnr, null_hash,
}
use fastmem_mariadb.Hash.MakeKey.{make_key}
use fastmem_mariadb.Hash.Packed.{IsFixed, AllFixed, read-read, drop-read, copied_length-fixed}

-- The mask of a nullable column has one bit.
abbrev pub OneBit : KeySeg → Type 0
OneBit seg = (x : ℕ) → (bit_and x seg.null_bit ≡ 0) ⊎ (bit_and x seg.null_bit ≡ seg.null_bit)

abbrev pub OneBits : List KeySeg → Type 0
OneBits [] = Unit
OneBits (seg ∷ segs) = OneBit seg × OneBits segs

same_bytes-packed :
    (n : ℕ) (a b rest : Bytes) → same_bytes n a (read_bytes n b ++ rest) ≡ same_bytes n a b
unfolding same_bytes read_bytes
same_bytes-packed zero a b rest = refl
same_bytes-packed (suc n) a b rest =
    ground (arith, same_bytes-packed n (rest_of a) (rest_of b) rest)

differs-packed :
    (sv : Server) (seg : KeySeg) (a b rest : Bytes) (ty : SegType)
    → IsFixed seg
    → is_vartext1 ty ≡ false
    → key_part_differs sv ty seg a (read_bytes seg.length (drop seg.start b) ++ rest)
      ≡ rec_part_differs sv ty seg a b
unfolding key_part_differs rec_part_differs text_part
differs-packed sv seg a b rest text f v =
    ground (arith, f.narrow, read-read seg.length (drop seg.start b) rest)
differs-packed sv seg a b rest vartext1 f v = cc
differs-packed sv seg a b rest _ f v =
    ground
      (arith, f.no_bits, same_bytes-packed seg.length (drop seg.start a) (drop seg.start b) rest)

hash-packed :
    (sv : Server) (seg : KeySeg) (b rest : Bytes) (h : HashState) (ty : SegType)
    → IsFixed seg
    → is_vartext1 ty ≡ false
    → key_part_hash sv ty seg (read_bytes seg.length (drop seg.start b) ++ rest) h
      ≡ rec_part_hash sv ty seg b h
unfolding key_part_hash rec_part_hash text_part
hash-packed sv seg b rest h text f v =
    ground (arith, f.narrow, read-read seg.length (drop seg.start b) rest)
hash-packed sv seg b rest h vartext1 f v = cc
hash-packed sv seg b rest h _ f v =
    ground (arith, f.no_bits, read-read seg.length (drop seg.start b) rest)

null-same :
    (seg : KeySeg) (a b : Bytes)
    → OneBit seg
    → nullable seg ≡ true
    → (null_mask seg a == null_mask seg b)
      ≡ ((if is_null seg a then 1 else 0) == (if is_null seg b then 1 else 0))
unfolding null_mask is_null
null-same seg a b one n =
    ground (arith, one (byte_at (drop seg.null_pos a)), one (byte_at (drop seg.null_pos b)))

-- To compare a row with the key that is packed from another row is to compare the two rows. The segments
-- have a fixed length, one byte for a character and no bits apart, and the null mask of a column has one
-- bit.
pub key_cmp-make_key-same :
    (sv : Server) (segs : List KeySeg) (a b : Bytes)
    → AllFixed segs
    → OneBits segs
    → key_cmp sv segs a (make_key sv segs b) ≡ rec_key_cmp sv segs a b
unfolding key_cmp make_key rec_key_cmp
key_cmp-make_key-same sv [] a b fixed one = refl
key_cmp-make_key-same sv (seg ∷ segs) a b (f, fs) (o, os) =
    let pos = drop seg.start b in
    let rest = make_key sv segs b in
    ground (
      arith,
      f.no_var,
      f.no_bits,
      copied_length-fixed seg pos f,
      drop-read seg.length pos rest,
      differs-packed sv seg a b rest seg.type f f.no_var,
      null-same seg a b o,
      key_cmp-make_key-same sv segs a b fs os,
    )

-- The hash of the key that is packed from a row is the hash of the row, where the segments have a fixed
-- length, one byte for a character and no bits apart.
pub hashnr-make_key :
    (sv : Server) (segs : List KeySeg) (b : Bytes) (h : HashState)
    → AllFixed segs
    → hashnr sv segs (make_key sv segs b) h ≡ rec_hashnr sv segs b h
unfolding hashnr make_key rec_hashnr
hashnr-make_key sv [] b h fixed = refl
hashnr-make_key sv (seg ∷ segs) b h (f, fs) =
    let pos = drop seg.start b in
    let rest = make_key sv segs b in
    let h' = if is_null seg b then null_hash h else rec_part_hash sv seg.type seg b h in
    ground (
      arith,
      f.no_var,
      f.no_bits,
      copied_length-fixed seg pos f,
      drop-read seg.length pos rest,
      hash-packed sv seg b rest h seg.type f f.no_var,
      hashnr-make_key sv segs b h' fs,
    )
