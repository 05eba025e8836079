-- ===== src/Hash/Lawful.antt =====
-- The callbacks of fm_hash.cc keep what the core asks of them.
use mathlib.Core.Path.{subst}
use fastmem_mariadb.Prelude.{
  ◌%◌, ◌≡◌, refl, sym, ap, true, List, [], ◌∷◌, drop, inl, inr, Bool-cases, arith,
}
use fastmem_mariadb.Core.{Bytes, u32_mod}
use fastmem_mariadb.KeyDef.{HashState, KeySeg, KeyDef}
use fastmem_mariadb.Hash.{
  Server, has_bits, is_null, null_hash, rec_part_hash, rec_hashnr, packed_length, behind_null,
  key_part_hash, hashnr, rec_key_cmp, cmp_length, key_cmp, if_null_in_key,
}
use fastmem_mariadb.Hash.Callbacks.{key_ops}
use fastmem_mariadb.Core.Wf.{LawfulKey}
use fastmem_mariadb.Hash.Parts.{SegOk, rec_part-hash, rec_part_comm, rec_part_trans, key_part-hash}

-- Every segment is well made.
abbrev pub SegsOk : List KeySeg → Type 0
SegsOk [] = Unit
SegsOk (seg ∷ segs) = SegOk seg × SegsOk segs

-- A BIT segment with bits apart is the last one.
abbrev pub BitsLast : List KeySeg → Type 0
BitsLast [] = Unit
BitsLast (seg ∷ segs) = (has_bits seg ≡ true → segs ≡ []) × BitsLast segs

rec_key_cmp-hash :
    (sv : Server) (segs : List KeySeg) (a b : Bytes) (h : HashState)
    → SegsOk segs
    → rec_key_cmp sv segs a b ≡ 0
    → rec_hashnr sv segs a h ≡ rec_hashnr sv segs b h
unfolding rec_key_cmp rec_hashnr is_null
rec_key_cmp-hash sv [] a b h ok e = refl
rec_key_cmp-hash sv (seg ∷ segs) a b h (o, ok) e =
    let here = rec_part-hash sv seg o seg.type a b h refl in
    ground (
      arith,
      here,
      rec_key_cmp-hash sv segs a b (null_hash h) ok,
      rec_key_cmp-hash sv segs a b (rec_part_hash sv seg.type seg a h) ok,
      rec_key_cmp-hash sv segs a b (rec_part_hash sv seg.type seg b h) ok,
    )

rec_key_cmp_comm :
    (sv : Server) (segs : List KeySeg) (a b : Bytes)
    → SegsOk segs
    → rec_key_cmp sv segs a b ≡ rec_key_cmp sv segs b a
unfolding rec_key_cmp is_null
rec_key_cmp_comm sv [] a b ok = refl
rec_key_cmp_comm sv (seg ∷ segs) a b (o, ok) =
    ground (arith, rec_part_comm sv seg o seg.type a b, rec_key_cmp_comm sv segs a b ok)

rec_key_cmp_trans :
    (sv : Server) (segs : List KeySeg) (a b c : Bytes)
    → SegsOk segs
    → rec_key_cmp sv segs a b ≡ 0
    → rec_key_cmp sv segs b c ≡ 0
    → rec_key_cmp sv segs a c ≡ 0
unfolding rec_key_cmp is_null
rec_key_cmp_trans sv [] a b c ok e f = refl
rec_key_cmp_trans sv (seg ∷ segs) a b c (o, ok) e f =
    ground (arith, rec_part_trans sv seg o seg.type a b c, rec_key_cmp_trans sv segs a b c ok)

rec_key_cmp-null :
    (sv : Server) (segs : List KeySeg) (a b : Bytes)
    → rec_key_cmp sv segs a b ≡ 0
    → if_null_in_key segs a ≡ if_null_in_key segs b
unfolding rec_key_cmp is_null if_null_in_key
rec_key_cmp-null sv [] a b e = refl
rec_key_cmp-null sv (seg ∷ segs) a b e = ground (arith, rec_key_cmp-null sv segs a b)

last_key_cmp-hash :
    (sv : Server) (seg : KeySeg) (rec key : Bytes) (h : HashState)
    → SegOk seg
    → key_cmp sv (seg ∷ []) rec key ≡ 0
    → rec_hashnr sv (seg ∷ []) rec h ≡ hashnr sv (seg ∷ []) key h
unfolding key_cmp rec_hashnr hashnr is_null
last_key_cmp-hash sv seg rec key h o e =
    ground (arith, key_part-hash sv seg o seg.type rec (behind_null seg key) h refl)

key_cmp-hash :
    (sv : Server) (segs : List KeySeg) (rec key : Bytes) (h : HashState)
    → SegsOk segs
    → BitsLast segs
    → key_cmp sv segs rec key ≡ 0
    → rec_hashnr sv segs rec h ≡ hashnr sv segs key h
unfolding key_cmp rec_hashnr hashnr is_null
key_cmp-hash sv [] rec key h ok last e = refl
key_cmp-hash sv (seg ∷ segs) rec key h (o, ok) (at_end, last) e =
    let pos = behind_null seg key in
    let rest = drop (packed_length seg) pos in
    elim (Bool-cases (has_bits seg)) [
      | inl b ↦
          subst
            (λ ss.
              key_cmp sv (seg ∷ ss) rec key ≡ 0
              → rec_hashnr sv (seg ∷ ss) rec h ≡ hashnr sv (seg ∷ ss) key h)
            (sym (at_end b)) (last_key_cmp-hash sv seg rec key h o) e
      | inr no_bits ↦
          let width : cmp_length seg ≡ packed_length seg = ground (arith, no_bits) in
          ground (
            arith,
            width,
            key_part-hash sv seg o seg.type rec pos h refl,
            key_cmp-hash sv segs rec rest (null_hash h) ok last,
            key_cmp-hash sv segs rec rest (key_part_hash sv seg.type seg pos h) ok last,
          )
    ]

-- The callbacks that `fm_key_ops_init` sets are lawful: rows and packed keys that compare equal have
-- equal hashes, the comparison of rows is symmetric and transitive, and equal rows agree on having a NULL
-- part. The character sets' comparison and hash are consistent, VARCHAR segments have one or two
-- length bytes, BIT segments are not empty, and a BIT segment with bits apart is the last of its key.
pub key_ops-LawfulKey :
    (sv : Server) (kd : KeyDef) → SegsOk kd.segs → BitsLast kd.segs → LawfulKey (key_ops sv kd)
key_ops-LawfulKey sv kd ok last = record {
  hash-rec_rec = λ a b e.
      ap (λ (x : HashState). x.0 % u32_mod) (rec_key_cmp-hash sv kd.segs a b sv.hasher ok e);
  hash-rec_key = λ a p e.
      ap (λ (x : HashState). x.0 % u32_mod) (key_cmp-hash sv kd.segs a p sv.hasher ok last e);
  cmp_symm = λ a b. rec_key_cmp_comm sv kd.segs a b ok;
  cmp_trans = λ a b c e f. rec_key_cmp_trans sv kd.segs a b c ok e f;
  null_congr = λ a b e. rec_key_cmp-null sv kd.segs a b e;
}
