-- ===== src/Prepare/Fits.antt =====
-- The keys that `fm_prepare_create_info` makes: their callbacks are lawful, and a packed key fits into
-- the buffer of a handle.
use mathlib.Core.Path.{subst}
use fastmem_mariadb.Prelude.{
  ℕ, zero, suc, ◌+◌, ◌%◌, ◌≤◌, ◌<◌, ◌≡◌, refl, sym, Bool, true, false, List, [], ◌∷◌, ◌++◌,
  if◌then◌else◌, length, drop, ◌⊎◌, inl, inr, arith,
}
use fastmem_mariadb.Core.{Bytes, u32_mod, read_bytes, rest_of}
use fastmem_mariadb.Core.Wf.{LawfulKey}
use fastmem_mariadb.KeyDef.{
  Charset, SegType, text, vartext1, vartext2, varbinary1, varbinary2, bit, binary, KeySeg,
}
use fastmem_mariadb.Hash.{Server, nullable, is_null, has_bits, packed_length, bits_of}
use fastmem_mariadb.Hash.Callbacks.{key_ops}
use fastmem_mariadb.Hash.MakeKey.{copied_length, make_key}
use fastmem_mariadb.Hash.Parts.{Collates, SegOk}
use fastmem_mariadb.Hash.Lawful.{SegsOk, BitsLast, key_ops-LawfulKey}
use fastmem_mariadb.Registry.{CreateInfo}
use fastmem_mariadb.Prepare.{
  KeyTypes, KeyPart, Key, SqlTable, prepared, final_type, final_start, final_seg, part_length,
  key_length, make_seg, make_segs, final_segs, make_keydef, keydef_at, prepare_create_info,
}
use fastmem_mariadb.Prepare.Bounds.{prepared-ci, prepare_create_info-Bounded}

-- A column of a key part: its character set is in order, and it is not empty.
abbrev pub PartsOk : List KeyPart → Type 0
PartsOk [] = Unit
PartsOk (p ∷ ps) = Collates p.field.charset × (0 < p.length) × PartsOk ps

abbrev pub KeysOk : List Key → Type 0
KeysOk [] = Unit
KeysOk (key ∷ keys) = PartsOk key.parts × KeysOk keys

final_start-width :
    (ty : SegType) (b : ℕ)
    → final_type ty ≡ vartext1
    → (final_start ty b ≡ 1) ⊎ (final_start ty b ≡ 2)
final_start-width text b e = ground (arith, e)
final_start-width vartext1 b e = inl refl
final_start-width vartext2 b e = inr refl
final_start-width varbinary1 b e = inl refl
final_start-width varbinary2 b e = inr refl
final_start-width bit b e = ground (arith, e)
final_start-width binary b e = ground (arith, e)

final_seg-SegOk :
    (ha : KeyTypes) (cb : Charset) (p : KeyPart)
    → Collates cb
    → Collates p.field.charset
    → 0 < p.length
    → SegOk (final_seg (make_seg ha cb p))
unfolding final_seg make_seg
final_seg-SegOk ha cb p ok_bin ok positive = record {
  collates = elim p.field.enum_or_set as (λ b. Collates (if b then cb else p.field.charset)) [
    | true ↦ ok_bin
    | false ↦ ok
  ];
  length_bytes = final_start-width (make_seg ha cb p).type (make_seg ha cb p).bit_start;
  bit_byte = λ e. positive;
}

final_segs-SegsOk :
    (ha : KeyTypes) (cb : Charset) (ps : List KeyPart)
    → Collates cb
    → PartsOk ps
    → SegsOk (final_segs (make_segs ha cb ps))
unfolding final_segs make_segs
final_segs-SegsOk ha cb [] ok_bin ok = tt
final_segs-SegsOk ha cb (p ∷ ps) ok_bin (ok, positive, oks) =
    (final_seg-SegOk ha cb p ok_bin ok positive, final_segs-SegsOk ha cb ps ok_bin oks)

pub keydef_at-SegsOk :
    (ha : KeyTypes) (cb : Charset) (keys : List Key) (k : ℕ)
    → Collates cb
    → KeysOk keys
    → SegsOk (keydef_at ha cb keys k).segs
unfolding keydef_at make_keydef
keydef_at-SegsOk ha cb [] k ok_bin ok = tt
keydef_at-SegsOk ha cb (key ∷ keys) zero ok_bin (ok, oks) =
    final_segs-SegsOk ha cb key.parts ok_bin ok
keydef_at-SegsOk ha cb (key ∷ keys) (suc k) ok_bin (ok, oks) =
    keydef_at-SegsOk ha cb keys k ok_bin oks

-- The bytes of a packed key.
unfoldable pub total_length : List KeySeg → ℕ
total_length [] = 0
total_length (s ∷ ss) = packed_length s + (if nullable s then 1 else 0) + total_length ss

part_length-final :
    (ty : SegType) (s : KeySeg)
    → s.type ≡ ty
    → part_length s ≡ packed_length (final_seg s) + (if nullable s then 1 else 0)
unfolding final_seg
part_length-final text s e = ground (arith, e)
part_length-final vartext1 s e = ground (arith, e)
part_length-final vartext2 s e = ground (arith, e)
part_length-final varbinary1 s e = ground (arith, e)
part_length-final varbinary2 s e = ground (arith, e)
part_length-final bit s e = ground (arith, e)
part_length-final binary s e = ground (arith, e)

key_length-total :
    (n : ℕ) (ss : List KeySeg)
    → n + total_length (final_segs ss) < u32_mod
    → key_length n ss ≡ n + total_length (final_segs ss)
unfolding key_length total_length final_segs final_seg
key_length-total n [] room = omega arith
key_length-total n (s ∷ ss) room =
    let part = part_length-final s.type s refl in
    let sum : (n + part_length s) % u32_mod ≡ n + part_length s = omega (arith, room, part) in
    rw sum
      (omega (arith, part, key_length-total (n + part_length s) ss (omega (arith, room, part))))

length-append : (a b : Bytes) → length (a ++ b) ≡ length a + length b
length-append [] b = omega arith
length-append (x ∷ a) b = omega (arith, length-append a b)

length-pieces :
    (a b c d : Bytes) → length (a ++ b ++ c ++ d) ≡ length a + length b + length c + length d
length-pieces a b c d =
    omega (arith, length-append (a ++ b ++ c) d, length-append (a ++ b) c, length-append a b)

length-read_bytes : (n : ℕ) (b : Bytes) → length (read_bytes n b) ≡ n
unfolding read_bytes
length-read_bytes zero b = refl
length-read_bytes (suc n) b = omega (arith, length-read_bytes n (rest_of b))

copied_length-bound :
    (s : KeySeg) (pos : Bytes)
    → SegOk s
    → copied_length s pos + (if has_bits s then 1 else 0) ≤ packed_length s
unfolding copied_length
copied_length-bound s pos ok = ground (arith, ok.length_bytes, ok.bit_byte)

length-make_key :
    (sv : Server) (ss : List KeySeg) (rec : Bytes)
    → SegsOk ss
    → length (make_key sv ss rec) ≤ total_length ss
unfolding make_key total_length
length-make_key sv [] rec ok = omega arith
length-make_key sv (s ∷ ss) rec (o, ok) =
    let pos = drop s.start rec in
    let null_byte : Bytes = if nullable s then (if is_null s rec then 1 else 0) ∷ [] else [] in
    let bits_byte : Bytes = if has_bits s then bits_of sv s rec ∷ [] else [] in
    let body = read_bytes (copied_length s pos) pos in
    let nulls : length null_byte ≡ (if nullable s then 1 else 0) = ground arith in
    let bits : length bits_byte ≡ (if has_bits s then 1 else 0) = ground arith in
    omega (
      arith,
      length-pieces null_byte bits_byte body (make_key sv ss rec),
      length-read_bytes (copied_length s pos) pos,
      copied_length-bound s pos o,
      length-make_key sv ss rec ok,
      nulls,
      bits,
    )

keydef_at-length :
    (ha : KeyTypes) (cb : Charset) (keys : List Key) (k : ℕ)
    → total_length (keydef_at ha cb keys k).segs < u32_mod
    → (keydef_at ha cb keys k).length ≡ total_length (keydef_at ha cb keys k).segs
unfolding keydef_at make_keydef total_length
keydef_at-length ha cb [] k room = refl
keydef_at-length ha cb (key ∷ keys) zero room =
    omega (arith, key_length-total 0 (make_segs ha cb key.parts) (omega (arith, room)))
keydef_at-length ha cb (key ∷ keys) (suc k) room = keydef_at-length ha cb keys k room

module _ (ha : KeyTypes) (cb : Charset) (t : SqlTable) (internal granted : Bool) (ci : CreateInfo)
    (made : prepare_create_info ha cb t internal granted ≡ prepared ci) (ok_bin : Collates cb)
    (ok : KeysOk t.key_info) where
  prepared-SegsOk : (k : ℕ) → SegsOk (ci.keydef k).segs
  prepared-SegsOk k =
      subst (λ d. SegsOk (d k).segs) (sym (prepared-ci ha cb t internal granted ci made).0)
        (keydef_at-SegsOk ha cb t.key_info k ok_bin ok)

  -- The callbacks of the key definitions that are prepared are lawful. The character sets are consistent, no
  -- key part is empty, and a BIT segment with bits apart is the last of its key.
  pub prepared-LawfulKey :
      (sv : Server) (k : ℕ) → BitsLast (ci.keydef k).segs → LawfulKey (key_ops sv (ci.keydef k))
  prepared-LawfulKey sv k last = key_ops-LawfulKey sv (ci.keydef k) (prepared-SegsOk k) last

  -- A key that `fm_make_key` packs from any record is at most `max_key_length` bytes long, so it fits into the
  -- buffer `lastkey` of a handle. The information is prepared from columns as above, and the lengths of a
  -- key's parts sum up to less than 2 ^ 32.
  pub make_key-fits :
      (sv : Server) (k : ℕ) (rec : Bytes)
      → k < ci.keys
      → total_length (ci.keydef k).segs < u32_mod
      → length (make_key sv (ci.keydef k).segs rec) ≤ ci.max_key_length
  make_key-fits sv k rec lt room =
      let bounds = prepare_create_info-Bounded ha cb t internal granted ci made in
      let exact : (ci.keydef k).length ≡ total_length (ci.keydef k).segs =
        subst (λ d. total_length (d k).segs < u32_mod → (d k).length ≡ total_length (d k).segs)
          (sym (prepared-ci ha cb t internal granted ci made).0)
          (keydef_at-length ha cb t.key_info k) room in
      omega
        (arith, bounds.3 k lt, exact, length-make_key sv (ci.keydef k).segs rec (prepared-SegsOk k))
