-- ===== src/Hash/MakeKey.antt =====
-- `fm_make_key`: the packed key of a record.
use fastmem_mariadb.Prelude.{ℕ, ◌+◌, ◌-◌, ◌/◌, List, [], ◌∷◌, ◌++◌, ltb, if◌then◌else◌, drop}
use fastmem_mariadb.Core.{Bytes, read_bytes}
use fastmem_mariadb.KeyDef.{KeySeg}
use fastmem_mariadb.Hash.{Server, set_if_smaller, nullable, is_null, is_vartext1, has_bits, bits_of}

-- How many bytes of the record `fm_make_key` copies for a part.
unfoldable pub copied_length : KeySeg → Bytes → ℕ
copied_length seg pos =
    let cs = seg.charset in
    let chars = cs.charpos (read_bytes seg.length pos) (seg.length / cs.mbmaxlen) in
    let n = if ltb 1 cs.mbmaxlen then set_if_smaller chars seg.length else seg.length in
    if is_vartext1 seg.type then n + seg.bit_start else if has_bits seg then n - 1 else n

-- `fm_make_key`: the packed key of a record.
unfoldable pub make_key : Server → List KeySeg → Bytes → Bytes
unfolding is_null copied_length
make_key sv [] rec = []
make_key sv (seg ∷ segs) rec =
    let pos = drop seg.start rec in
    let null_byte : Bytes = if nullable seg then (if is_null seg rec then 1 else 0) ∷ [] else [] in
    let bits_byte : Bytes = if has_bits seg then bits_of sv seg rec ∷ [] else [] in
    null_byte ++ bits_byte ++ read_bytes (copied_length seg pos) pos ++ make_key sv segs rec
