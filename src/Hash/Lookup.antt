-- ===== src/Hash/Lookup.antt =====
-- A lookup with the key that is packed from a row.
use mathlib.Core.Path.{subst}
use fastmem_mariadb.Prelude.{ℕ, ◌<◌, ◌≡◌, sym, ap, ◌∙◌, true, Option, none, some, Returns, arith}
use fastmem_mariadb.Core.{Share, Bytes, KeyOps}
use fastmem_mariadb.Core.Lookup.{find}
use fastmem_mariadb.Core.Wf.{Wf, LawfulKey, row_at, active_at}
use fastmem_mariadb.Core.Wf.Walks.Find.{Found, find-Found}
use fastmem_mariadb.KeyDef.{KeyDef}
use fastmem_mariadb.Hash.{Server, key_cmp}
use fastmem_mariadb.Hash.Callbacks.{key_ops}
use fastmem_mariadb.Hash.MakeKey.{make_key}
use fastmem_mariadb.Hash.Lawful.{SegsOk, BitsLast, key_ops-LawfulKey}
use fastmem_mariadb.Hash.Packed.{AllFixed, key_cmp-make_key}

pub row-image :
    (s : Share) (i : ℕ) (rec : Bytes)
    → row_at s i ≡ some rec
    → (active_at s i ≡ true) × ((s.slot i).image ≡ rec)
unfolding row_at
row-image s i rec e = (ground arith, ground arith)

-- The lookup has a row whose key is the packed one.
abbrev pub Hit : Share → (Bytes → Bytes → ℕ) → Bytes → Option (ℕ × Bytes) → Type 0
Hit s cmp key none = ⊥
Hit s cmp key (some (i, buf)) = (row_at s i ≡ some buf) × (cmp buf key ≡ 0)

-- In a well-formed table, the lookup with the key that is packed from one of its rows ends and finds a row
-- with that key. The key's segments are as the two theorems on the callbacks and on packing ask.
pub find-make_key :
    (sv : Server) (s : Share) (k i : ℕ) (kd : KeyDef) (rec : Bytes)
    → Wf s
    → k < s.keys
    → (s.keydef k).ops ≡ key_ops sv kd
    → SegsOk kd.segs
    → BitsLast kd.segs
    → AllFixed kd.segs
    → row_at s i ≡ some rec
    → Returns
        (find s k (make_key sv kd.segs rec))
        (Hit s (key_cmp sv kd.segs) (make_key sv kd.segs rec))
find-make_key sv s k i kd rec w lt ops ok last fixed here =
    let law = subst LawfulKey (sym ops) (key_ops-LawfulKey sv kd ok last) in
    let key = make_key sv kd.segs rec in
    let (r, run, found) = find-Found s k key w lt law in (r, run, hit r found)
  where
    hit :
        (r : Option (ℕ × Bytes))
        → Found s k (make_key sv kd.segs rec) r
        → Hit s (key_cmp sv kd.segs) (make_key sv kd.segs rec) r
    hit none all =
        let (on, image) = row-image s i rec here in
        all i on (
          ap (λ (o : KeyOps). o.cmp_rec_key (s.slot i).image (make_key sv kd.segs rec)) ops
          ∙ ap (λ b. key_cmp sv kd.segs b (make_key sv kd.segs rec)) image
          ∙ key_cmp-make_key sv kd.segs rec fixed)
    hit (some (j, buf)) (at_j, same) =
        (at_j, sym (ap (λ (o : KeyOps). o.cmp_rec_key buf (make_key sv kd.segs rec)) ops) ∙ same)
