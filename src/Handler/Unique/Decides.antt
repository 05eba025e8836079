-- ===== src/Handler/Unique/Decides.antt =====
-- `find_unique_row` in a read statement decides whether a row has the key.
use mathlib.Core.Path.{subst}
use fastmem_mariadb.Prelude.{
  ℕ, ◌<◌, ◌≡◌, ◌≢◌, refl, sym, ap, ◌∙◌, true, false, Option, none, some, Returns, ◌++◌, drop,
  length,
}
use fastmem_mariadb.Core.{Bytes, KeyOps}
use fastmem_mariadb.Core.Wf.{Wf, LawfulKey, row_at}
use fastmem_mariadb.Core.Wf.Walks.Find.{Found, find-Found}
use fastmem_mariadb.Data.{Table, Info}
use fastmem_mariadb.Hash.{Server, rec_key_cmp}
use fastmem_mariadb.Hash.Callbacks.{key_ops}
use fastmem_mariadb.Hash.MakeKey.{make_key}
use fastmem_mariadb.Hash.Lawful.{SegsOk, BitsLast, key_ops-LawfulKey}
use fastmem_mariadb.Hash.Packed.{AllFixed}
use fastmem_mariadb.Hash.Lookup.{row-image}
use fastmem_mariadb.Hash.Same.{OneBits, key_cmp-make_key-same}
use fastmem_mariadb.Handler.{Handler}
use fastmem_mariadb.Handler.Unique.{UniqueOutcome, unique_found, find_unique_row}

-- The row that is found compares equal to the record and the handle is at it, or no row compares equal.
abbrev pub Decides : Server → Table → ℕ → Bytes → UniqueOutcome → Type 0
Decides sv t k rec (t', h', true, some buf) =
    (t' ≡ t)
    × (i : ℕ) × (h'.file.current_slot ≡ some i)
    × (row_at t.core i ≡ some buf)
    × (rec_key_cmp sv (t.keydef k).segs buf rec ≡ 0)
Decides sv t k rec (t', h', true, none) = ⊥
Decides sv t k rec (t', h', false, buf) =
    (t' ≡ t)
    × ((i : ℕ) (row : Bytes)
        → row_at t.core i ≡ some row
        → rec_key_cmp sv (t.keydef k).segs row rec ≢ 0)

-- A key of the table with the callbacks that `fm_key_ops_init` sets, and columns of fixed length.
pub record PlainKey (sv : Server) (t : Table) (k : ℕ) : Type 0 where
  pub below : k < t.core.keys
  pub ops : (t.core.keydef k).ops ≡ key_ops sv (t.keydef k)
  pub segs_ok : SegsOk (t.keydef k).segs
  pub bits_last : BitsLast (t.keydef k).segs
  pub fixed : AllFixed (t.keydef k).segs
  pub one_bits : OneBits (t.keydef k).segs

module _ (sv : Server) (others : Table → Table) (t : Table) (k : ℕ) (rec : Bytes)
    (p : PlainKey sv t k) where
  -- To compare with the packed key is to compare with the record.
  same_cmp :
      (b : Bytes)
      → (t.core.keydef k).ops.cmp_rec_key b (make_key sv (t.keydef k).segs rec)
        ≡ rec_key_cmp sv (t.keydef k).segs b rec
  same_cmp b =
      ap (λ (o : KeyOps). o.cmp_rec_key b (make_key sv (t.keydef k).segs rec)) p.ops
      ∙ key_cmp-make_key-same sv (t.keydef k).segs b rec p.fixed p.one_bits

  unique_found-Decides :
      (h : Handler) (r : Option (ℕ × Bytes))
      → h.write_stmt ≡ false
      → Found t.core k (make_key sv (t.keydef k).segs rec) r
      → Returns (unique_found others t h k r) (Decides sv t k rec)
  unfolding unique_found
  unique_found-Decides h none read all = (
    _,
    refl,
    (
      refl,
      λ i row here e.
          let (on, image) = row-image t.core i row here in
          all i on (
            ap (λ b. (t.core.keydef k).ops.cmp_rec_key b (make_key sv (t.keydef k).segs rec)) image
            ∙ same_cmp row
            ∙ e),
    ),
  )
  unique_found-Decides h (some (i, buf)) read (here, equal) =
      rw read (_, refl, (refl, i, refl, here, sym (same_cmp buf) ∙ equal))

  -- In a read statement the search for a row with the same unique key ends and decides: it gives a row that
  -- compares equal to the record, and the handle is at it, or no row compares equal; the table is as before.
  -- The table is well formed, the key is unique, has the callbacks that `fm_key_ops_init` sets, and has
  -- columns of fixed length with one byte for a character, no bits apart and masks of one bit.
  pub find_unique_row-Decides :
      (h : Handler)
      → Wf t.core
      → (t.keydef k).nosame ≡ true
      → h.write_stmt ≡ false
      → Returns (find_unique_row sv others t h rec k) (Decides sv t k rec)
  unfolding find_unique_row
  find_unique_row-Decides h w unique read =
      let key = make_key sv (t.keydef k).segs rec in
      let law =
        subst LawfulKey (sym p.ops) (key_ops-LawfulKey sv (t.keydef k) p.segs_ok p.bits_last) in
      let (r, run, found) = find-Found t.core k key w p.below law in
      let packed : Info = record h.file { lastkey = key ++ drop (length key) h.file.lastkey } in
      let h' : Handler = record h { file = packed } in
      rw unique (rw run (unique_found-Decides h' r read found))
