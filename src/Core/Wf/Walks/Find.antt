-- ===== src/Core/Wf/Walks/Find.antt =====
-- Point lookups and duplicate checks over a well-formed share.
use fastmem_mariadb.Prelude.{
  ℕ, ◌<◌, ◌≡◌, ◌≢◌, ap, Bool, true, ◌&&◌, Option, none, some, done, Returns, ◌==◌, if◌then◌else◌,
  inl, inr, Bool-cases, arith,
}
use fastmem_mariadb.Core.{Share, Status, err_ok, err_dup_key, Bytes, bucket, key_bucket}
use fastmem_mariadb.Core.Lookup.{packed_bucket, visit_key, find, visit_rec, checks_dup, dup_check}
use fastmem_mariadb.Core.Wf.{KeyChains, LawfulKey, Wf, active_at, place_of, row_at}
use fastmem_mariadb.Core.Wf.Walks.{
  IsQuiet, Wf-IsQuiet, read_row_lem, walk-first_some, first_some, FromMember, first_some-FromMember,
}

-- The result of `fm_core_find`: a row with the key, or no row has the key.
abbrev pub Found : Share → ℕ → Bytes → Option (ℕ × Bytes) → Type 0
Found s key packed none =
    (i : ℕ) → active_at s i ≡ true → (s.keydef key).ops.cmp_rec_key (s.slot i).image packed ≢ 0
Found s key packed (some (i, buf)) =
    (row_at s i ≡ some buf) × ((s.keydef key).ops.cmp_rec_key buf packed ≡ 0)

-- The slot holds a row with the key.
abbrev pub has_key : Share → ℕ → Bytes → ℕ → Bool
has_key s key packed h =
    active_at s h && (s.keydef key).ops.cmp_rec_key (s.slot h).image packed == 0

abbrev pub key_result : Share → ℕ → Bytes → ℕ → Option (ℕ × Bytes)
key_result s key packed h = if has_key s key packed h then some (h, (s.slot h).image) else none

abbrev rec_result : Share → ℕ → Bytes → ℕ → Option ℕ
rec_result s k rec h =
    if active_at s h && (s.keydef k).ops.cmp_rec_rec (s.slot h).image rec == 0 then some h else none

-- What a duplicate check of `rec` on key `k` says: another row has the key, or none has.
abbrev pub Checked : Share → ℕ → Bytes → Status → Type 0
Checked s k rec err_ok =
    checks_dup (s.keydef k) rec ≡ true
    → (i : ℕ) → active_at s i ≡ true
    → (s.keydef k).ops.cmp_rec_rec (s.slot i).image rec ≢ 0
Checked s k rec err_dup_key =
    (checks_dup (s.keydef k) rec ≡ true)
    × ((i : ℕ) × (active_at s i ≡ true) × ((s.keydef k).ops.cmp_rec_rec (s.slot i).image rec ≡ 0))
Checked s k rec _ = ⊥

abbrev status_of : Option ℕ → Status
status_of none = err_ok
status_of (some h) = err_dup_key

module _ {s : Share} (q : IsQuiet s) (k : ℕ) where
  pub visit_key_lem :
      (packed : Bytes) (h : ℕ) → visit_key s k packed h ≡ done (key_result s k packed h)
  unfolding visit_key
  visit_key_lem packed h = rw (read_row_lem q h) (ground arith)

  visit_rec_lem : (rec : Bytes) (h : ℕ) → visit_rec s k rec h ≡ done (rec_result s k rec h)
  unfolding visit_rec
  visit_rec_lem rec h = rw (read_row_lem q h) (ground arith)

  module _ (c : KeyChains (s.key_next k) (s.head k) (place_of s k) (active_at s))
      (law : LawfulKey (s.keydef k).ops) where
    Found-member :
        (packed : Bytes) (r : Option (ℕ × Bytes))
        → FromMember (key_result s k packed) (c.chain (packed_bucket (s.keydef k) packed)) r
        → Found s k packed r
    unfolding packed_bucket key_bucket row_at
    Found-member packed none h = λ i a z.
        let same = law.hash-rec_key (s.slot i).image packed z in
        ground (
          arith,
          c.members (packed_bucket (s.keydef k) packed) i,
          h i,
          ap (bucket (s.keydef k)) same,
        )
    Found-member packed (some (i, buf)) (j, m, v) = ground arith

    pub find-Found_of_chains : (packed : Bytes) → Returns (find s k packed) (Found s k packed)
    unfolding find
    find-Found_of_chains packed =
        let b = packed_bucket (s.keydef k) packed in
        let g = key_result s k packed in
        (
          first_some g (c.chain b),
          walk-first_some q k c (visit_key s k packed) g b (visit_key_lem packed),
          Found-member packed (first_some g (c.chain b)) (first_some-FromMember g (c.chain b)),
        )

    Checked-member :
        (rec : Bytes) (r : Option ℕ)
        → checks_dup (s.keydef k) rec ≡ true
        → FromMember (rec_result s k rec) (c.chain (key_bucket (s.keydef k) rec)) r
        → Checked s k rec (status_of r)
    unfolding key_bucket
    Checked-member rec none on h = λ _ i a z.
        let same = law.hash-rec_rec (s.slot i).image rec z in
        ground
          (arith, c.members (key_bucket (s.keydef k) rec) i, h i, ap (bucket (s.keydef k)) same)
    Checked-member rec (some h) on (i, m, v) = (on, (i, ground arith, ground arith))

    -- The duplicate check ends, and it is right about the rows of the table.
    pub dup_check-Checked :
        (rec : Bytes) → Returns (dup_check s k (key_bucket (s.keydef k) rec) rec) (Checked s k rec)
    unfolding dup_check
    dup_check-Checked rec =
        let b = key_bucket (s.keydef k) rec in
        let g = rec_result s k rec in
        let r = first_some g (c.chain b) in
        let run = walk-first_some q k c (visit_rec s k rec) g b (visit_rec_lem rec) in
        elim (Bool-cases (checks_dup (s.keydef k) rec)) [
          | inl on ↦ (
            status_of r,
            rw (on, run) (ground arith),
            Checked-member rec r on (first_some-FromMember g (c.chain b)),
          )
          | inr off ↦ (err_ok, rw off, λ on. cc)
        ]

-- A lookup with a lawful key in a well-formed table ends: it finds a row with the key, or no row of the
-- table has the key.
pub find-Found :
    (s : Share) (k : ℕ) (packed : Bytes)
    → Wf s
    → k < s.keys
    → LawfulKey (s.keydef k).ops
    → Returns (find s k packed) (Found s k packed)
find-Found s k packed w lt law = find-Found_of_chains (Wf-IsQuiet w) k (w.chains k lt) law packed
