-- ===== src/Core/Wf/Unique/Kept.antt =====
-- Every operation keeps the unique keys of the table unique.
use fastmem_mariadb.Prelude.{
  ℕ, ◌<◌, ◌≡◌, ◌≢◌, true, false, some, ◌==◌, ◌∙◌, ap, inl, inr, Bool-cases, arith,
}
use fastmem_mariadb.Core.{Share, KeyCore, Bytes, err_ok}
use fastmem_mariadb.Core.Clear.Empties.{Cleared}
use fastmem_mariadb.Core.Delete.Removes.{Removed}
use fastmem_mariadb.Core.Insert.Adds.{Added}
use fastmem_mariadb.Core.Lookup.{checks_dup}
use fastmem_mariadb.Core.Update.Changes.{Changed}
use fastmem_mariadb.Core.Update.Relink.{differs}
use fastmem_mariadb.Core.Wf.{LawfulKey, SameKeys, row_at}
use fastmem_mariadb.Core.Wf.Unique.{IsUnique}
use fastmem_mariadb.Core.Wf.Walks.Find.{Checked}

module _ (s s' : Share) (same : SameKeys s s') (u : IsUnique s) where
  key_same : (k : ℕ) → s'.keydef k ≡ s.keydef k
  key_same k = ap (λ (f : ℕ → KeyCore). f k) same.1

  -- The old rows stay apart under the new name of the keys.
  old_apart :
      (k : ℕ)
      → k < s'.keys
      → (s'.keydef k).unique ≡ true
      → (i j : ℕ) (a b : Bytes) → (i == j) ≡ false
      → row_at s i ≡ some a
      → row_at s j ≡ some b
      → (s'.keydef k).ops.has_null_part a ≡ false
      → (s'.keydef k).ops.has_null_part b ≡ false
      → (s'.keydef k).ops.cmp_rec_rec a b ≢ 0
  old_apart k lt = rw (key_same k) (u.apart k (rw (← same.0) lt))

  -- Losing rows keeps the rest apart.
  pub fewer-IsUnique :
      ((i : ℕ) (a : Bytes) → row_at s' i ≡ some a → row_at s i ≡ some a) → IsUnique s'
  fewer-IsUnique keep = record {
    apart = λ k lt on i j a b ne ri rj na nb.
        old_apart k lt on i j a b ne (keep i a ri) (keep j b rj) na nb;
  }

pub Removed-IsUnique : (s s' : Share) (idx : ℕ) → IsUnique s → Removed s idx s' → IsUnique s'
Removed-IsUnique s s' idx u r = fewer-IsUnique s s' r.keys u (λ i a e. ground (arith, r.rows i))

pub Cleared-IsUnique : (s s' : Share) → IsUnique s → Cleared s s' → IsUnique s'
Cleared-IsUnique s s' u r = fewer-IsUnique s s' r.keys u (λ i a e. ground (arith, r.rows i))

-- A row that passed the check of key `k` is apart from every other row.
pub Checked-apart :
    (s : Share) (k : ℕ) (rec : Bytes) (i : ℕ) (a : Bytes)
    → Checked s k rec err_ok
    → (s.keydef k).unique ≡ true
    → (s.keydef k).ops.has_null_part rec ≡ false
    → row_at s i ≡ some a
    → (s.keydef k).ops.cmp_rec_rec a rec ≢ 0
unfolding row_at checks_dup
Checked-apart s k rec i a c on nn e z = c (ground arith) i (ground arith) (ground arith)

pub Added-IsUnique :
    (s s' : Share) (rec : Bytes) (idx : ℕ)
    → ((k : ℕ) → LawfulKey (s.keydef k).ops)
    → IsUnique s
    → Added s rec idx s'
    → IsUnique s'
Added-IsUnique s s' rec idx law u r = record {
  apart = λ k lt. rw (key_same s s' r.keys u k) (λ on i j a b ne ri rj na nb z.
      let lt' : k < s.keys = rw (← r.keys.0) lt in
      elim (Bool-cases (i == idx)) [
        | inl e ↦
            let p : a ≡ rec = ground (arith, r.rows i) in
            let q : row_at s j ≡ some b = ground (arith, r.rows j) in
            Checked-apart s k rec j b (r.fresh_keys k lt') on (rw (← p) na) q
              ((law k).cmp_symm b rec ∙ rw (← p) z)
        | inr e ↦
            let p : row_at s i ≡ some a = ground (arith, r.rows i) in
            elim (Bool-cases (j == idx)) [
              | inl e' ↦
                  let q : b ≡ rec = ground (arith, r.rows j) in
                  Checked-apart s k rec i a (r.fresh_keys k lt') on (rw (← q) nb) p (rw (← q) z)
              | inr e' ↦
                  let q : row_at s j ≡ some b = ground (arith, r.rows j) in
                  u.apart k lt' on i j a b ne p q na nb z
            ]
      ]);
}

-- The new image of a row is apart from every other row, whether or not its key changed.
pub Changed-apart :
    (s s' : Share) (idx k : ℕ) (old_rec new_rec : Bytes) (j : ℕ) (b : Bytes)
    → LawfulKey (s.keydef k).ops
    → IsUnique s
    → Changed s idx old_rec new_rec s'
    → row_at s idx ≡ some old_rec
    → k < s.keys
    → (s.keydef k).unique ≡ true
    → (idx == j) ≡ false
    → row_at s j ≡ some b
    → (s.keydef k).ops.has_null_part new_rec ≡ false
    → (s.keydef k).ops.has_null_part b ≡ false
    → (s.keydef k).ops.cmp_rec_rec new_rec b ≢ 0
Changed-apart s s' idx k old_rec new_rec j b law u r here lt on ne rj nn nb z =
    elim (Bool-cases (differs s old_rec new_rec k)) [
      | inl d ↦
          Checked-apart s k new_rec j b (r.fresh_keys k lt d) on nn rj (law.cmp_symm b new_rec ∙ z)
      | inr d ↦
          let same : (s.keydef k).ops.cmp_rec_rec old_rec new_rec ≡ 0 = ground arith in
          u.apart k lt on idx j old_rec b ne here rj (law.null_congr old_rec new_rec same ∙ nn) nb
            (law.cmp_trans old_rec new_rec b same z)
    ]

pub Changed-IsUnique :
    (s s' : Share) (idx : ℕ) (old_rec new_rec : Bytes)
    → ((k : ℕ) → LawfulKey (s.keydef k).ops)
    → IsUnique s
    → row_at s idx ≡ some old_rec
    → Changed s idx old_rec new_rec s'
    → IsUnique s'
Changed-IsUnique s s' idx old_rec new_rec law u here r = record {
  apart = λ k lt. rw (key_same s s' r.keys u k) (λ on i j a b ne ri rj na nb z.
      let lt' : k < s.keys = rw (← r.keys.0) lt in
      let new = Changed-apart s s' idx k old_rec new_rec in
      elim (Bool-cases (i == idx)) [
        | inl e ↦
            let p : a ≡ new_rec = ground (arith, r.rows i) in
            let q : row_at s j ≡ some b = ground (arith, r.rows j) in
            new j b (law k) u r here lt' on (ground arith) q (rw (← p) na) nb (rw (← p) z)
        | inr e ↦
            let p : row_at s i ≡ some a = ground (arith, r.rows i) in
            elim (Bool-cases (j == idx)) [
              | inl e' ↦
                  let q : b ≡ new_rec = ground (arith, r.rows j) in
                  new i a (law k) u r here lt' on (ground arith) p (rw (← q) nb) na
                    ((law k).cmp_symm new_rec a ∙ rw (← q) z)
              | inr e' ↦
                  let q : row_at s j ≡ some b = ground (arith, r.rows j) in
                  u.apart k lt' on i j a b ne p q na nb z
            ]
      ]);
}
