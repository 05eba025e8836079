-- ===== src/Core/Update/Locks/Unlocks.antt =====
-- The bucket locks of a key change are released in the reverse of the order in which they were taken.
use mathlib.Core.List.{reverse, reverse-cons, append_assoc}
use fastmem_mariadb.Prelude.{
  ◌≡◌, refl, sym, ap, ◌∙◌, true, List, [], ◌∷◌, ◌++◌, arith, inl, inr, Bool-cases, if◌then◌else◌,
}
use fastmem_mariadb.Core.Update.Locks.{
  BucketLock, same_lock, lock_from, lock_order, release_from_end, unlock_order,
}

pub same_lock-eq : (x y : BucketLock) → same_lock x y ≡ true → x ≡ y
unfolding same_lock
same_lock-eq x y e = ground arith

release-snoc :
    (zs : List BucketLock) (y x : BucketLock)
    → release_from_end (zs ++ y ∷ x ∷ []) ≡ (
        if same_lock y x
        then release_from_end (zs ++ x ∷ [])
        else release_from_end (zs ++ y ∷ []) ++ x ∷ [])
unfolding release_from_end
release-snoc [] y x = ground arith
release-snoc (z ∷ []) y x = elim (Bool-cases (same_lock y x)) [
  | inl same ↦ let p : y ≡ x = same_lock-eq y x same in ground arith
  | inr other ↦ ground arith
]
release-snoc (z ∷ z' ∷ zs) y x = ground (arith, release-snoc (z' ∷ zs) y x)

release-lock_from :
    (x : BucketLock) (xs : List BucketLock)
    → release_from_end (reverse (x ∷ xs)) ≡ reverse (lock_from x xs) ++ x ∷ []
unfolding release_from_end lock_from
release-lock_from x [] = refl
release-lock_from x (y ∷ ys) =
    let ih : release_from_end (reverse ys ++ y ∷ []) ≡ reverse (lock_from y ys) ++ y ∷ [] =
      ap release_from_end (sym (reverse-cons y ys)) ∙ release-lock_from y ys in
    let split : reverse (x ∷ y ∷ ys) ≡ reverse ys ++ y ∷ x ∷ [] =
      simp (reverse-cons, append_assoc) in
    elim (Bool-cases (same_lock y x)) [
      | inl same ↦
          let p : y ≡ x = same_lock-eq y x same in
          ap release_from_end split ∙ release-snoc (reverse ys) y x ∙ rw (same, lock_from, sym p) ih
      | inr other ↦
          ap release_from_end split
          ∙ release-snoc (reverse ys) y x
          ∙ rw (other, lock_from, ih, reverse-cons y (lock_from y ys)) refl
    ]

-- The locks are released in the reverse of the order in which they were taken, each once.
pub unlock_order-reverse : (xs : List BucketLock) → unlock_order xs ≡ reverse (lock_order xs)
unfolding unlock_order lock_order release_from_end
unlock_order-reverse [] = refl
unlock_order-reverse (x ∷ xs) = release-lock_from x xs ∙ sym (reverse-cons x (lock_from x xs))
