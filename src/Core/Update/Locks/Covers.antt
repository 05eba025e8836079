-- ===== src/Core/Update/Locks/Covers.antt =====
-- Which bucket locks a key change takes.
use mathlib.Core.Path.{subst}
use mathlib.Core.List.{reverse, reverse-cons}
use fastmem_mariadb.Prelude.{
  ℕ, ◌≡◌, sym, ap, ◌∙◌, refl, true, ◌||◌, List, [], ◌∷◌, ◌++◌, ◌==◌, has, arith, inl, inr,
  Bool-cases, ==→eq,
}
use fastmem_mariadb.Core.{Share, Bytes, key_bucket}
use fastmem_mariadb.Core.Update.{changed_keys}
use fastmem_mariadb.Core.Update.Locks.{
  BucketLock, same_lock, is_listed, add_pair, collect, shift_in, sort_loop, sorted_lockset,
  lock_from, lock_order,
}

is_listed-snoc :
    (z x : BucketLock) (xs : List BucketLock)
    → is_listed z (xs ++ x ∷ []) ≡ (is_listed z xs || same_lock x z)
unfolding is_listed
is_listed-snoc z x [] = ground arith
is_listed-snoc z x (y ∷ ys) = ground (arith, is_listed-snoc z x ys)

same_lock_trans :
    (x y z : BucketLock) → same_lock x y ≡ true → same_lock y z ≡ true → same_lock x z ≡ true
unfolding same_lock
same_lock_trans x y z e f = ground arith

same_lock_sym : (x y : BucketLock) → same_lock x y ≡ true → same_lock y x ≡ true
unfolding same_lock
same_lock_sym x y e = ground arith

is_listed-same :
    (x z : BucketLock) (xs : List BucketLock)
    → same_lock x z ≡ true
    → is_listed x xs ≡ true
    → is_listed z xs ≡ true
unfolding is_listed
is_listed-same x z [] e m = absurd (ground arith)
is_listed-same x z (y ∷ ys) e m = ground (arith, is_listed-same x z ys e, same_lock_trans y x z)

is_listed-shift_in :
    (z v : BucketLock) (xs : List BucketLock)
    → is_listed z (shift_in v xs) ≡ (same_lock v z || is_listed z xs)
unfolding is_listed shift_in
is_listed-shift_in z v [] = ground arith
is_listed-shift_in z v (p ∷ ps) = ground (arith, is_listed-shift_in z v ps)

is_listed-reverse :
    (z : BucketLock) (xs : List BucketLock) → is_listed z (reverse xs) ≡ is_listed z xs
unfolding is_listed
is_listed-reverse z [] = refl
is_listed-reverse z (x ∷ xs) =
    ap (is_listed z) (reverse-cons x xs)
    ∙ ground (arith, is_listed-snoc z x (reverse xs), is_listed-reverse z xs)

is_listed-sort_loop :
    (z : BucketLock) (sorted vs : List BucketLock)
    → is_listed z (sort_loop sorted vs) ≡ (is_listed z sorted || is_listed z vs)
unfolding sort_loop is_listed
is_listed-sort_loop z sorted [] = is_listed-reverse z sorted ∙ ground arith
is_listed-sort_loop z sorted (v ∷ vs) =
    is_listed-sort_loop z (shift_in v sorted) vs ∙ ground (arith, is_listed-shift_in z v sorted)

is_listed-lock_from :
    (z prev : BucketLock) (xs : List BucketLock)
    → (same_lock prev z || is_listed z xs) ≡ true
    → (same_lock prev z || is_listed z (lock_from prev xs)) ≡ true
unfolding lock_from is_listed
is_listed-lock_from z prev [] m = m
is_listed-lock_from z prev (x ∷ xs) m =
    ground (arith, is_listed-lock_from z x xs, same_lock_sym x prev, same_lock_trans prev x z)

is_listed-lock_order :
    (z : BucketLock) (xs : List BucketLock)
    → is_listed z xs ≡ true
    → is_listed z (lock_order xs) ≡ true
unfolding lock_order is_listed
is_listed-lock_order z [] m = m
is_listed-lock_order z (x ∷ xs) m = is_listed-lock_from z x xs m

same_lock_refl : (x : BucketLock) → same_lock x x ≡ true
unfolding same_lock
same_lock_refl x = ground arith

is_listed-add_pair :
    (z x y : BucketLock) (xs : List BucketLock)
    → (same_lock x z || same_lock y z || is_listed z xs) ≡ true
    → is_listed z (add_pair x y xs) ≡ true
unfolding add_pair
is_listed-add_pair z x y xs m = ground (
  arith,
  is_listed-snoc z x xs,
  is_listed-snoc z y xs,
  is_listed-snoc z y (xs ++ x ∷ []),
  is_listed-same x z xs,
  is_listed-same y z xs,
)

abbrev lock_of : Share → ℕ → Bytes → BucketLock
lock_of s k rec = record { key = k; b = key_bucket (s.keydef k) rec }

is_listed-collect :
    (z : BucketLock) (ks : List ℕ) (s : Share) (old_rec new_rec : Bytes) (xs : List BucketLock)
    → is_listed z xs ≡ true
    → is_listed z (collect ks s old_rec new_rec xs) ≡ true
unfolding collect
is_listed-collect z [] s old_rec new_rec xs m = m
is_listed-collect z (k ∷ ks) s old_rec new_rec xs m =
    let new_lock = lock_of s k new_rec in
    let old_lock = lock_of s k old_rec in
    is_listed-collect z ks s old_rec new_rec (add_pair new_lock old_lock xs)
      (is_listed-add_pair z new_lock old_lock xs (ground (arith, m)))

collected :
    (ks : List ℕ) (s : Share) (old_rec new_rec : Bytes) (xs : List BucketLock) (k : ℕ)
    → has k ks ≡ true
    → (is_listed (lock_of s k new_rec) (collect ks s old_rec new_rec xs) ≡ true)
      × (is_listed (lock_of s k old_rec) (collect ks s old_rec new_rec xs) ≡ true)
unfolding collect
collected [] s old_rec new_rec xs k m = absurd (ground arith)
collected (j ∷ ks) s old_rec new_rec xs k m =
    let new_lock = lock_of s j new_rec in
    let old_lock = lock_of s j old_rec in
    let ys = add_pair new_lock old_lock xs in
    elim (Bool-cases (k == j)) [
      | inl e ↦
          let same : k ≡ j = ==→eq k j e in
          let first = is_listed-collect new_lock ks s old_rec new_rec ys (
            is_listed-add_pair new_lock new_lock old_lock xs
              (ground (arith, same_lock_refl new_lock))) in
          let second = is_listed-collect old_lock ks s old_rec new_rec ys (
            is_listed-add_pair old_lock new_lock old_lock xs
              (ground (arith, same_lock_refl old_lock))) in
          subst
            (λ i.
              (is_listed (lock_of s i new_rec) (collect ks s old_rec new_rec ys) ≡ true)
              × (is_listed (lock_of s i old_rec) (collect ks s old_rec new_rec ys) ≡ true))
            (sym same) (first, second)
      | inr ne ↦ collected ks s old_rec new_rec ys k (ground (arith, m))
    ]

is_listed-sorted :
    (z : BucketLock) (vs : List BucketLock)
    → is_listed z vs ≡ true
    → is_listed z (lock_order (sort_loop [] vs)) ≡ true
unfolding is_listed
is_listed-sorted z vs m =
    is_listed-lock_order z (sort_loop [] vs) (is_listed-sort_loop z [] vs ∙ ground (arith, m))

-- Among the locks that a key change takes are those of the old and of the new bucket of every changed
-- key.
pub lock_order-covers :
    (s : Share) (old_rec new_rec : Bytes) (k : ℕ)
    → has k (changed_keys s old_rec new_rec) ≡ true
    → (is_listed
          record { key = k; b = key_bucket (s.keydef k) new_rec }
          (lock_order (sorted_lockset s old_rec new_rec))
        ≡ true)
      × (is_listed
            record { key = k; b = key_bucket (s.keydef k) old_rec }
            (lock_order (sorted_lockset s old_rec new_rec))
          ≡ true)
unfolding sorted_lockset
lock_order-covers s old_rec new_rec k m =
    let ks = changed_keys s old_rec new_rec in
    let all = collect ks s old_rec new_rec [] in
    let (n, o) = collected ks s old_rec new_rec [] k m in
    (is_listed-sorted (lock_of s k new_rec) all n, is_listed-sorted (lock_of s k old_rec) all o)
