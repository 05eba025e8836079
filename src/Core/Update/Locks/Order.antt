-- ===== src/Core/Update/Locks/Order.antt =====
-- The order in which a key change takes its bucket locks.
use mathlib.Core.Path.{subst}
use mathlib.Core.List.{reverse, reverse-cons}
use fastmem_mariadb.Prelude.{
  ℕ, ◌+◌, ◌≤◌, ◌<◌, ◌≡◌, sym, false, List, [], ◌∷◌, ◌++◌, arith, inl, inr, Bool-cases,
}
use fastmem_mariadb.Core.{Share, Bytes, key_bucket, u32_mod}
use fastmem_mariadb.Core.Bits.{bucket-lt}
use fastmem_mariadb.Core.Update.{changed_keys}
use fastmem_mariadb.Core.Update.Locks.{
  BucketLock, same_lock, lock_rank, add_pair, collect, shift_in, sort_loop, sorted_lockset,
  lock_from, lock_order,
}

-- Every bucket number fits into 32 bits.
abbrev Narrow : List BucketLock → Type 0
Narrow [] = Unit
Narrow (x ∷ xs) = (x.b < u32_mod) × Narrow xs

-- From at most `hi` down, and from at least `lo` up to at most `hi`.
abbrev Down : ℕ → List BucketLock → Type 0
Down hi [] = Unit
Down hi (x ∷ xs) = (x.b < u32_mod) × (lock_rank x ≤ hi) × Down (lock_rank x) xs

abbrev Up : ℕ → ℕ → List BucketLock → Type 0
Up lo hi [] = lo ≤ hi
Up lo hi (x ∷ xs) = (x.b < u32_mod) × (lo ≤ lock_rank x) × Up (lock_rank x) hi xs

-- Each lock ranks above the one before it.
abbrev pub Above : ℕ → List BucketLock → Type 0
Above lo [] = Unit
Above lo (x ∷ xs) = (lo < lock_rank x) × Above (lock_rank x) xs

abbrev pub Ascending : List BucketLock → Type 0
Ascending [] = Unit
Ascending (x ∷ xs) = Above (lock_rank x) xs

Down-weaken : (hi hi' : ℕ) (xs : List BucketLock) → hi ≤ hi' → Down hi xs → Down hi' xs
Down-weaken hi hi' [] le d = d
Down-weaken hi hi' (x ∷ xs) le (n, a, d) = (n, omega arith, d)

shift_in-Down :
    (hi : ℕ) (v : BucketLock) (xs : List BucketLock)
    → v.b < u32_mod
    → lock_rank v ≤ hi
    → Down hi xs
    → Down hi (shift_in v xs)
unfolding shift_in
shift_in-Down hi v [] n le d = (n, le, tt)
shift_in-Down hi v (p ∷ ps) n le (m, a, d) = ground (arith, shift_in-Down (lock_rank p) v ps)

Up-snoc :
    (lo hi : ℕ) (x : BucketLock) (xs : List BucketLock)
    → x.b < u32_mod
    → lock_rank x ≤ hi
    → Up lo (lock_rank x) xs
    → Up lo hi (xs ++ x ∷ [])
Up-snoc lo hi x [] n le u = (n, u, le)
Up-snoc lo hi x (y ∷ ys) n le (m, a, u) = (m, a, Up-snoc (lock_rank y) hi x ys n le u)

reverse-Up : (hi : ℕ) (xs : List BucketLock) → Down hi xs → Up 0 hi (reverse xs)
reverse-Up hi [] d = omega arith
reverse-Up hi (x ∷ xs) (n, le, d) =
    subst (Up 0 hi) (sym (reverse-cons x xs))
      (Up-snoc 0 hi x (reverse xs) n le (reverse-Up (lock_rank x) xs d))

sort_loop-Up :
    (hi : ℕ) (sorted vs : List BucketLock)
    → Down hi sorted
    → Narrow vs
    → (top : ℕ) × Up 0 top (sort_loop sorted vs)
unfolding sort_loop
sort_loop-Up hi sorted [] d n = (hi, reverse-Up hi sorted d)
sort_loop-Up hi sorted (v ∷ vs) d (m, n) =
    let top = hi + lock_rank v in
    sort_loop-Up top (shift_in v sorted) vs
      (shift_in-Down top v sorted m (omega arith) (Down-weaken hi top sorted (omega arith) d)) n

Narrow-snoc :
    (x : BucketLock) (xs : List BucketLock) → x.b < u32_mod → Narrow xs → Narrow (xs ++ x ∷ [])
Narrow-snoc x [] n ns = (n, tt)
Narrow-snoc x (y ∷ ys) n (m, ns) = (m, Narrow-snoc x ys n ns)

add_pair-Narrow :
    (x y : BucketLock) (xs : List BucketLock)
    → x.b < u32_mod
    → y.b < u32_mod
    → Narrow xs
    → Narrow (add_pair x y xs)
unfolding add_pair
add_pair-Narrow x y xs n m ns =
    let with_x = Narrow-snoc x xs n ns in
    let with_y = Narrow-snoc y xs m ns in
    let with_both = Narrow-snoc y (xs ++ x ∷ []) m with_x in ground arith

collect-Narrow :
    (ks : List ℕ) (s : Share) (old_rec new_rec : Bytes) (xs : List BucketLock)
    → ((k : ℕ) (rec : Bytes) → key_bucket (s.keydef k) rec < u32_mod)
    → Narrow xs
    → Narrow (collect ks s old_rec new_rec xs)
unfolding collect
collect-Narrow [] s old_rec new_rec xs narrow n = n
collect-Narrow (k ∷ ks) s old_rec new_rec xs narrow n =
    let new_lock : BucketLock = record { key = k; b = key_bucket (s.keydef k) new_rec } in
    let old_lock : BucketLock = record { key = k; b = key_bucket (s.keydef k) old_rec } in
    collect-Narrow ks s old_rec new_rec (add_pair new_lock old_lock xs) narrow
      (add_pair-Narrow new_lock old_lock xs (narrow k new_rec) (narrow k old_rec) n)

Above-weaken : (lo lo' : ℕ) (xs : List BucketLock) → lo' ≤ lo → Above lo xs → Above lo' xs
Above-weaken lo lo' [] le a = tt
Above-weaken lo lo' (x ∷ xs) le (l, a) = (omega arith, a)

-- An entry that is not the one before it ranks above that.
lock_rank-lt :
    (x y : BucketLock)
    → x.b < u32_mod
    → y.b < u32_mod
    → lock_rank y ≤ lock_rank x
    → same_lock x y ≡ false
    → lock_rank y < lock_rank x
unfolding lock_rank same_lock
lock_rank-lt x y n m le d = ground arith

lock_from-Above :
    (hi : ℕ) (prev : BucketLock) (xs : List BucketLock)
    → prev.b < u32_mod
    → Up (lock_rank prev) hi xs
    → Above (lock_rank prev) (lock_from prev xs)
unfolding lock_from
lock_from-Above hi prev [] n u = tt
lock_from-Above hi prev (x ∷ xs) n (m, le, u) =
    let rest = lock_from-Above hi x xs m u in
    elim (Bool-cases (same_lock x prev)) [
      | inl same ↦ rw same (Above-weaken (lock_rank x) (lock_rank prev) (lock_from x xs) le rest)
      | inr other ↦ rw other (lock_rank-lt x prev m n le other, rest)
    ]

lock_order-Ascending_of : (hi : ℕ) (xs : List BucketLock) → Up 0 hi xs → Ascending (lock_order xs)
unfolding lock_order
lock_order-Ascending_of hi [] u = tt
lock_order-Ascending_of hi (x ∷ xs) (n, le, u) = lock_from-Above hi x xs n u

key_bucket-narrow :
    (s : Share)
    → ((k : ℕ) → 0 < (s.keydef k).nbuckets)
    → ((k : ℕ) → (s.keydef k).nbuckets ≤ u32_mod)
    → (k : ℕ) (rec : Bytes) → key_bucket (s.keydef k) rec < u32_mod
unfolding key_bucket
key_bucket-narrow s pos le k rec =
    omega (arith, bucket-lt (s.keydef k) ((s.keydef k).ops.hash_rec rec) (pos k), le k)

-- The locks of a key change are taken in strictly ascending order of key and bucket, so no lock is
-- taken twice and two key changes agree on the order. Every key has at least one and at most 2 ^ 32
-- buckets.
pub lock_order-Ascending :
    (s : Share) (old_rec new_rec : Bytes)
    → ((k : ℕ) → 0 < (s.keydef k).nbuckets)
    → ((k : ℕ) → (s.keydef k).nbuckets ≤ u32_mod)
    → Ascending (lock_order (sorted_lockset s old_rec new_rec))
unfolding sorted_lockset
lock_order-Ascending s old_rec new_rec pos le =
    let ks = changed_keys s old_rec new_rec in
    let all = collect ks s old_rec new_rec [] in
    let (top, u) =
      sort_loop-Up 0 [] all tt
        (collect-Narrow ks s old_rec new_rec [] (key_bucket-narrow s pos le) tt) in
    lock_order-Ascending_of top (sort_loop [] all) u
