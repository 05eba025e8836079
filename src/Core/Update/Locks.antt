-- ===== src/Core/Update/Locks.antt =====
-- The bucket locks of a key change: the pairs (key, bucket) that `fm_core_update_row` collects in
-- `lockset`, sorts, locks in ascending order and unlocks in descending order.
pub mod Order
pub mod Covers
pub mod Unlocks
use mathlib.Core.List.{reverse}
use fastmem_mariadb.Prelude.{
  ℕ, ◌+◌, ◌*◌, ◌^◌, Bool, false, ◌&&◌, ◌||◌, List, [], ◌∷◌, ◌++◌, ◌==◌, leb, if◌then◌else◌,
}
use fastmem_mariadb.Core.{Share, Bytes, key_bucket}
use fastmem_mariadb.Core.Update.{changed_keys}

-- The struct `FMB`.
pub record BucketLock : Type 0 where
  pub key : ℕ
  pub b : ℕ

unfoldable pub same_lock : BucketLock → BucketLock → Bool
same_lock x y = x.key == y.key && x.b == y.b

-- `((fm_u64) key << 32) | b`, for a 32-bit `b`.
unfoldable pub lock_rank : BucketLock → ℕ
lock_rank x = x.key * 2 ^ 32 + x.b

unfoldable pub is_listed : BucketLock → List BucketLock → Bool
is_listed x [] = false
is_listed x (y ∷ ys) = same_lock y x || is_listed x ys

-- One changed key: its new and its old bucket, each unless it is listed. Both tests come before
-- both additions.
unfoldable pub add_pair : BucketLock → BucketLock → List BucketLock → List BucketLock
unfolding is_listed same_lock
add_pair new_lock old_lock lockset =
    let have_new = is_listed new_lock lockset in
    let have_old = is_listed old_lock lockset in
    let lockset' = if have_new then lockset else lockset ++ new_lock ∷ [] in
    if have_old then lockset' else lockset' ++ old_lock ∷ []

unfoldable pub collect : List ℕ → Share → Bytes → Bytes → List BucketLock → List BucketLock
collect [] s old_rec new_rec lockset = lockset
collect (k ∷ ks) s old_rec new_rec lockset =
    let kc = s.keydef k in
    let new_lock : BucketLock = record { key = k; b = key_bucket kc new_rec } in
    let old_lock : BucketLock = record { key = k; b = key_bucket kc old_rec } in
    collect ks s old_rec new_rec (add_pair new_lock old_lock lockset)

-- The inner loop of the insertion sort. The sorted part of the array is given from its end.
unfoldable pub shift_in : BucketLock → List BucketLock → List BucketLock
unfolding lock_rank
shift_in v [] = v ∷ []
shift_in v (p ∷ ps) = if leb (lock_rank p) (lock_rank v) then v ∷ p ∷ ps else p ∷ shift_in v ps

-- The outer loop, over the part of the array that is not sorted yet.
unfoldable pub sort_loop : List BucketLock → List BucketLock → List BucketLock
unfolding shift_in
sort_loop sorted [] = reverse sorted
sort_loop sorted (v ∷ vs) = sort_loop (shift_in v sorted) vs

-- `lockset` behind the sort.
unfoldable pub sorted_lockset : Share → Bytes → Bytes → List BucketLock
unfolding collect sort_loop
sorted_lockset s old_rec new_rec =
    sort_loop [] (collect (changed_keys s old_rec new_rec) s old_rec new_rec [])

-- The locks that are taken, in order: an entry that repeats the one before it is skipped.
unfoldable pub lock_from : BucketLock → List BucketLock → List BucketLock
unfolding same_lock
lock_from prev [] = []
lock_from prev (x ∷ xs) = let rest = lock_from x xs in if same_lock x prev then rest else x ∷ rest

unfoldable pub lock_order : List BucketLock → List BucketLock
unfolding lock_from
lock_order [] = []
lock_order (x ∷ xs) = x ∷ lock_from x xs

-- The locks that are released, in order: the array from its end, less every entry that repeats the
-- one before it in the array.
unfoldable pub release_from_end : List BucketLock → List BucketLock
unfolding same_lock
release_from_end [] = []
release_from_end (x ∷ []) = x ∷ []
release_from_end (x ∷ y ∷ ys) =
    let rest = release_from_end (y ∷ ys) in if same_lock x y then rest else x ∷ rest

unfoldable pub unlock_order : List BucketLock → List BucketLock
unfolding release_from_end
unlock_order lockset = release_from_end (reverse lockset)
