-- ===== src/Core/Locking/Obeys.antt =====
-- The order of the locks: a row lock, `struct_mutex`, and the buckets by key and number. Every part but
-- a clear takes its locks in that order.
use mathlib.Core.List.{reverse, reverse-cons}
use fastmem_mariadb.Prelude.{
  ℕ, zero, suc, ◌+◌, ◌≤◌, ◌<◌, ◌≡◌, refl, sym, Bool, true, false, List, [], ◌∷◌, ◌++◌,
  if◌then◌else◌, arith,
}
use mathlib.Core.Path.{subst}
use fastmem_mariadb.Core.{Share, Bytes, u32_mod}
use fastmem_mariadb.Core.Lookup.{packed_bucket}
use fastmem_mariadb.Core.Update.Locks.{BucketLock, lock_rank, lock_order, sorted_lockset}
use fastmem_mariadb.Core.Update.Locks.Order.{Above, Ascending, lock_order-Ascending}
use fastmem_mariadb.Core.Update.Locks.Unlocks.{unlock_order-reverse}
use fastmem_mariadb.Core.Locking.{
  Lock, row_lock, struct_mutex, bucket_lock, is_lock, Action, acquire, release, pairs, each_key,
  keys_back, no_room, dup_at, linked, insert_actions, takes, gives, update_actions, delete_actions,
  Call, lookup, insert, update_held, delete_held, call_actions, calls_actions, Part, alone,
  under_row, clear_all, part_actions, actions, drop_lock,
}

abbrev pub rank : Lock → ℕ
rank (row_lock i) = 0
rank struct_mutex = 1
rank (bucket_lock x) = 2 + lock_rank x

-- All the locks rank below `r`.
abbrev pub Under : ℕ → List Lock → Type 0
Under r [] = Unit
Under r (l ∷ ls) = (rank l < r) × Under r ls

abbrev pub is_held : Lock → List Lock → Bool
is_held l [] = false
is_held l (x ∷ xs) = if is_lock x l then true else is_held l xs

-- A thread that holds `held` takes each lock above those that it holds, releases what it holds, and holds
-- nothing in the end.
abbrev pub Obeys : List Lock → List Action → Type 0
Obeys held [] = held ≡ []
Obeys held (acquire l ∷ rest) = Under (rank l) held × Obeys (l ∷ held) rest
Obeys held (release l ∷ rest) = (is_held l held ≡ true) × Obeys (drop_lock l held) rest

Under-le : (a b : ℕ) (ls : List Lock) → a ≤ b → Under a ls → Under b ls
Under-le a b [] le u = tt
Under-le a b (l ∷ ls) le (lo, u) = (omega arith, Under-le a b ls le u)

pub is_lock_refl : (l : Lock) → is_lock l l ≡ true
is_lock_refl (row_lock i) = ground arith
is_lock_refl struct_mutex = refl
is_lock_refl (bucket_lock x) = ground arith

pub is_lock-eq : (x y : Lock) → is_lock x y ≡ true → x ≡ y
is_lock-eq x y e = ground arith

lower_lock : (x l : Lock) → rank x < rank l → is_lock x l ≡ false
unfolding lock_rank
lower_lock (row_lock i) (row_lock j) lt = absurd (omega arith)
lower_lock struct_mutex struct_mutex lt = absurd (omega arith)
lower_lock (bucket_lock x) (bucket_lock y) lt = ground arith
lower_lock (row_lock i) struct_mutex lt = refl
lower_lock (row_lock i) (bucket_lock y) lt = refl
lower_lock struct_mutex (row_lock i) lt = refl
lower_lock struct_mutex (bucket_lock y) lt = refl
lower_lock (bucket_lock x) (row_lock j) lt = refl
lower_lock (bucket_lock x) struct_mutex lt = refl

drop_lock-Under : (l : Lock) (held : List Lock) → Under (rank l) held → drop_lock l held ≡ held
drop_lock-Under l [] u = refl
drop_lock-Under l (x ∷ xs) (lo, u) = rw (lower_lock x l lo, drop_lock-Under l xs u) refl

drop_lock-top : (l : Lock) (held : List Lock) → Under (rank l) held → drop_lock l (l ∷ held) ≡ held
drop_lock-top l held u = rw (is_lock_refl l) (drop_lock-Under l held u)

release-Obeys :
    (l : Lock) (held : List Lock) (rest : List Action)
    → Under (rank l) held
    → Obeys held rest
    → Obeys (l ∷ held) (release l ∷ rest)
release-Obeys l held rest u o =
    (rw (is_lock_refl l) refl, subst (λ ls. Obeys ls rest) (sym (drop_lock-top l held u)) o)

-- Every lock of the list ranks above those that are held.
abbrev AllOver : List Lock → List Lock → Type 0
AllOver held [] = Unit
AllOver held (l ∷ ls) = Under (rank l) held × AllOver held ls

pairs-Obeys :
    (held ls : List Lock) (rest : List Action)
    → AllOver held ls
    → Obeys held rest
    → Obeys held (pairs ls rest)
pairs-Obeys held [] rest a o = o
pairs-Obeys held (l ∷ ls) rest (u, a) o =
    (u, release-Obeys l held (pairs ls rest) u (pairs-Obeys held ls rest a o))

each_key-AllOver :
    (n k : ℕ) (s : Share) (rec : Bytes) (held : List Lock)
    → Under 2 held
    → AllOver held (each_key n k s rec)
unfolding each_key
each_key-AllOver zero k s rec held u = tt
each_key-AllOver (suc n) k s rec held u =
    (Under-le 2 _ held (omega arith) u, each_key-AllOver n (suc k) s rec held u)

keys_back-AllOver :
    (k : ℕ) (s : Share) (rec : Bytes) (held : List Lock)
    → Under 2 held
    → AllOver held (keys_back k s rec)
unfolding keys_back
keys_back-AllOver zero s rec held u = tt
keys_back-AllOver (suc k) s rec held u =
    (Under-le 2 _ held (omega arith) u, keys_back-AllOver k s rec held u)

-- The locks of a list on top of those that are held.
abbrev stack : List BucketLock → List Lock → List Lock
stack [] held = held
stack (x ∷ xs) held = stack xs (bucket_lock x ∷ held)

gives-append :
    (xs ys : List BucketLock) (rest : List Action)
    → gives (xs ++ ys) rest ≡ gives xs (gives ys rest)
gives-append [] ys rest = refl
gives-append (x ∷ xs) ys rest = rw (gives-append xs ys rest) refl

gives-Obeys :
    (lo : ℕ) (xs : List BucketLock) (held : List Lock) (rest : List Action)
    → Above lo xs
    → Under (3 + lo) held
    → Obeys held rest
    → Obeys (stack xs held) (gives (reverse xs) rest)
gives-Obeys lo [] held rest a u o = o
gives-Obeys lo (x ∷ xs) held rest (lt, a) u o =
    let here = Under-le (3 + lo) (rank (bucket_lock x)) held (omega arith) u in
    let next : Under (3 + lock_rank x) (bucket_lock x ∷ held) =
      (omega arith, Under-le (3 + lo) (3 + lock_rank x) held (omega arith) u) in
    rw (reverse-cons x xs, gives-append (reverse xs) (x ∷ []) rest)
      (gives-Obeys (lock_rank x) xs (bucket_lock x ∷ held) (release (bucket_lock x) ∷ rest) a next
        (release-Obeys (bucket_lock x) held rest here o))

takes-Obeys :
    (lo : ℕ) (xs : List BucketLock) (held : List Lock) (rest : List Action)
    → Above lo xs
    → Under (3 + lo) held
    → Obeys (stack xs held) rest
    → Obeys held (takes xs rest)
takes-Obeys lo [] held rest a u o = o
takes-Obeys lo (x ∷ xs) held rest (lt, a) u o = (
  Under-le (3 + lo) (rank (bucket_lock x)) held (omega arith) u,
  takes-Obeys (lock_rank x) xs (bucket_lock x ∷ held) rest a
      (omega arith, Under-le (3 + lo) (3 + lock_rank x) held (omega arith) u) o,
)

-- A sequence of bucket locks that ascends is taken and released in order, over no other bucket lock.
Ascending-Obeys :
    (xs : List BucketLock) (held : List Lock) (rest : List Action)
    → Ascending xs
    → Under 2 held
    → Obeys held rest
    → Obeys held (takes xs (gives (reverse xs) rest))
Ascending-Obeys [] held rest a u o = o
Ascending-Obeys (x ∷ xs) held rest a u o =
    let here = Under-le 2 (rank (bucket_lock x)) held (omega arith) u in
    let next : Under (3 + lock_rank x) (bucket_lock x ∷ held) =
      (omega arith, Under-le 2 (3 + lock_rank x) held (omega arith) u) in
    (
      here,
      takes-Obeys (lock_rank x) xs (bucket_lock x ∷ held) (gives (reverse (x ∷ xs)) rest) a next (
          rw (reverse-cons x xs, gives-append (reverse xs) (x ∷ []) rest)
            (gives-Obeys (lock_rank x) xs (bucket_lock x ∷ held) (release (bucket_lock x) ∷ rest) a
              next (release-Obeys (bucket_lock x) held rest here o))),
    )

-- The parts have no clear.
abbrev pub no_clear : List Part → Bool
no_clear [] = true
no_clear (clear_all total ∷ ps) = false
no_clear (p ∷ ps) = no_clear ps

module _ (s : Share) (pos : (k : ℕ) → 0 < (s.keydef k).nbuckets)
    (narrow : (k : ℕ) → (s.keydef k).nbuckets ≤ u32_mod) where
  struct_mutex-Under : (held : List Lock) → Under 1 held → Under 2 (struct_mutex ∷ held)
  struct_mutex-Under held u = (omega arith, Under-le 1 2 held (omega arith) u)

  call_actions-Obeys :
      (c : Call) (held : List Lock) (rest : List Action)
      → Under 1 held
      → Obeys held rest
      → Obeys held (call_actions s c rest)
  unfolding call_actions insert_actions update_actions delete_actions
  call_actions-Obeys (lookup key packed) held rest u o =
      let bucket = bucket_lock (record { key = key; b = packed_bucket (s.keydef key) packed }) in
      pairs-Obeys held (bucket ∷ []) rest (Under-le 1 (rank bucket) held (omega arith) u, tt) o
  call_actions-Obeys (insert rec no_room) held rest u o =
      pairs-Obeys held (struct_mutex ∷ []) rest (u, tt) o
  call_actions-Obeys (insert rec (dup_at k)) held rest u o =
      let under = struct_mutex-Under held u in
      (
        u,
        pairs-Obeys (struct_mutex ∷ held) (each_key (k + 1) 0 s rec) _
            (each_key-AllOver (k + 1) 0 s rec (struct_mutex ∷ held) under)
            (pairs-Obeys (struct_mutex ∷ held) (keys_back k s rec) _
              (keys_back-AllOver k s rec (struct_mutex ∷ held) under)
              (release-Obeys struct_mutex held rest u o)),
      )
  call_actions-Obeys (insert rec linked) held rest u o = (
    u,
    pairs-Obeys (struct_mutex ∷ held) (each_key s.keys 0 s rec) _
        (each_key-AllOver s.keys 0 s rec (struct_mutex ∷ held) (struct_mutex-Under held u))
        (release-Obeys struct_mutex held rest u o),
  )
  call_actions-Obeys (update_held old_rec new_rec) held rest u o =
      let lockset = sorted_lockset s old_rec new_rec in
      rw (unlock_order-reverse lockset) (
        Ascending-Obeys (lock_order lockset) held rest
          (lock_order-Ascending s old_rec new_rec pos narrow) (Under-le 1 2 held (omega arith) u) o)
  call_actions-Obeys (delete_held rec) held rest u o =
      pairs-Obeys held (each_key s.keys 0 s rec) _
        (each_key-AllOver s.keys 0 s rec held (Under-le 1 2 held (omega arith) u))
        (pairs-Obeys held (struct_mutex ∷ []) rest (u, tt) o)

  calls_actions-Obeys :
      (cs : List Call) (held : List Lock) (rest : List Action)
      → Under 1 held
      → Obeys held rest
      → Obeys held (calls_actions s cs rest)
  unfolding calls_actions
  calls_actions-Obeys [] held rest u o = o
  calls_actions-Obeys (c ∷ cs) held rest u o =
      call_actions-Obeys c held (calls_actions s cs rest) u (calls_actions-Obeys cs held rest u o)

  pub actions-Obeys : (ps : List Part) → no_clear ps ≡ true → Obeys [] (actions s ps)
  unfolding actions part_actions
  actions-Obeys [] e = refl
  actions-Obeys (alone cs ∷ ps) e = calls_actions-Obeys cs [] (actions s ps) tt (actions-Obeys ps e)
  actions-Obeys (under_row i cs ∷ ps) e = (
    tt,
    calls_actions-Obeys cs (row_lock i ∷ []) (release (row_lock i) ∷ actions s ps) (omega arith, tt)
        (release-Obeys (row_lock i) [] (actions s ps) tt (actions-Obeys ps e)),
  )
  actions-Obeys (clear_all total ∷ ps) e = absurd (ground arith)
