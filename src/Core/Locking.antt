-- ===== src/Core/Locking.antt =====
-- Which locks the operations of fm_core.h take and release, in order, as the handler calls them: the
-- row locks `wlock`, the bucket locks and `struct_mutex`. Each function puts the actions of one call in
-- front of those that its thread has left. What a call finds in the table, which other threads may
-- change, is an argument.
pub mod Obeys
pub mod Progress
pub mod Finish
pub mod Stuck
use fastmem_mariadb.Prelude.{
  ℕ, zero, suc, ◌+◌, ◌≡◌, Bool, true, false, ◌&&◌, Option, none, some, List, [], ◌∷◌, ◌==◌,
  if◌then◌else◌, update,
}
use fastmem_mariadb.Core.{Share, Bytes, key_bucket}
use fastmem_mariadb.Core.Lookup.{packed_bucket}
use fastmem_mariadb.Core.Update.Locks.{
  BucketLock, same_lock, lock_rank, lock_order, unlock_order, sorted_lockset,
}

pub data Lock : Type 0 where
  row_lock : ℕ → Lock
  struct_mutex : Lock
  bucket_lock : BucketLock → Lock

abbrev pub is_lock : Lock → Lock → Bool
is_lock (row_lock i) (row_lock j) = i == j
is_lock struct_mutex struct_mutex = true
is_lock (bucket_lock x) (bucket_lock y) = x.key == y.key && x.b == y.b
is_lock _ _ = false

pub data Action : Type 0 where
  acquire : Lock → Action
  release : Lock → Action

-- Each lock is taken and released before the next.
abbrev pub pairs : List Lock → List Action → List Action
pairs [] rest = rest
pairs (l ∷ ls) rest = acquire l ∷ release l ∷ pairs ls rest

-- The bucket of `rec` for `n` keys from `k` on.
unfoldable pub each_key : ℕ → ℕ → Share → Bytes → List Lock
each_key zero k s rec = []
each_key (suc n) k s rec =
    bucket_lock (record { key = k; b = key_bucket (s.keydef k) rec }) ∷ each_key n (suc k) s rec

-- The same for the keys below `k`, the last one first.
unfoldable pub keys_back : ℕ → Share → Bytes → List Lock
keys_back zero s rec = []
keys_back (suc k) s rec =
    bucket_lock (record { key = k; b = key_bucket (s.keydef k) rec }) ∷ keys_back k s rec

-- How `fm_core_insert_row` ends: with no slot, with a duplicate of a key, or with the row.
pub data InsertEnd : Type 0 where
  no_room : InsertEnd
  dup_at : ℕ → InsertEnd
  linked : InsertEnd

unfoldable pub insert_actions : Share → Bytes → InsertEnd → List Action → List Action
unfolding each_key keys_back
insert_actions s rec no_room rest = pairs (struct_mutex ∷ []) rest
insert_actions s rec (dup_at k) rest =
    acquire struct_mutex
    ∷ pairs (each_key (k + 1) 0 s rec) (pairs (keys_back k s rec) (release struct_mutex ∷ rest))
insert_actions s rec linked rest =
    acquire struct_mutex ∷ pairs (each_key s.keys 0 s rec) (release struct_mutex ∷ rest)

abbrev pub takes : List BucketLock → List Action → List Action
takes [] rest = rest
takes (x ∷ xs) rest = acquire (bucket_lock x) ∷ takes xs rest

abbrev pub gives : List BucketLock → List Action → List Action
gives [] rest = rest
gives (x ∷ xs) rest = release (bucket_lock x) ∷ gives xs rest

-- `fm_core_update_row_locked` on a current row: also where a duplicate is found, and none where no key
-- changes.
unfoldable pub update_actions : Share → Bytes → Bytes → List Action → List Action
update_actions s old_rec new_rec rest =
    let lockset = sorted_lockset s old_rec new_rec in
    takes (lock_order lockset) (gives (unlock_order lockset) rest)

-- `fm_core_delete_row_locked` on a current row with the image `rec`.
unfoldable pub delete_actions : Share → Bytes → List Action → List Action
unfolding each_key
delete_actions s rec rest = pairs (each_key s.keys 0 s rec) (pairs (struct_mutex ∷ []) rest)

-- A call of the core that may take locks. A write of a row that is not current takes none.
pub data Call : Type 0 where
  lookup : (key : ℕ) (packed : Bytes) → Call
  insert : (rec : Bytes) (end : InsertEnd) → Call
  update_held : (old_rec new_rec : Bytes) → Call
  delete_held : (rec : Bytes) → Call

unfoldable pub call_actions : Share → Call → List Action → List Action
unfolding insert_actions update_actions delete_actions
call_actions s (lookup key packed) rest =
    pairs (bucket_lock (record { key = key; b = packed_bucket (s.keydef key) packed }) ∷ []) rest
call_actions s (insert rec end) rest = insert_actions s rec end rest
call_actions s (update_held old_rec new_rec) rest = update_actions s old_rec new_rec rest
call_actions s (delete_held rec) rest = delete_actions s rec rest

unfoldable pub calls_actions : Share → List Call → List Action → List Action
unfolding call_actions
calls_actions s [] rest = rest
calls_actions s (c ∷ cs) rest = call_actions s c (calls_actions s cs rest)

-- The buckets `b`, `b + 1` and so on of key `k`, and of `m` keys from `k` on.
unfoldable pub buckets_of : ℕ → ℕ → ℕ → List Lock → List Lock
buckets_of zero b k rest = rest
buckets_of (suc n) b k rest = bucket_lock (record { key = k; b = b }) ∷ buckets_of n (suc b) k rest

unfoldable pub all_buckets : ℕ → ℕ → Share → List Lock
unfolding buckets_of
all_buckets zero k s = []
all_buckets (suc m) k s = buckets_of (s.keydef k).nbuckets 0 k (all_buckets m (suc k) s)

-- `n` rows from `i` on.
unfoldable pub row_locks : ℕ → ℕ → List Lock
row_locks zero i = []
row_locks (suc n) i = row_lock i ∷ row_locks n (suc i)

-- `fm_core_clear` of a table with `total` slots.
unfoldable pub clear_actions : Share → ℕ → List Action → List Action
unfolding all_buckets row_locks
clear_actions s total rest =
    acquire struct_mutex
    ∷ pairs (all_buckets s.keys 0 s) (pairs (row_locks total 0) (release struct_mutex ∷ rest))

-- A part of the work of a thread with one handle: calls, calls between `lock_current_row` and
-- `unlock_current_row`, or `delete_all_rows`.
pub data Part : Type 0 where
  alone : List Call → Part
  under_row : ℕ → List Call → Part
  clear_all : ℕ → Part

unfoldable pub part_actions : Share → Part → List Action → List Action
unfolding calls_actions clear_actions
part_actions s (alone cs) rest = calls_actions s cs rest
part_actions s (under_row i cs) rest =
    acquire (row_lock i) ∷ calls_actions s cs (release (row_lock i) ∷ rest)
part_actions s (clear_all total) rest = clear_actions s total rest

unfoldable pub actions : Share → List Part → List Action
unfolding part_actions
actions s [] = []
actions s (p ∷ ps) = part_actions s p (actions s ps)

-- A thread, with the locks that it holds, and the threads by number; a lock knows who holds it.
pub record Thread : Type 0 where
  pub todo : List Action
  pub held : List Lock

pub record System : Type 0 where
  pub owner : Lock → Option ℕ
  pub thread : ℕ → Thread

abbrev pub set_owner : (Lock → Option ℕ) → Lock → Option ℕ → Lock → Option ℕ
set_owner owner l v l' = if is_lock l' l then v else owner l'

abbrev pub drop_lock : Lock → List Lock → List Lock
drop_lock l [] = []
drop_lock l (x ∷ xs) = if is_lock x l then drop_lock l xs else x ∷ drop_lock l xs

abbrev pub acquired : System → ℕ → Lock → List Action → System
acquired s i l rest = record {
  owner = set_owner s.owner l (some i);
  thread = update s.thread i (record { todo = rest; held = l ∷ (s.thread i).held });
}

abbrev pub released : System → ℕ → Lock → List Action → System
released s i l rest = record {
  owner = set_owner s.owner l none;
  thread = update s.thread i (record { todo = rest; held = drop_lock l (s.thread i).held });
}

-- One thread takes a lock that is free, or releases one. A thread waits for a lock that is not free.
pub data Step (s : System) : System → Type 0 where
  takes_lock :
      (i : ℕ) (l : Lock) (rest : List Action)
      → (s.thread i).todo ≡ acquire l ∷ rest
      → s.owner l ≡ none
      → Step s (acquired s i l rest)
  gives_lock :
      (i : ℕ) (l : Lock) (rest : List Action)
      → (s.thread i).todo ≡ release l ∷ rest
      → Step s (released s i l rest)

-- The threads at the start, by their parts.
abbrev pub init : Share → (ℕ → List Part) → System
init s work = record {
  owner = λ l. none;
  thread = λ i. record { todo = actions s (work i); held = [] };
}

pub data Reach (s : Share) (work : ℕ → List Part) : System → Type 0 where
  start : Reach s work (init s work)
  later : {u v : System} → Reach s work u → Step u v → Reach s work v
