-- ===== src/Tests/Core.antt =====
-- The theorems on the operations of fm_core.h, at a table of one row.
use fastmem_mariadb.Prelude.{has, ◌≡◌, refl, true, [], ◌∷◌, Returns, arith}
use fastmem_mariadb.Core.{err_ok, init_share, key_bucket, bucket}
use fastmem_mariadb.Core.Lookup.{find, scan_next}
use fastmem_mariadb.Core.Delete.{delete_row_locked}
use fastmem_mariadb.Core.Delete.Removes.{Removed, delete_row_locked-Removed}
use fastmem_mariadb.Core.Insert.{inserted, insert_row}
use fastmem_mariadb.Core.Insert.Adds.{Inserted, insert_row-Inserted}
use fastmem_mariadb.Core.Wf.{Wf}
use fastmem_mariadb.Core.Update.{update_row_locked}
use fastmem_mariadb.Core.Update.Changes.{Updated, update_row_locked-Updated}
use fastmem_mariadb.Core.Clear.{clear}
use fastmem_mariadb.Core.Clear.Empties.{Cleared, clear-Cleared}
use fastmem_mariadb.Core.Wf.Unique.{IsUnique}
use fastmem_mariadb.Core.Wf.Walks.Find.{Found, find-Found}
use fastmem_mariadb.Core.Rows.{TableRun, insert_call}
use fastmem_mariadb.Core.Refines.{Reach-TableRun}
use fastmem_mariadb.Core.History.{Keyed, start, next, insert, Reach-Sound}
use fastmem_mariadb.Core.Update.{changed_keys, changed_loop}
use fastmem_mariadb.Core.Wf.{row_at}
use fastmem_mariadb.Core.Update.Locks.{
  is_listed, lock_order, lock_from, sorted_lockset, sort_loop, collect, add_pair, shift_in,
}
use fastmem_mariadb.Core.Update.Locks.Covers.{lock_order-covers}
use fastmem_mariadb.Core.Wf.Walks.Scan.{Scanned, scan_next-Scanned}
use fastmem_mariadb.Core.Wf.Walks.Next.{rows_with_key, ExactlyWithKey, rows_with_key-ExactlyWithKey}
use fastmem_mariadb.Core.Update.{update_row}
use fastmem_mariadb.Core.Update.Agrees.{with_lock, and_unlock, update_row-update_row_locked}
use fastmem_mariadb.Tests.Table.{
  buckets_s1, image_a, insert_a, is_current_a, keydef, keys_s1, lawful, lawful_s1, mem, rec_a,
  rec_b, s0, s0-Wf, s1, s1-Added, unlocked_s1,
}

insert_row-Inserted_example : Returns (insert_row mem s0 rec_a) (Inserted s0 rec_a)
insert_row-Inserted_example = insert_row-Inserted mem s0 rec_a s0-Wf lawful

delete_row_locked-Removed_example :
    Returns (delete_row_locked s1 0 0) (λ (s', rc). (rc ≡ err_ok) × Removed s1 0 s')
delete_row_locked-Removed_example = delete_row_locked-Removed s1 0 0 s1-Added.wf is_current_a

update_row_locked-Updated_example :
    Returns (update_row_locked s1 0 0 rec_a rec_b) (Updated s1 0 rec_a rec_b)
update_row_locked-Updated_example =
    update_row_locked-Updated s1 0 0 rec_a rec_b s1-Added.wf (omega (arith, keys_s1)) lawful_s1
      is_current_a image_a

clear-Cleared_example : Returns (clear s1) (Cleared s1)
clear-Cleared_example = clear-Cleared s1 s1-Added.wf unlocked_s1 buckets_s1

find-Found_example : Returns (find s1 0 rec_a) (Found s1 0 rec_a)
find-Found_example = find-Found s1 0 rec_a s1-Added.wf (omega (arith, keys_s1)) (lawful_s1 0)

Keyed-s0 : Keyed s0
unfolding init_share
Keyed-s0 = record { lawful = lawful; few = omega arith; buckets = λ k. omega arith }

Reach-Sound_example : Wf s1 × IsUnique s1
Reach-Sound_example =
    Reach-Sound 2 1 3 4 keydef s1 (omega arith) Keyed-s0
      (next start (insert mem rec_a (inserted 0) insert_a))

Reach-TableRun_example :
    TableRun s1.keys s1.keydef (insert_call rec_a (inserted 0) ∷ []) (row_at s1)
Reach-TableRun_example =
    Reach-TableRun 2 1 3 4 keydef s1 (omega arith) Keyed-s0
      (next start (insert mem rec_a (inserted 0) insert_a))

-- Row 0 moves from bucket 3 to bucket 1.
two_locks :
    lock_order (sorted_lockset s0 rec_a rec_b)
    ≡ record { key = 0; b = 1 } ∷ record { key = 0; b = 3 } ∷ []
unfolding lock_order lock_from sorted_lockset sort_loop collect add_pair shift_in changed_keys
    changed_loop init_share key_bucket bucket
two_locks = refl

changed_zero : has 0 (changed_keys s0 rec_a rec_b) ≡ true
unfolding changed_keys changed_loop init_share
changed_zero = refl

lock_order-covers_example :
    (is_listed
        record { key = 0; b = key_bucket (s0.keydef 0) rec_b }
        (lock_order (sorted_lockset s0 rec_a rec_b))
      ≡ true)
    × (is_listed
          record { key = 0; b = key_bucket (s0.keydef 0) rec_a }
          (lock_order (sorted_lockset s0 rec_a rec_b))
        ≡ true)
lock_order-covers_example = lock_order-covers s0 rec_a rec_b 0 changed_zero

scan_next-Scanned_example : Returns (scan_next s1 0) (Scanned s1 0)
scan_next-Scanned_example = scan_next-Scanned s1 0 s1-Added.wf

rows_with_key-ExactlyWithKey_example :
    Returns (rows_with_key s1 0 rec_a) (ExactlyWithKey s1 0 rec_a)
rows_with_key-ExactlyWithKey_example =
    rows_with_key-ExactlyWithKey s1 0 rec_a s1-Added.wf (omega (arith, keys_s1)) (lawful_s1 0)

update_row-update_row_locked_example :
    update_row s1 0 0 rec_a rec_b
    ≡ and_unlock 0 (update_row_locked (with_lock s1 0) 0 0 rec_a rec_b)
update_row-update_row_locked_example =
    update_row-update_row_locked s1 0 0 rec_a rec_b (unlocked_s1 0) is_current_a
