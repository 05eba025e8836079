-- ===== src/Core/Refines.antt =====
-- The histories of shares refine the abstract table of `Core.Rows`.
use mathlib.Core.Path.{subst}
use fastmem_mariadb.Prelude.{
  ℕ, ◌^◌, ◌≤◌, ◌<◌, ◌≡◌, refl, sym, ◌∙◌, Option, none, some, List, [], ◌∷◌, inl, inr, Returns-at,
  arith,
}
use fastmem_mariadb.Core.{
  Share, KeyCore, Bytes, Status, err_ok, err_deleted, err_dup_key, init_share,
}
use fastmem_mariadb.Core.Lookup.{checks_dup}
use fastmem_mariadb.Core.Insert.{InsertResult, inserted, duplicate, no_slot, insert_row}
use fastmem_mariadb.Core.Insert.Adds.{Inserted, insert_row-Inserted}
use fastmem_mariadb.Core.Update.Changes.{Updated}
use fastmem_mariadb.Core.Clear.{clear}
use fastmem_mariadb.Core.Clear.Empties.{clear-Cleared}
use fastmem_mariadb.Core.Wf.{SameKeys, row_at}
use fastmem_mariadb.Core.Wf.Unique.Kept.{Checked-apart, Changed-apart}
use fastmem_mariadb.Core.Wf.Walks.Find.{Checked}
use fastmem_mariadb.Core.Rows.{
  RowCall, insert_call, update_call, delete_call, clear_call, IsTaken, TableStep, add, replace,
  remove, empty, refuse_insert, refuse_update, refuse_full, miss_update, miss_delete, TableRun,
  no_rows, after,
}
use fastmem_mariadb.Core.History.{
  Step, insert, update, delete_locked, delete, truncate, Reach, start, next, Keyed, Sound,
  Reach-Sound_whole, updates, Deletes, delete_row-Deletes, delete_row_locked-Deletes,
}

abbrev pub call_of : {s s' : Share} → Step s s' → RowCall
call_of (insert mem rec r e) = insert_call rec r
call_of (update idx gen old_rec new_rec rc errkey old e) = update_call idx old_rec new_rec rc errkey
call_of (delete_locked idx gen rc e) = delete_call idx rc
call_of (delete idx gen rc free e) = delete_call idx rc
call_of (truncate free e) = clear_call

-- The calls of a history, the last one first.
abbrev pub calls_of : {s u : Share} → Reach s u → List RowCall
calls_of start = []
calls_of (next r st) = call_of st ∷ calls_of r

-- A step of a share, seen as a step of its rows.
abbrev pub Seen : Share → Share → RowCall → Type 0
Seen s s' c = SameKeys s s' × TableStep s.keys s.keydef (row_at s) (row_at s') c

taken :
    (s : Share) (rec : Bytes) (k : ℕ)
    → k < s.keys
    → Checked s k rec err_dup_key
    → IsTaken s.keys s.keydef (row_at s) k rec
unfolding row_at checks_dup
taken s rec k lt (on, (i, live, same)) =
    (lt, ground arith, ground arith, (i, (s.slot i).image, ground arith, same))

Inserted-Seen :
    (s s' : Share) (rec : Bytes) (r : InsertResult)
    → Sound s
    → Inserted s rec (s', r)
    → Seen s s' (insert_call rec r)
Inserted-Seen s s' rec (inserted idx) h a = (
  a.keys,
  add idx rec a.unused
      (λ k lt on nn i b ne at_i nb z.
        Checked-apart s k rec i b (a.fresh_keys k lt) on nn at_i
          ((h.keyed.lawful k).cmp_symm b rec ∙ z))
      a.rows,
)
Inserted-Seen s s' rec (duplicate e) h (z, a) =
    let (k, lt, c) = a.taken in
    subst (λ n. Seen s s' (insert_call rec (duplicate n))) (sym z)
      (a.keys, refuse_insert rec k (taken s rec k lt c) a.rows)
Inserted-Seen s s' rec (no_slot rc) h (e, z) =
    subst (λ u. Seen s u (insert_call rec (no_slot rc))) (sym e)
      ((refl, refl), refuse_full rec rc (λ j. refl))

Updated-Seen :
    (s s' : Share) (idx : ℕ) (old_rec new_rec : Bytes) (rc : Status) (errkey : Option ℕ)
    → Sound s
    → row_at s idx ≡ some old_rec
    → Updated s idx old_rec new_rec (s', rc, errkey)
    → Seen s s' (update_call idx old_rec new_rec rc errkey)
Updated-Seen s s' idx old_rec new_rec err_ok errkey h here (z, a) =
    subst (λ n. Seen s s' (update_call idx old_rec new_rec err_ok n)) (sym z)
      (
        a.keys,
        replace idx old_rec new_rec here
            (λ k lt on nn i b ne at_i nb.
              Changed-apart s s' idx k old_rec new_rec i b (h.keyed.lawful k) h.unique a here lt on
                ne at_i nn nb)
            a.rows,
      )
Updated-Seen s s' idx old_rec new_rec err_dup_key errkey h here (e, (k, at_k, lt, d, c)) =
    subst (λ u. Seen s u (update_call idx old_rec new_rec err_dup_key errkey)) (sym e)
      (subst (λ n. Seen s s (update_call idx old_rec new_rec err_dup_key n)) (sym at_k)
        (
          (refl, refl),
          refuse_update idx old_rec new_rec k here (taken s new_rec k lt c) (λ i. refl),
        ))
Updated-Seen s s' idx old_rec new_rec _ errkey h here z = absurd z

Deletes-Seen :
    (s s' : Share) (idx : ℕ) (rc : Status) → Deletes s idx s' rc → Seen s s' (delete_call idx rc)
Deletes-Seen s s' idx rc (inl (same, gone)) =
    subst (λ u. Seen s u (delete_call idx rc)) (sym same)
      (subst (λ n. Seen s s (delete_call idx n)) (sym gone)
        ((refl, refl), miss_delete idx (λ j. refl)))
Deletes-Seen s s' idx rc (inr (ok, here, r)) =
    subst (λ n. Seen s s' (delete_call idx n)) (sym ok)
      (r.keys, remove idx (s.slot idx).image here r.rows)

Step-Seen : {s s' : Share} → Sound s → (st : Step s s') → Seen s s' (call_of st)
Step-Seen {s} {s'} h (insert mem rec r e) = Inserted-Seen s s' rec r h (
    Returns-at (insert_row mem s rec) (s', r) (insert_row-Inserted mem s rec h.wf h.keyed.lawful) e)
Step-Seen {s} {s'} h (update idx gen old_rec new_rec rc errkey old e) =
    elim (updates idx gen old_rec new_rec rc errkey h old e) [
      | inl (same, gone, nowhere) ↦
          subst (λ u. Seen s u (update_call idx old_rec new_rec rc errkey)) (sym same)
            (subst (λ n. Seen s s (update_call idx old_rec new_rec n errkey)) (sym gone)
              (subst (λ n. Seen s s (update_call idx old_rec new_rec err_deleted n)) (sym nowhere)
                ((refl, refl), miss_update idx old_rec new_rec (λ j. refl))))
      | inr (here, u) ↦ Updated-Seen s s' idx old_rec new_rec rc errkey h here u
    ]
Step-Seen {s} {s'} h (delete_locked idx gen rc e) =
    Deletes-Seen s s' idx rc (delete_row_locked-Deletes idx gen rc h e)
Step-Seen {s} {s'} h (delete idx gen rc free e) =
    Deletes-Seen s s' idx rc (delete_row-Deletes idx gen rc h free e)
Step-Seen {s} {s'} h (truncate free e) =
    let c = Returns-at (clear s) s' (clear-Cleared s h.wf free h.keyed.buckets) e in
    (c.keys, empty c.rows)

init-rows :
    (reclength keys max_records nbuckets : ℕ) (keydef : ℕ → KeyCore) (i : ℕ)
    → row_at (init_share reclength keys max_records nbuckets keydef) i ≡ none
unfolding row_at init_share
init-rows reclength keys max_records nbuckets keydef i = refl

-- After any inserts, updates, deletes and clears of a new table, each run to its end, the abstract table has a run of
-- the same calls with the same results, in the same order, from no rows to the rows of the table at their
-- places. There an insert that gives a place adds its record at that place, which was empty, and a successful
-- update puts its new record in the place of its old one, where no other row has its value of a unique key
-- without a NULL part; a successful delete takes its one row away, a clear all rows; every other row stays as
-- it is. A call that reports a duplicate or a row that is gone, or finds no room, changes no row; for a
-- duplicate some row has the value of a unique key. The table has at most 64 lawful keys with buckets, and a
-- limit of at most 2 ^ 31 rows. An update of a row that is current gives the image that is in its slot as the
-- old record; a clear finds every row lock free, and so does a delete that takes the lock of its row itself.
pub Reach-TableRun :
    (reclength keys max_records nbuckets : ℕ) (keydef : ℕ → KeyCore) (s : Share)
    → max_records ≤ 2 ^ 31
    → Keyed (init_share reclength keys max_records nbuckets keydef)
    → (h : Reach (init_share reclength keys max_records nbuckets keydef) s)
    → TableRun s.keys s.keydef (calls_of h) (row_at s)
Reach-TableRun reclength keys max_records nbuckets keydef s le ok start =
    no_rows (init-rows reclength keys max_records nbuckets keydef)
Reach-TableRun reclength keys max_records nbuckets keydef s le ok (next {t = t} r st) =
    let h = Reach-Sound_whole reclength keys max_records nbuckets keydef t le ok r in
    let (same, step) = Step-Seen h st in
    let before = Reach-TableRun reclength keys max_records nbuckets keydef t le ok r in
    subst (λ n. TableRun n s.keydef (calls_of (next r st)) (row_at s)) (sym same.0)
      (subst (λ d. TableRun t.keys d (calls_of (next r st)) (row_at s)) (sym same.1)
        (after before step))
