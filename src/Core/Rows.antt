-- ===== src/Core/Rows.antt =====
-- The abstract table of fm_core.h: rows at places, without slots, chains or freelist, and what each call
-- with its result does to them.
use fastmem_mariadb.Prelude.{
  ℕ, ◌+◌, ◌<◌, ◌≡◌, ◌≢◌, true, false, Option, none, some, List, [], ◌∷◌, ◌==◌, if◌then◌else◌,
}
use fastmem_mariadb.Core.{KeyCore, Bytes, Status, err_ok, err_deleted, err_dup_key}
use fastmem_mariadb.Core.Insert.{InsertResult, inserted, duplicate, no_slot}

abbrev pub Rows : Type 0
Rows = ℕ → Option Bytes

-- The row has no value of a unique key in common with a row elsewhere than at `idx`.
abbrev pub IsFresh : ℕ → (ℕ → KeyCore) → Rows → ℕ → Bytes → Type 0
IsFresh keys keydef rows idx rec =
    (k : ℕ)
    → k < keys
    → (keydef k).unique ≡ true
    → (keydef k).ops.has_null_part rec ≡ false
    → (i : ℕ) (a : Bytes) → (idx == i) ≡ false
    → rows i ≡ some a
    → (keydef k).ops.has_null_part a ≡ false
    → (keydef k).ops.cmp_rec_rec rec a ≢ 0

-- A call as its caller sees it: what it was given, and what it reported.
pub data RowCall : Type 0 where
  insert_call : (rec : Bytes) (r : InsertResult) → RowCall
  update_call : (idx : ℕ) (old_rec new_rec : Bytes) (rc : Status) (errkey : Option ℕ) → RowCall
  delete_call : (idx : ℕ) (rc : Status) → RowCall
  clear_call : RowCall

-- Some row has the value of the unique key `k` that `rec` has.
abbrev pub IsTaken : ℕ → (ℕ → KeyCore) → Rows → ℕ → Bytes → Type 0
IsTaken keys keydef rows k rec =
    (k < keys)
    × ((keydef k).unique ≡ true)
    × ((keydef k).ops.has_null_part rec ≡ false)
    × ((i : ℕ) × (a : Bytes) × (rows i ≡ some a) × ((keydef k).ops.cmp_rec_rec a rec ≡ 0))

-- What each call with its result does to the rows.
pub data TableStep (keys : ℕ) (keydef : ℕ → KeyCore) (rows rows' : Rows) : RowCall → Type 0 where
  add :
      (idx : ℕ) (rec : Bytes)
      → rows idx ≡ none
      → IsFresh keys keydef rows idx rec
      → ((i : ℕ) → rows' i ≡ (if i == idx then some rec else rows i))
      → TableStep keys keydef rows rows' (insert_call rec (inserted idx))
  replace :
      (idx : ℕ) (old_rec new_rec : Bytes)
      → rows idx ≡ some old_rec
      → IsFresh keys keydef rows idx new_rec
      → ((i : ℕ) → rows' i ≡ (if i == idx then some new_rec else rows i))
      → TableStep keys keydef rows rows' (update_call idx old_rec new_rec err_ok none)
  remove :
      (idx : ℕ) (old_rec : Bytes)
      → rows idx ≡ some old_rec
      → ((i : ℕ) → rows' i ≡ (if i == idx then none else rows i))
      → TableStep keys keydef rows rows' (delete_call idx err_ok)
  empty : ((i : ℕ) → rows' i ≡ none) → TableStep keys keydef rows rows' clear_call
  refuse_insert :
      (rec : Bytes) (k : ℕ)
      → IsTaken keys keydef rows k rec
      → ((j : ℕ) → rows' j ≡ rows j)
      → TableStep keys keydef rows rows' (insert_call rec (duplicate 0))
  refuse_update :
      (idx : ℕ) (old_rec new_rec : Bytes) (k : ℕ)
      → rows idx ≡ some old_rec
      → IsTaken keys keydef rows k new_rec
      → ((j : ℕ) → rows' j ≡ rows j)
      → TableStep keys keydef rows rows'
          (update_call idx old_rec new_rec err_dup_key (some (k + 1)))
  refuse_full :
      (rec : Bytes) (rc : Status)
      → ((j : ℕ) → rows' j ≡ rows j)
      → TableStep keys keydef rows rows' (insert_call rec (no_slot rc))
  miss_update :
      (idx : ℕ) (old_rec new_rec : Bytes)
      → ((j : ℕ) → rows' j ≡ rows j)
      → TableStep keys keydef rows rows' (update_call idx old_rec new_rec err_deleted none)
  miss_delete :
      (idx : ℕ)
      → ((j : ℕ) → rows' j ≡ rows j)
      → TableStep keys keydef rows rows' (delete_call idx err_deleted)

-- The runs of the abstract table from no rows, and the rows behind them.
pub data TableRun (keys : ℕ) (keydef : ℕ → KeyCore) : List RowCall → Rows → Type 0 where
  no_rows : {rows : Rows} → ((i : ℕ) → rows i ≡ none) → TableRun keys keydef [] rows
  after :
      {rows rows' : Rows} {c : RowCall} {cs : List RowCall}
      → TableRun keys keydef cs rows
      → TableStep keys keydef rows rows' c
      → TableRun keys keydef (c ∷ cs) rows'
