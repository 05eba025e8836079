-- ===== src/Core/Insert/Adds.antt =====
-- What an insertion does to a well-formed share: it adds the row and nothing else, or it reports a
-- duplicate or the lack of a slot and leaves all rows as they were.
use fastmem_mariadb.Prelude.{
  ℕ, ◌+◌, ◌<◌, ◌≡◌, refl, Bool, true, false, not, ◌&&◌, ◌||◌, Option, none, some, Returns, ◌==◌,
  leb, ltb, if◌then◌else◌, ap, arith,
}
use fastmem_mariadb.Core.{
  Share, KeyCore, err_ok, err_dup_key, err_full, err_nomem, Bytes, key_bucket, set_slot, slot_count,
}
use fastmem_mariadb.Core.Alloc.{Memory, alloc_slot, free_slot}
use fastmem_mariadb.Core.Alloc.Gives.{Given, Allocated, alloc_slot-Allocated}
use fastmem_mariadb.Core.Insert.{
  InsertResult, inserted, duplicate, no_slot, link_keys, publish, insert_at, insert_row,
}
use fastmem_mariadb.Core.Wf.{
  Wf, Chains, LawfulKey, SameKeys, active_at, place_of, row_at, free_cells,
}
use fastmem_mariadb.Core.Wf.Free.{FreeList-congr, push-FreeList}
use fastmem_mariadb.Core.Wf.Hang.{rehung, Chains-congr}
use fastmem_mariadb.Core.Wf.LinkKeys.{Linkage, link_keys-Linkage}
use fastmem_mariadb.Core.Wf.Loops.{roll_back-Chains}
use fastmem_mariadb.Core.Wf.Walks.{IsQuiet}
use fastmem_mariadb.Core.Wf.Walks.Find.{Checked}

-- The row is in slot `idx`, which held none, and no other row has a key that must be unique.
pub record Added (s : Share) (rec : Bytes) (idx : ℕ) (s' : Share) : Type 0 where
  pub wf : Wf s'
  pub unused : row_at s idx ≡ none
  pub rows : (i : ℕ) → row_at s' i ≡ (if i == idx then some rec else row_at s i)
  pub fresh_keys : (k : ℕ) → k < s.keys → Checked s k rec err_ok
  pub count : s'.records ≡ s.records + 1
  pub keys : SameKeys s s'

-- A key that must be unique is taken, and the table is as it was.
pub record Refused (s : Share) (rec : Bytes) (s' : Share) : Type 0 where
  pub wf : Wf s'
  pub rows : (i : ℕ) → row_at s' i ≡ row_at s i
  pub taken : (k : ℕ) × (k < s.keys) × Checked s k rec err_dup_key
  pub count : s'.records ≡ s.records
  pub keys : SameKeys s s'

module _ (s s' : Share) (rec : Bytes) (idx : ℕ) (g : Given s idx s') where
  abbrev filled : Share
  filled = set_slot s' idx (record (s'.slot idx) { image = rec })

  filled-Chains : Chains filled (place_of filled) (λ k i. active_at filled i || i == idx && ltb k 0)
  filled-Chains =
      Chains-congr filled (place_of s') (place_of filled) (λ k. active_at s')
        (λ k i. active_at filled i || i == idx && ltb k 0) (λ k i lt. ground arith)
        (λ k i lt a. ap (key_bucket (s'.keydef k)) (ground (arith, g.empty))) g.chains

  filled-IsQuiet : IsQuiet filled
  unfolding slot_count
  filled-IsQuiet = record {
    even = λ i. ground (arith, g.base.even i);
    below = λ i a.
        let lt : i < g.base.bound = g.base.active_lt i (ground arith) in
        omega (arith, g.base.bound_le, g.base.chunks_le, g.base.cap_le);
  }

  chained_lt :
      (i : ℕ) (b : Bool) → (active_at filled i || i == idx && b) ≡ true → i < slot_count filled
  unfolding slot_count
  chained_lt i b m =
      let lt : i < g.base.bound = ground (arith, g.base.active_lt i, g.below) in
      omega (arith, g.base.bound_le, g.base.chunks_le, g.base.cap_le)

  published-Wf :
      (h nx : ℕ → ℕ → Option ℕ)
      → Chains
          (rehung filled h nx)
          (place_of filled)
          (λ k i. active_at filled i || i == idx && ltb k filled.keys)
      → Wf (publish (rehung filled h nx) idx)
  unfolding publish
  published-Wf h nx c =
      let r = publish (rehung filled h nx) idx in
      let (f, size) =
        FreeList-congr g.base.frees (free_cells r)
          (λ i. ltb i g.base.bound && not (active_at r i) && not false) (λ i m. ground arith)
          (λ i. ground (arith, g.empty)) in
      record {
        base = record {
          bound = g.base.bound;
          bound_le = g.base.bound_le;
          unbounded = g.base.unbounded;
          chunks_le = g.base.chunks_le;
          cap_le = g.base.cap_le;
          active_lt = λ i a. ground (arith, g.base.active_lt i, g.below);
          frees = f;
          counted =
              omega (arith, size, g.base.counted, g.base.bound_le, g.base.chunks_le, g.base.cap_le);
          even = λ i. ground (arith, g.base.even i);
        };
        chains =
            Chains-congr r (place_of filled) (place_of r) _ (λ k. active_at r)
              (λ k i lt. ground (arith, g.empty))
              (λ k i lt a. ap (key_bucket (s'.keydef k)) (ground arith)) c;
      }

  returned-Wf :
      (h nx : ℕ → ℕ → Option ℕ)
      → Chains (rehung filled h nx) (place_of filled) (λ k. active_at filled)
      → Wf (free_slot (rehung filled h nx) idx)
  unfolding free_slot
  returned-Wf h nx c =
      let r = free_slot (rehung filled h nx) idx in
      let (f, size) =
        push-FreeList g.base.frees idx (free_cells r)
          (λ i. ltb i g.base.bound && not (active_at r i) && not false) (ground arith)
          (ground arith) (λ i m. ground arith) (λ i. ground (arith, g.empty, g.below)) in
      record {
        base = record {
          bound = g.base.bound;
          bound_le = g.base.bound_le;
          unbounded = g.base.unbounded;
          chunks_le = g.base.chunks_le;
          cap_le = g.base.cap_le;
          active_lt = λ i a. ground (arith, g.base.active_lt i, g.below);
          frees = f;
          counted = omega (arith, size, g.base.counted);
          even = λ i. ground (arith, g.base.even i);
        };
        chains =
            Chains-congr r (place_of filled) (place_of r) _ (λ k. active_at r)
              (λ k i lt. ground (arith, g.empty))
              (λ k i lt a. ap (key_bucket (s'.keydef k)) (ground arith)) c;
      }

  -- The rows of the share that the checks see are those of the table.
  live_row :
      (i : ℕ)
      → active_at s i ≡ true
      → (active_at filled i ≡ true) × ((filled.slot i).image ≡ (s.slot i).image)
  unfolding row_at
  live_row i a = ground (arith, g.rows i, g.empty)

  live_back :
      (i : ℕ)
      → active_at filled i ≡ true
      → (active_at s i ≡ true) × ((filled.slot i).image ≡ (s.slot i).image)
  unfolding row_at
  live_back i a = ground (arith, g.rows i, g.empty)

  key_same : (k : ℕ) → s'.keydef k ≡ s.keydef k
  key_same k = ap (λ (f : ℕ → KeyCore). f k) g.keydef

  Checked-ok : (k : ℕ) → Checked filled k rec err_ok → Checked s k rec err_ok
  Checked-ok k c on i a z =
      let (a', e) = live_row i a in c (rw (key_same k) on) i a' (rw (key_same k, e) z)

  Checked-dup : (k : ℕ) → Checked filled k rec err_dup_key → Checked s k rec err_dup_key
  Checked-dup k (on, (i, a, z)) =
      let (a', e) = live_back i a in (rw (← key_same k) on, (i, a', rw (← key_same k, ← e) z))

-- What `fm_core_insert_row` reports, and the table behind it.
abbrev pub Inserted : Share → Bytes → Share × InsertResult → Type 0
Inserted s rec (s', inserted idx) = Added s rec idx s'
Inserted s rec (s', duplicate errkey) = (errkey ≡ 0) × Refused s rec s'
Inserted s rec (s', no_slot rc) = (s' ≡ s) × (s.free_head ≡ none)

module _ (s s' : Share) (rec : Bytes) (idx : ℕ) (g : Given s idx s') where
  insert_at-Inserted_of :
      Linkage
        (filled s s' rec idx g)
        rec
        idx
        0
        (link_keys s'.keys 0 (filled s s' rec idx g) rec idx)
      → Returns (insert_at s' idx rec) (Inserted s rec)
  unfolding insert_at row_at publish free_slot slot_count
  insert_at-Inserted_of (h, nx, none, run, c, v) =
      let u = rehung (filled s s' rec idx g) h nx in
      (
        (publish u idx, inserted idx),
        rw run,
        record {
          wf = published-Wf s s' rec idx g h nx c;
          unused = ground (arith, g.unused);
          rows = λ i. ground (arith, g.rows i);
          fresh_keys = λ k lt. Checked-ok s s' rec idx g k (v k (omega arith) (rw g.keys lt));
          count =
              omega (
                arith, g.records, g.base.counted, g.base.bound_le, g.base.chunks_le, g.base.cap_le,
              );
          keys = (g.keys, g.keydef);
        },
      )
  insert_at-Inserted_of (h, nx, some k, run, c, (lt, checked)) =
      let start = filled s s' rec idx g in
      let (h', nx', run', c') =
        roll_back-Chains (place_of start) rec idx k (rehung start h nx) _ (omega arith)
          (λ k'. ap (key_bucket (s'.keydef k')) (ground arith))
          (λ k' i m. chained_lt s s' rec idx g i (ltb k' k) m) c in
      let u = rehung start h' nx' in
      (
        (free_slot u idx, duplicate 0),
        rw (run, run'),
        (
          refl,
          record {
            wf = returned-Wf s s' rec idx g h' nx' (
                Chains-congr u (place_of start) (place_of start) _ (λ k'. active_at start)
                  (λ k' i z. ground (arith, g.empty)) (λ k' i z a. refl) c');
            rows = λ i. ground (arith, g.rows i, g.empty);
            taken = (k, rw (← g.keys) lt, Checked-dup s s' rec idx g k checked);
            count = g.records;
            keys = (g.keys, g.keydef);
          },
        ),
      )

-- On a well-formed table with lawful keys an insert ends, whatever memory the allocator grants. It
-- either adds the row in a slot that held none, and no other row changes, every key passed its
-- duplicate check and the count goes up by one; or it reports a duplicate of a unique key that some
-- row has, with the rows and the count as before and 0 as the key's number; or it finds no slot, with
-- the share unchanged and the freelist empty. The table is well formed behind it.
pub insert_row-Inserted :
    (mem : Memory) (s : Share) (rec : Bytes)
    → Wf s
    → ((k : ℕ) → LawfulKey (s.keydef k).ops)
    → Returns (insert_row mem s rec) (Inserted s rec)
unfolding insert_row
insert_row-Inserted mem s rec w law =
    go (alloc_slot mem s).0 (alloc_slot mem s).1 refl (alloc_slot-Allocated mem s w)
  where
    go :
        (s' : Share) (slot : Option ℕ)
        → alloc_slot mem s ≡ (s', slot)
        → Allocated s (s', slot)
        → Returns (insert_row mem s rec) (Inserted s rec)
    go s' none e a = (
      (s', no_slot (if leb s'.chunk_cap s'.chunk_cnt then err_full else err_nomem)),
      rw (e, insert_row) (rw e),
      a,
    )
    go s' (some idx) e g =
        let linkage =
          link_keys-Linkage s'.keys 0 (filled s s' rec idx g) rec idx (omega arith)
            (filled-IsQuiet s s' rec idx g) (ground (arith, g.empty)) (ground arith)
            (λ k. rw (key_same s s' rec idx g k) (law k)) (filled-Chains s s' rec idx g) in
        let (r, run, post) = insert_at-Inserted_of s s' rec idx g linkage in
        (r, rw (e, insert_row) (rw e run), post)
