-- ===== src/Data/Write/Stores.antt =====
-- What fm_write does to the table and to the handle, on success and on each error.
use fastmem_mariadb.Prelude.{
  ℕ, ◌+◌, ◌%◌, ◌<◌, ◌≡◌, refl, ◌∙◌, none, some, Run, diverges, done, ◌>>=◌, Returns, ◌==◌,
  if◌then◌else◌, leb, ◌⊎◌, inl, inr, Bool-cases, Option-cases, arith,
}
use fastmem_mariadb.Core.{Share, Bytes, Status, err_full, err_nomem, err_dup_key, set_slot, u32_mod}
use fastmem_mariadb.Core.Alloc.{Memory, alloc_slot, free_slot}
use fastmem_mariadb.Core.AutoInc.{auto_inc_observe}
use fastmem_mariadb.Core.Insert.{
  InsertResult, inserted, duplicate, no_slot, link_keys, roll_back, insert_at, insert_row,
}
use fastmem_mariadb.Core.Insert.Adds.{Inserted, insert_row-Inserted}
use fastmem_mariadb.Core.Wf.{Wf, LawfulKey, row_at}
use fastmem_mariadb.Core.Wf.Walks.Find.{Checked}
use fastmem_mariadb.Data.{
  ha_ok, ha_found_dupp_key, ha_record_file_full, ha_out_of_mem, error_to_ha, Table, Info,
}
use fastmem_mariadb.Data.AutoValue.{Readers, update_auto_increment}
use fastmem_mariadb.Data.Write.{WriteOutcome, write}

bind-done :
    {V W : Type 0} (run : Run V) (f : V → Run W) (r : W)
    → (run >>= f) ≡ done r
    → (v : V) × (run ≡ done v) × (f v ≡ done r)
bind-done diverges f r e = cc
bind-done (done v) f r e = (v, refl, e)

-- A refusal for the lack of a slot says which lack.
abbrev Lack : InsertResult → Type 0
Lack (no_slot rc) = (rc ≡ err_full) ⊎ (rc ≡ err_nomem)
Lack _ = Unit

no_lack :
    (run : Run (Share × ℕ)) (s' : Share) (rc : Status) (idx : ℕ)
    → ◌>>=◌ {W = Share × InsertResult} run
        (λ x. done (free_slot x.0 idx, duplicate ((x.1 + 1) % u32_mod)))
      ≡ done (s', no_slot rc)
    → (rc ≡ err_full) ⊎ (rc ≡ err_nomem)
no_lack diverges s' rc idx e = cc
no_lack (done v) s' rc idx e = cc

insert_at-Lack :
    (s s' : Share) (idx : ℕ) (rec : Bytes) (r : InsertResult)
    → insert_at s idx rec ≡ done (s', r)
    → Lack r
unfolding insert_at
insert_at-Lack s s' idx rec (inserted i) e = tt
insert_at-Lack s s' idx rec (duplicate k) e = tt
insert_at-Lack s s' idx rec (no_slot rc) e =
    let filled = set_slot s idx (record (s.slot idx) { image = rec }) in
    let ((linked, dup), run, tail) =
      bind-done (link_keys s.keys 0 filled rec idx) _ (s', no_slot rc) e in
    elim dup as (λ d. dup ≡ d → (rc ≡ err_full) ⊎ (rc ≡ err_nomem)) [
      | none ↦ λ at_d. absurd (ground (arith, tail, at_d))
      | some k ↦ λ at_d. no_lack (roll_back k linked rec idx) s' rc idx (ground (arith, tail, at_d))
    ]
      refl

insert_row-Lack :
    (mem : Memory) (s s' : Share) (rec : Bytes) (r : InsertResult)
    → insert_row mem s rec ≡ done (s', r)
    → Lack r
unfolding insert_row
insert_row-Lack mem s s' rec (inserted i) e = tt
insert_row-Lack mem s s' rec (duplicate k) e = tt
insert_row-Lack mem s s' rec (no_slot rc) e = elim (Option-cases (alloc_slot mem s).1) [
  | inl none_left ↦
      elim (Bool-cases (leb (alloc_slot mem s).0.chunk_cap (alloc_slot mem s).0.chunk_cnt)) [
        | inl full ↦ inl (ground (arith, e, none_left, full))
        | inr room ↦ inr (ground (arith, e, none_left, room))
      ]
  | inr (idx, got) ↦
      insert_at-Lack (alloc_slot mem s).0 s' idx rec (no_slot rc) (ground (arith, e, got))
]

-- The row stands in a slot that held none, and the handle is at it.
pub record Stored (t : Table) (rec : Bytes) (t' : Table) (info' : Info) : Type 0 where
  pub idx : ℕ
  pub unused : row_at t.core idx ≡ none
  pub rows : (i : ℕ) → row_at t'.core i ≡ (if i == idx then some rec else row_at t.core i)
  pub count : t'.core.records ≡ t.core.records + 1
  pub at_slot : info'.current_slot ≡ some idx
  pub at_gen : info'.current_gen ≡ (t'.core.slot idx).gen

-- The outcomes of a write. On a duplicate the rows are as before, and the reported key is 0, whichever
-- it was; without room nothing is changed.
abbrev pub Written : Table → Info → Bytes → WriteOutcome → Type 0
Written t info rec (t', info', ha_ok) = Stored t rec t' info'
Written t info rec (t', info', ha_found_dupp_key) =
    ((i : ℕ) → row_at t'.core i ≡ row_at t.core i)
    × (t'.core.records ≡ t.core.records)
    × ((k : ℕ) × (k < t.core.keys) × Checked t.core k rec err_dup_key)
    × (info' ≡ record info { errkey = 0 })
Written t info rec (t', info', ha_record_file_full) = (t' ≡ t) × (info' ≡ info)
Written t info rec (t', info', ha_out_of_mem) = (t' ≡ t) × (info' ≡ info)
Written t info rec (t', info', _) = ⊥

observed :
    (rd : Readers) (t : Table) (rec : Bytes)
    → ((update_auto_increment rd t rec).core.slot ≡ t.core.slot)
      × ((update_auto_increment rd t rec).core.records ≡ t.core.records)
unfolding update_auto_increment auto_inc_observe
observed rd t rec = ground arith

write_of :
    (rd : Readers) (mem : Memory) (t : Table) (info : Info) (rec : Bytes) (core : Share)
    (r : InsertResult)
    → insert_row mem t.core rec ≡ done (core, r)
    → Inserted t.core rec (core, r)
    → Lack r
    → Returns (write rd mem t info rec) (Written t info rec)
unfolding write row_at error_to_ha
write_of rd mem t info rec core (inserted idx) run a lack =
    let t' : Table = record t { core = core } in
    let (slots, records) = observed rd t' rec in
    rw run (
      _,
      refl,
      record {
        idx = idx;
        unused = a.unused;
        rows = λ i. rw slots (a.rows i);
        count = records ∙ a.count;
        at_slot = refl;
        at_gen = rw slots refl;
      },
    )
write_of rd mem t info rec core (duplicate k) run (zero_key, a) lack =
    rw run (_, refl, (a.rows, a.count, a.taken, rw zero_key refl))
write_of rd mem t info rec core (no_slot rc) run (same, z) (inl full) =
    rw run (rw full (_, refl, (rw same refl, refl)))
write_of rd mem t info rec core (no_slot rc) run (same, z) (inr room) =
    rw run (rw room (_, refl, (rw same refl, refl)))

-- On a well-formed table with lawful keys fm_write ends, whatever memory the allocator grants. With the
-- code 0 the row stands in a slot that held none, no other row changes, the count goes up by one and the
-- handle is at the row in its generation; with HA_ERR_FOUND_DUPP_KEY all rows and the count are as before,
-- some row has a key of the new one, and only errkey of the handle changes, to 0; with
-- HA_ERR_RECORD_FILE_FULL or HA_ERR_OUT_OF_MEM the table and the handle are as before; no other code is
-- returned.
pub write-Written :
    (rd : Readers) (mem : Memory) (t : Table) (info : Info) (rec : Bytes)
    → Wf t.core
    → ((k : ℕ) → LawfulKey (t.core.keydef k).ops)
    → Returns (write rd mem t info rec) (Written t info rec)
write-Written rd mem t info rec w law =
    let ((core, r), run, a) = insert_row-Inserted mem t.core rec w law in
    write_of rd mem t info rec core r run a (insert_row-Lack mem t.core core rec r run)
