-- ===== src/Data/Write.antt =====
-- Writes of fm_data.cc.
pub mod Stores
use fastmem_mariadb.Prelude.{ℕ, true, Option, none, some, Run, done, diverges, ◌>>=◌, if◌then◌else◌}
use fastmem_mariadb.Core.{Status, Share, err_ok, err_dup_key, Bytes}
use fastmem_mariadb.Core.Alloc.{Memory}
use fastmem_mariadb.Core.Lookup.{row, gone, read_row}
use fastmem_mariadb.Core.Insert.{inserted, duplicate, no_slot, insert_row}
use fastmem_mariadb.Core.Update.{UpdateResult, update_row, update_row_locked}
use fastmem_mariadb.Core.Delete.{delete_row, delete_row_locked}
use fastmem_mariadb.Data.{
  HaCode, ha_ok, ha_record_deleted, ha_record_changed, ha_found_dupp_key, error_to_ha, no_flags,
  Table, Info, slot_gen, same_bytes,
}
use fastmem_mariadb.Data.AutoValue.{Readers, update_auto_increment}

abbrev pub WriteOutcome : Type 0
WriteOutcome = Table × Info × HaCode

-- `fm_write`.
unfoldable pub write : Readers → Memory → Table → Info → Bytes → Run WriteOutcome
write rd mem t info rec = do
  (core, r) ← insert_row mem t.core rec
  let t' : Table = record t { core = core }
  done (elim r [
    | no_slot rc ↦ (t', info, error_to_ha rc)
    | duplicate ek ↦ (t', record info { errkey = ek }, ha_found_dupp_key)
    | inserted idx ↦ (
      update_auto_increment rd t' rec,
      record info {
        lastinx = none;
        current_hash_slot = none;
        current_slot = some idx;
        current_gen = slot_gen t' idx;
        update = record no_flags { aktiv = true };
      },
      ha_ok,
    )
  ])

-- The read check in front of an update or a delete: the code that it returns early, or 0.
unfoldable pub read_check : Table → Info → ℕ → Bytes → Run HaCode
read_check t info idx old =
    if info.read_check
    then (read_row t.core idx true info.current_gen >>= elim [
      | gone ↦ done ha_record_deleted
      | row buf ↦ done (if same_bytes t.core.reclength old buf then ha_ok else ha_record_changed)
    ])
    else done ha_ok

-- What `fm_update` does with the result of the core.
unfoldable pub after_update : Readers → Table → Info → Bytes → UpdateResult → WriteOutcome
after_update rd t info newdata (core, err_ok, ek) =
    let t' : Table = record t { core = core } in
    (
      update_auto_increment rd t' newdata,
      record info { update = record no_flags { aktiv = true }; current_hash_slot = none },
      ha_ok,
    )
after_update rd t info newdata (core, err_dup_key, ek) =
    let key : ℕ = elim ek [ none ↦ 0 | some k ↦ k ] in
    (record t { core = core }, record info { errkey = key }, ha_found_dupp_key)
after_update rd t info newdata (core, rc, ek) = (record t { core = core }, info, error_to_ha rc)

-- The read check of the current slot, and the work on it where the check passes.
unfoldable pub checked : Table → Info → Bytes → (ℕ → Run WriteOutcome) → Option ℕ → Run WriteOutcome
checked t info old work none = diverges
checked t info old work (some idx) =
    let go = work idx in
    read_check t info idx old >>= elim [ ha_ok ↦ go | code ↦ done (t, info, code) ]

-- `fm_update_locked`: the caller holds the row lock.
unfoldable pub update_locked : Readers → Table → Info → Bytes → Bytes → Run WriteOutcome
unfolding checked
update_locked rd t info old newdata =
    checked t info old
      (λ idx. update_row_locked t.core idx info.current_gen old newdata >>= λ r.
        done (after_update rd t info newdata r))
      info.current_slot

-- `fm_update`.
unfoldable pub update : Readers → Table → Info → Bytes → Bytes → Run WriteOutcome
unfolding checked
update rd t info old newdata =
    checked t info old
      (λ idx. update_row t.core idx info.current_gen old newdata >>= λ r.
        done (after_update rd t info newdata r))
      info.current_slot

-- What `fm_delete` does with the result of the core.
unfoldable pub after_delete : Table → Info → Share × Status → WriteOutcome
after_delete t info (core, err_ok) = (
  record t { core = core },
  record info {
    update = record no_flags { deleted = true };
    current_slot = none;
    current_hash_slot = none;
  },
  ha_ok,
)
after_delete t info (core, rc) = (record t { core = core }, info, error_to_ha rc)

-- `fm_delete_locked`: the caller holds the row lock.
unfoldable pub delete_locked : Table → Info → Bytes → Run WriteOutcome
delete_locked t info buf =
    checked t info buf
      (λ idx. delete_row_locked t.core idx info.current_gen >>= λ r. done (after_delete t info r))
      info.current_slot

-- `fm_delete`.
unfoldable pub delete : Table → Info → Bytes → Run WriteOutcome
delete t info buf =
    checked t info buf
      (λ idx. delete_row t.core idx info.current_gen >>= λ r. done (after_delete t info r))
      info.current_slot
