-- ===== src/Data.antt =====
-- fm_data.cc: row operations of an open handle. The share of the table is passed along explicitly,
-- and every call of the core is one step. The field `current_slot` of a handle is `none` for −1; in C
-- an access to slot −1 is undefined, and a run that makes one has no result here. A record buffer
-- that a failed read leaves behind is never used, so a read has no image then.
pub mod Read
pub mod Write
pub mod AutoValue
use fastmem_mariadb.Prelude.{
  ℕ, zero, suc, ◌+◌, ◌*◌, ◌%◌, Bool, true, false, ◌&&◌, Option, none, some, [], ◌∷◌, Run, diverges,
  ◌==◌, ltb, if◌then◌else◌,
}
use fastmem_mariadb.KeyDef.{KeyDef}
use fastmem_mariadb.Core.{
  Share, KeyCore, Bytes, byte_at, rest_of, Status, err_full, err_nomem, err_deleted, err_dup_key,
  err_not_found, u64_mod, slot_count,
}

-- The values that the functions return: 0, or a code of MariaDB that they store in `my_errno`.
pub data HaCode : Type 0 where
  ha_ok ha_end_of_file ha_record_deleted ha_record_changed ha_found_dupp_key ha_key_not_found
        ha_record_file_full ha_out_of_mem ha_crashed ha_wrong_index ha_wrong_command :
      HaCode

-- `fm_core_error_to_ha`.
unfoldable pub error_to_ha : Status → HaCode
error_to_ha err_full = ha_record_file_full
error_to_ha err_nomem = ha_out_of_mem
error_to_ha err_deleted = ha_record_deleted
error_to_ha err_dup_key = ha_found_dupp_key
error_to_ha err_not_found = ha_key_not_found
error_to_ha _ = ha_crashed

-- A set of the flags `HA_STATE_*`.
pub record RowState : Type 0 where
  pub aktiv : Bool
  pub deleted : Bool
  pub prev_found : Bool
  pub next_found : Bool
  pub no_key : Bool

abbrev pub no_flags : RowState
no_flags = record {
  aktiv = false;
  deleted = false;
  prev_found = false;
  next_found = false;
  no_key = false;
}

-- The part of `FM_SHARE` that the row operations read.
pub record Table : Type 0 where
  pub core : Share
  pub keydef : ℕ → KeyDef
  pub create_time : ℕ

-- `FM_INFO`, less the buffers' addresses and the list of open handles. `read_check` is the flag
-- `READ_CHECK_USED` of `opt_flag`.
pub record Info : Type 0 where
  pub current_slot : Option ℕ
  pub current_gen : ℕ
  pub current_hash_slot : Option ℕ
  pub lastinx : Option ℕ
  pub errkey : ℕ
  pub update : RowState
  pub read_check : Bool
  pub scan_pos : ℕ
  pub lastkey : Bytes
  pub lastkey_len : ℕ

-- `FM_SLOT_REF`: a position in the 8 bytes of a `ref`.
pub record SlotRef : Type 0 where
  pub slot : Option ℕ
  pub gen : ℕ

abbrev pub slot_gen : Table → ℕ → ℕ
slot_gen t idx = (t.core.slot idx).gen

-- `!bcmp(a, b, n)`.
unfoldable pub same_bytes : ℕ → Bytes → Bytes → Bool
same_bytes zero a b = true
same_bytes (suc n) a b = byte_at a == byte_at b && same_bytes n (rest_of a) (rest_of b)

-- `fm_reset`.
unfoldable pub reset : Info → Info
reset info = record info {
  lastinx = none;
  scan_pos = 0;
  current_slot = none;
  current_hash_slot = none;
  update = no_flags;
}

-- The cases of `enum ha_extra_function` that the source names.
pub data Extra : Type 0 where
  reset_state no_readcheck readcheck change_key_to_unique change_key_to_dup other : Extra

-- The loop of `fm_extra` that makes the keys unique, or not.
unfoldable pub set_unique : Table → Bool → Table
set_unique t u =
    let core = t.core in
    record t {
      keydef = λ k.
          if ltb k core.keys
          then (let kd : KeyDef = record (t.keydef k) { nosame = u } in kd)
          else t.keydef k;
      core = record core {
        keydef = λ k.
            if ltb k core.keys
            then (let kc : KeyCore = record (core.keydef k) { unique = u } in kc)
            else core.keydef k;
      };
    }

-- `fm_extra`.
unfoldable pub extra : Table → Info → Extra → Table × Info
unfolding reset set_unique
extra t info reset_state = (t, reset info)
extra t info no_readcheck = (t, record info { read_check = false })
extra t info readcheck = (t, record info { read_check = true })
extra t info change_key_to_unique = (set_unique t true, info)
extra t info change_key_to_dup = (set_unique t false, info)
extra t info other = (t, info)

-- `FMINFO`.
pub record Stats : Type 0 where
  pub records : ℕ
  pub deleted : ℕ
  pub max_records : ℕ
  pub data_length : ℕ
  pub index_length : ℕ
  pub reclength : ℕ
  pub errkey : ℕ
  pub auto_increment : ℕ
  pub create_time : ℕ

-- The bytes of the bucket arrays of the keys `k`, …, `k + n - 1`: 4 for a head and the size of a
-- spinlock, `spin`, for each bucket.
unfoldable pub index_bytes : ℕ → ℕ → ℕ → (ℕ → KeyCore) → ℕ
index_bytes zero k spin keydef = 0
index_bytes (suc n) k spin keydef =
    ((keydef k).nbuckets * (4 + spin) + index_bytes n (suc k) spin keydef) % u64_mod

-- `fm_info`, which forgets the handle's `errkey`.
unfoldable pub info_of : ℕ → Table → Info → Info × Stats
unfolding index_bytes
info_of spin t info =
    let core = t.core in
    let slots = slot_count core in
    (
      record info { errkey = 0 },
      record {
        records = core.records;
        deleted = 0;
        max_records = core.max_records;
        data_length = (slots * core.slot_size + slots * core.keys * 4) % u64_mod;
        index_length = index_bytes core.keys 0 spin core.keydef;
        reclength = core.reclength;
        errkey = info.errkey;
        auto_increment = (core.auto_inc + 1) % u64_mod;
        create_time = t.create_time;
      },
    )
