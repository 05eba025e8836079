-- ===== src/Data/Read.antt =====
-- Reads of fm_data.cc: positions, the scan and the point lookups.
use fastmem_mariadb.Prelude.{
  ℕ, ◌-◌, true, not, ◌&&◌, Option, none, some, Run, done, diverges, ◌>>=◌, ◌==◌, if◌then◌else◌,
}
use fastmem_mariadb.Core.{Status, err_ok, err_deleted, Bytes}
use fastmem_mariadb.Core.Lookup.{row, gone, read_row, scan_next, find, find_next}
use fastmem_mariadb.KeyDef.{KeyDef}
use fastmem_mariadb.Data.{
  HaCode, ha_ok, ha_end_of_file, ha_record_deleted, ha_key_not_found, no_flags, Table, Info,
  SlotRef, slot_gen, same_bytes,
}

-- What a read leaves: the handle, the returned code, and the image where the code is 0.
abbrev pub ReadOutcome : Type 0
ReadOutcome = Info × HaCode × Option Bytes

-- `fm_reread_locked`: the caller holds the row lock of the current slot.
unfoldable pub reread_locked : Table → Info → Run (Info × Status × Option Bytes)
reread_locked t info = elim info.current_slot [
  | none ↦ diverges
  | some idx ↦
      let g = slot_gen t idx in
      read_row t.core idx true g >>= elim [
        | row buf ↦ done (record info { current_gen = g }, err_ok, some buf)
        | gone ↦ done (info, err_deleted, none)
      ]
]

-- `fm_set_position`.
unfoldable pub set_position : Info → SlotRef
set_position info = record { slot = info.current_slot; gen = info.current_gen }

-- The handle on a row that a scan or a position found.
abbrev pub at_row : Info → ℕ → ℕ → Info
at_row info idx g = record info {
  current_slot = some idx;
  current_gen = g;
  current_hash_slot = none;
  update = record no_flags { prev_found = true; next_found = true; aktiv = true };
}

abbrev pub off_row : Info → Info
off_row info = record info { update = record no_flags { prev_found = true; next_found = true } }

-- `fm_rrnd`.
unfoldable pub rrnd : Table → Info → SlotRef → Run ReadOutcome
rrnd t info ref =
    let info' : Info = record info { lastinx = none } in
    elim ref.slot [
      | none ↦ done (record info' { update = no_flags }, ha_end_of_file, none)
      | some idx ↦ read_row t.core idx true ref.gen >>= elim [
        | gone ↦ done (off_row info', ha_record_deleted, none)
        | row buf ↦ done (at_row info' idx ref.gen, ha_ok, some buf)
      ]
    ]

-- `fm_scan_init`.
unfoldable pub scan_init : Info → Info
scan_init info = record info {
  lastinx = none;
  scan_pos = 0;
  current_slot = none;
  current_hash_slot = none;
  update = no_flags;
}

-- `fm_scan`.
unfoldable pub scan : Table → Info → Run ReadOutcome
scan t info = do
  (pos, buf) ← scan_next t.core info.scan_pos
  let info' : Info = record info { scan_pos = pos }
  done (elim buf [
    | none ↦ (off_row info', ha_end_of_file, none)
    | some rec ↦ (at_row info' (pos - 1) (slot_gen t (pos - 1)), ha_ok, some rec)
  ])

-- `memcpy(info->lastkey, key, length)` with its length.
abbrev pub keep_key : Info → KeyDef → Bytes → Info
keep_key info kd key = record info { lastkey = key; lastkey_len = kd.length }

-- What `fm_find_key` does with the result of the core. The callbacks of a key are set when its table
-- is opened, so `hash_rec` is not null.
unfoldable pub found_key : Table → Info → ℕ → Bytes → Option (ℕ × Bytes) → ReadOutcome
found_key t info inx key none =
    (record info { update = record no_flags { no_key = true } }, ha_key_not_found, none)
found_key t info inx key (some (idx, buf)) =
    let kd = t.keydef inx in
    let kept = if kd.nosame && not kd.null_part_key then info else keep_key info kd key in
    (
      record kept {
        lastinx = some inx;
        current_slot = some idx;
        current_gen = slot_gen t idx;
        update = record no_flags { aktiv = true };
      },
      ha_ok,
      some buf,
    )

-- `fm_find_key`.
unfoldable pub find_key : Table → Info → ℕ → Bytes → Run ReadOutcome
unfolding found_key
find_key t info inx key = find t.core inx key >>= λ r. done (found_key t info inx key r)

-- The row behind `cur` in the chain of a key.
unfoldable pub next_after : Table → ℕ → Bytes → Option ℕ → Run (Option (ℕ × Bytes))
next_after t inx key none = done none
next_after t inx key (some c) = find_next t.core inx key c

-- `fm_find_next_key`. The caller's slot −1 is in no chain.
unfoldable pub find_next_key : Table → Info → ℕ → Bytes → Option ℕ → Run ReadOutcome
find_next_key t info inx key cur =
    let kd = t.keydef inx in
    next_after t inx key cur >>= elim [
      | none ↦
          done
            (record info { update = record no_flags { next_found = true } }, ha_key_not_found, none)
      | some (idx, buf) ↦
          let same = kd.length == info.lastkey_len && same_bytes kd.length info.lastkey key in
          let kept = if same then info else keep_key info kd key in
          done (
            record kept {
              lastinx = some inx;
              current_slot = some idx;
              current_gen = slot_gen t idx;
              update = record no_flags { aktiv = true; next_found = true };
            },
            ha_ok,
            some buf,
          )
    ]
