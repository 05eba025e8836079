-- ===== src/Handler/Unique.antt =====
-- `find_unique_row` of ha_fastmem.cc: the row with the same values of a unique key.
pub mod Decides
use fastmem_mariadb.Prelude.{
  ℕ, Bool, true, false, not, Option, none, some, Run, done, ◌>>=◌, ◌++◌, if◌then◌else◌, drop,
  length,
}
use fastmem_mariadb.Core.{Bytes}
use fastmem_mariadb.Core.Lookup.{find}
use fastmem_mariadb.Data.{Table, Info, HaCode, ha_ok, ha_key_not_found, no_flags, slot_gen}
use fastmem_mariadb.Hash.{Server}
use fastmem_mariadb.Hash.MakeKey.{make_key}
use fastmem_mariadb.Handler.{Handler}
use fastmem_mariadb.Handler.Reads.{RowOutcome, lock_and_reread}

-- Whether the row is found (the result 0), with its image.
abbrev pub UniqueOutcome : Type 0
UniqueOutcome = Table × Handler × Bool × Option Bytes

abbrev pub unique_result : RowOutcome → UniqueOutcome
unique_result (t, h, ha_ok, buf) = (t, h, true, buf)
unique_result (t, h, code, buf) = (t, h, false, none)

-- The part behind `fm_core_find`; `fm_make_key` has written the key into `lastkey`.
unfoldable pub unique_found :
    (Table → Table) → Table → Handler → ℕ → Option (ℕ × Bytes) → Run UniqueOutcome
unfolding lock_and_reread
unique_found others t h unique_idx none = done (t, h, false, none)
unique_found others t h unique_idx (some (idx, buf)) =
    let info : Info = record h.file {
      current_slot = some idx;
      current_gen = slot_gen t idx;
      lastinx = some unique_idx;
      update = record no_flags { aktiv = true };
    } in
    let found : Handler = record h { file = info } in
    let locked =
      lock_and_reread ha_key_not_found (others t) found >>= λ r. done (unique_result r) in
    if h.write_stmt then locked else done (t, found, true, some buf)

unfoldable pub find_unique_row :
    Server → (Table → Table) → Table → Handler → Bytes → ℕ → Run UniqueOutcome
unfolding unique_found
find_unique_row sv others t h rec unique_idx =
    let kd = t.keydef unique_idx in
    let key = make_key sv kd.segs rec in
    let packed : Info = record h.file { lastkey = key ++ drop (length key) h.file.lastkey } in
    let h' : Handler = record h { file = packed } in
    let looked = find t.core unique_idx key >>= unique_found others t h' unique_idx in
    if not kd.nosame then done (t, h, false, none) else looked
