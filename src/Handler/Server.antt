-- ===== src/Handler/Server.antt =====
-- The calls of ha_fastmem.cc that work with the server's own functions and fields: write_row, the
-- auto-increment calls, delete_all_rows, positions, and the calls that the engine refuses.
pub mod WriteRow
pub mod Positions
pub mod Clears
use fastmem_mariadb.Prelude.{
  ℕ, ◌-◌, ◌&&◌, ◌||◌, Bool, true, false, not, Option, none, some, Run, done, ◌>>=◌, ◌==◌,
  if◌then◌else◌,
}
use fastmem_mariadb.Core.{Bytes, u64_mod}
use fastmem_mariadb.Core.Alloc.{Memory}
use fastmem_mariadb.Data.{HaCode, ha_ok, ha_wrong_command, Table, SlotRef}
use fastmem_mariadb.Data.AutoValue.{Readers, get_auto_increment, set_auto_increment}
use fastmem_mariadb.Data.Read.{set_position}
use fastmem_mariadb.Data.Write.{write}
use fastmem_mariadb.Registry.Handles.{clear_file}
use fastmem_mariadb.Handler.{Handler}
use fastmem_mariadb.Handler.Writes.{HandlerOutcome}

-- The server's `handler::update_auto_increment`, which may call the engine's `get_auto_increment` and
-- stores a value in the record: the table and the record behind it, and the code, or `none` for 0.
abbrev pub AutoIncrement : Type 0
AutoIncrement = Table → Bytes → Table × Bytes × Option HaCode

-- The table, the record and the error in front of `fm_write`.
abbrev pub numbered_row : AutoIncrement → Bool → Table → Bytes → Table × Bytes × Option HaCode
numbered_row auto numbered t buf = if numbered then auto t buf else (t, buf, none)

unfoldable pub write_numbered :
    Readers → Memory → Handler → Table × Bytes × Option HaCode → Run HandlerOutcome
write_numbered rd mem h (t, buf, some code) = done (t, h, code)
write_numbered rd mem h (t, buf, none) = do
  (t', info, code) ← write rd mem t h.file buf
  done (t', record h { file = info }, code)

-- `write_row`; `numbered` is `table->next_number_field && buf == table->record[0]`.
unfoldable pub write_row :
    Readers → Memory → AutoIncrement → Bool → Table → Handler → Bytes → Run HandlerOutcome
unfolding write_numbered
write_row rd mem auto numbered t h buf = write_numbered rd mem h (numbered_row auto numbered t buf)

-- `get_auto_increment`: the table, the first value, the number of values, and whether `my_errno` is set.
unfoldable pub get_handler_auto_increment : Table → ℕ → ℕ → ℕ → Table × ℕ × ℕ × Bool
get_handler_auto_increment t offset increment nb_desired =
    let (t', first, reserved) = get_auto_increment t offset increment nb_desired in
    (t', first, reserved, first == u64_mod - 1)

-- `reset_auto_increment`.
unfoldable pub reset_auto_increment : Table → ℕ → Table × HaCode
reset_auto_increment t value = (set_auto_increment t value, ha_ok)

-- `delete_all_rows`.
unfoldable pub delete_all_rows : Table → Handler → Run HandlerOutcome
delete_all_rows t h = do
  (t', info) ← clear_file t h.file
  done (t', record h { file = info }, ha_ok)

-- `position`.
unfoldable pub position : Handler → SlotRef
position h = set_position h.file

-- The calls that no index of the engine supports.
pub data Unsupported : Type 0 where
  index_prev index_first index_last disable_indexes enable_indexes : Unsupported

unfoldable pub refuse : Unsupported → HaCode
refuse call = ha_wrong_command

-- The fields of `HA_CREATE_INFO` that `update_create_info` and `check_if_incompatible_data` read.
pub record ServerCreateInfo : Type 0 where
  pub used_auto : Bool
  pub auto_increment_value : ℕ

-- `update_create_info`, where `stats_auto_increment` is what `info(HA_STATUS_AUTO)` has stored.
unfoldable pub update_create_info : ℕ → ServerCreateInfo → ServerCreateInfo
update_create_info stats_auto_increment info =
    if info.used_auto then info else record info { auto_increment_value = stats_auto_increment }

-- `check_if_incompatible_data`, by two tests of `table_changes`.
unfoldable pub check_if_incompatible_data : ServerCreateInfo → Bool → Bool → Bool
check_if_incompatible_data info is_equal_no is_equal_pack_length =
    not (
      info.used_auto && not (info.auto_increment_value == 0) || is_equal_no || is_equal_pack_length)
