-- ===== src/Data/AutoValue.antt =====
-- Auto-increment of fm_data.cc. The readers of integers and floats in a record are MariaDB's.
use fastmem_mariadb.Prelude.{drop, ℕ, ◌-◌, ◌^◌, none, some, ◌==◌, ltb, if◌then◌else◌}
use fastmem_mariadb.Core.{Share, Bytes, u64_mod}
use fastmem_mariadb.Core.AutoInc.{auto_inc_reserve, auto_inc_observe}
use fastmem_mariadb.KeyDef.{first_start}
use fastmem_mariadb.Data.{Table}

-- The constants `HA_KEYTYPE_*` of the switch.
pub data KeyType : Type 0 where
  int8 binary short_int ushort_int long_int ulong_int int24 uint24 float double longlong ulonglong
        other_type :
      KeyType

-- MariaDB's readers. `uint n` and `sint n` read `n` bytes, the latter as a 64-bit two's complement
-- pattern; `float_value` and `double_value` cut a value that is not negative to an integer, and are
-- 0 on the others.
pub record Readers : Type 0 where
  pub type_of : ℕ → KeyType
  pub uint : ℕ → Bytes → ℕ
  pub sint : ℕ → Bytes → ℕ
  pub float_value : Bytes → ℕ
  pub double_value : Bytes → ℕ

-- `s_value > 0 ? s_value : 0` for the pattern of `s_value`.
abbrev pub positive_part : ℕ → ℕ
positive_part p = if ltb p (2 ^ 63) then p else 0

-- The value that the switch reads from the key's first column.
unfoldable pub auto_value : Readers → KeyType → Bytes → ℕ
auto_value rd int8 key = positive_part (rd.sint 1 key)
auto_value rd binary key = rd.uint 1 key
auto_value rd short_int key = positive_part (rd.sint 2 key)
auto_value rd ushort_int key = rd.uint 2 key
auto_value rd long_int key = positive_part (rd.sint 4 key)
auto_value rd ulong_int key = rd.uint 4 key
auto_value rd int24 key = positive_part (rd.sint 3 key)
auto_value rd uint24 key = rd.uint 3 key
auto_value rd float key = rd.float_value key
auto_value rd double key = rd.double_value key
auto_value rd longlong key = positive_part (rd.sint 8 key)
auto_value rd ulonglong key = rd.uint 8 key
auto_value rd other_type key = 0

-- `fm_update_auto_increment`.
unfoldable pub update_auto_increment : Readers → Table → Bytes → Table
unfolding auto_value
update_auto_increment rd t rec =
    let core = t.core in
    let key = drop (first_start (t.keydef (core.auto_key - 1)).segs) rec in
    let value = auto_value rd (rd.type_of core.auto_key_type) key in
    if core.auto_key == 0 then t else record t { core = auto_inc_observe core value }

-- `fm_get_auto_increment`: the first value and `*nb_reserved_values`; on overflow `~0` and 0.
unfoldable pub get_auto_increment : Table → ℕ → ℕ → ℕ → Table × ℕ × ℕ
get_auto_increment t offset inc nb =
    let (core, r) = auto_inc_reserve t.core offset inc nb in
    elim r [
      | none ↦ (record t { core = core }, u64_mod - 1, 0)
      | some (first, n) ↦ (record t { core = core }, first, n)
    ]

-- `fm_set_auto_increment`: the value is the next one to use.
unfoldable pub set_auto_increment : Table → ℕ → Table
set_auto_increment t value =
    let core = t.core in
    let next = value - 1 in
    if ltb core.auto_inc next
    then (let core' : Share = record core { auto_inc = next } in record t { core = core' })
    else t
