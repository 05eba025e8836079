-- ===== src/Handler/Estimates.antt =====
-- `info` and `records_in_range` of ha_fastmem.cc: what the optimizer is told of a table.
pub mod Bounds
use fastmem_mariadb.Prelude.{
  ℕ, ◌*◌, ◌/◌, ◌%◌, ◌-◌, ◌^◌, Bool, true, false, not, ◌||◌, Option, none, some, ◌==◌, ltb,
  if◌then◌else◌,
}
use fastmem_mariadb.Core.{u64_mod}
use fastmem_mariadb.Data.{Table, Info, info_of}

-- The members of the handler's `stats` that `info` sets, its `errkey`, and for each key the last entry of
-- `rec_per_key`.
pub record TableStats : Type 0 where
  pub errkey : ℕ
  pub records : ℕ
  pub deleted : ℕ
  pub mean_rec_length : ℕ
  pub data_file_length : ℕ
  pub index_file_length : ℕ
  pub max_data_file_length : ℕ
  pub delete_length : ℕ
  pub create_time : ℕ
  pub auto_increment_value : ℕ
  pub rec_per_key : ℕ → ℕ

-- A key of the server: whether it has `rec_per_key`, its flag `HA_NOSAME`, and `key_length`.
pub record ServerKey : Type 0 where
  pub has_rec_per_key : Bool
  pub nosame : Bool
  pub key_length : ℕ

unfoldable pub per_bucket : ℕ → ℕ → ℕ
per_bucket records nbuckets =
    let n = if ltb 1 records then records / nbuckets else 2 in if ltb n 2 then 2 else n

-- `info`; `spin` is the size of a spinlock, and `auto` the flag `HA_STATUS_AUTO`.
unfoldable pub handler_info :
    ℕ → Table → Info → ℕ → (ℕ → ServerKey) → Bool → TableStats → Info × TableStats
unfolding per_bucket info_of
handler_info spin t info keys server_key auto stats =
    let (info', fm) = info_of spin t info in
    let per_key = λ (i : ℕ).
      let key = server_key i in
      if ltb i keys
      then (if key.has_rec_per_key
          then (if key.nosame then 1 else per_bucket fm.records (t.core.keydef i).nbuckets)
          else stats.rec_per_key i)
      else stats.rec_per_key i in
    (
      info',
      record {
        errkey = fm.errkey;
        records = fm.records;
        deleted = fm.deleted;
        mean_rec_length = fm.reclength;
        data_file_length = fm.data_length;
        index_file_length = fm.index_length;
        max_data_file_length = fm.max_records * fm.reclength % u64_mod;
        delete_length = fm.deleted * fm.reclength % u64_mod;
        create_time = fm.create_time;
        auto_increment_value = if auto then fm.auto_increment else stats.auto_increment_value;
        rec_per_key = per_key;
      },
    )

-- The flags that the source names.
pub data RangeFlag : Type 0 where
  read_key_exact read_after_key other_flag : RangeFlag

-- `key_range`.
pub record KeyRange : Type 0 where
  pub length : ℕ
  pub flag : RangeFlag

abbrev pub is_exact : RangeFlag → Bool
is_exact read_key_exact = true
is_exact _ = false

abbrev pub is_after : RangeFlag → Bool
is_after read_after_key = true
is_after _ = false

-- Whether the range is one whole key.
unfoldable pub whole_key : ServerKey → Option KeyRange → Option KeyRange → Bool
whole_key key (some lo) (some hi) = not (
    not (lo.length == hi.length)
    || not (lo.length == key.key_length)
    || not (is_exact lo.flag)
    || not (is_after hi.flag))
whole_key key _ _ = false

-- `records_in_range`; `HA_POS_ERROR` is all ones.
unfoldable pub records_in_range :
    TableStats → (ℕ → ServerKey) → ℕ → Option KeyRange → Option KeyRange → ℕ
unfolding whole_key
records_in_range stats server_key inx min_key max_key =
    if not (whole_key (server_key inx) min_key max_key)
    then 2 ^ 64 - 1
    else if not (ltb 1 stats.records)
    then stats.records
    else stats.rec_per_key inx
