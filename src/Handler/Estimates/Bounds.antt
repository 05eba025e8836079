-- ===== src/Handler/Estimates/Bounds.antt =====
-- The estimate of a range against the rows that there are.
use native.Mathlib.Nat.{div-le_self}
use fastmem_mariadb.Prelude.{ℕ, ◌≤◌, ◌<◌, ◌≡◌, ◌==◌, true, Bool, Option, arith}
use fastmem_mariadb.Data.{Table, Info, info_of}
use fastmem_mariadb.Handler.Estimates.{
  TableStats, ServerKey, per_bucket, handler_info, KeyRange, whole_key, records_in_range,
}

per_bucket-bounds :
    (records nbuckets : ℕ)
    → 1 < records
    → (0 < per_bucket records nbuckets) × (per_bucket records nbuckets ≤ records)
unfolding per_bucket
per_bucket-bounds records nbuckets many = ground (arith, div-le_self records nbuckets)

-- Right after `info`, the estimate of `records_in_range` for one whole key is at most the number of rows, and
-- 0 exactly where the table has none. The server keeps `rec_per_key` of the key.
pub records_in_range-bounds :
    (spin : ℕ) (t : Table) (info : Info) (keys : ℕ) (server_key : ℕ → ServerKey) (auto : Bool)
    (stats : TableStats) (inx : ℕ) (min_key max_key : Option KeyRange)
    → inx < keys
    → (server_key inx).has_rec_per_key ≡ true
    → whole_key (server_key inx) min_key max_key ≡ true
    → let told = (handler_info spin t info keys server_key auto stats).1 in
      let n = records_in_range told server_key inx min_key max_key in
      (n ≤ t.core.records) × ((n == 0) ≡ (t.core.records == 0))
unfolding records_in_range handler_info info_of
records_in_range-bounds spin t info keys server_key auto stats inx min_key max_key lt has whole =
    ground (arith, per_bucket-bounds t.core.records (t.core.keydef inx).nbuckets)
