-- ===== src/Core/Wf/Unique.antt =====
-- The keys of a table whose values are unique, as the rows show them.
pub mod Kept
use fastmem_mariadb.Prelude.{ℕ, ◌<◌, ◌≡◌, ◌≢◌, true, false, some, ◌==◌}
use fastmem_mariadb.Core.{Share, Bytes}
use fastmem_mariadb.Core.Wf.{row_at}

-- No two rows have equal values of a unique key, unless one of them has a NULL part.
pub record IsUnique (s : Share) : Type 0 where
  pub apart :
      (k : ℕ)
      → k < s.keys
      → (s.keydef k).unique ≡ true
      → (i j : ℕ) (a b : Bytes) → (i == j) ≡ false
      → row_at s i ≡ some a
      → row_at s j ≡ some b
      → (s.keydef k).ops.has_null_part a ≡ false
      → (s.keydef k).ops.has_null_part b ≡ false
      → (s.keydef k).ops.cmp_rec_rec a b ≢ 0
