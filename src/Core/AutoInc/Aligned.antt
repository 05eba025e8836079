-- ===== src/Core/AutoInc/Aligned.antt =====
-- The values that `auto_inc_reserve` gives for a step above one.
use fastmem_mariadb.Prelude.{ℕ, ◌+◌, ◌*◌, ◌≤◌, ◌≡◌}

-- The least of the values `offset`, `offset + inc`, `offset + 2 * inc` and so on that is at least `v`.
abbrev pub IsNext : ℕ → ℕ → ℕ → ℕ → Type 0
IsNext v offset inc x =
    (v ≤ x)
    × ((k : ℕ) × (x ≡ offset + k * inc))
    × ((k : ℕ) → v ≤ offset + k * inc → x ≤ offset + k * inc)
