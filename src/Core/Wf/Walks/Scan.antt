-- ===== src/Core/Wf/Walks/Scan.antt =====
-- The scan over a well-formed share.
use fastmem_mariadb.Prelude.{
  ℕ, zero, suc, ◌+◌, ◌-◌, ◌≤◌, ◌<◌, ◌≡◌, refl, false, Option, none, some, Returns, inl, inr,
  Bool-cases, arith,
}
use fastmem_mariadb.Core.{Share, Bytes, slot_count}
use fastmem_mariadb.Core.Lookup.{scan_loop, scan_next}
use fastmem_mariadb.Core.Wf.{Wf, active_at, row_at}
use fastmem_mariadb.Core.Wf.Walks.{IsQuiet, Wf-IsQuiet, read_row_lem}

-- What the scan of the `n` slots from `pos` on says: the first row, or that there is none.
abbrev Passed : Share → ℕ → ℕ → ℕ × Option Bytes → Type 0
Passed s pos n (pos', none) = (i : ℕ) → pos ≤ i → i < pos + n → row_at s i ≡ none
Passed s pos n (pos', some buf) =
    (j : ℕ) × (pos' ≡ j + 1)
    × (pos ≤ j)
    × (row_at s j ≡ some buf)
    × ((i : ℕ) → pos ≤ i → i < j → row_at s i ≡ none)

Passed-step :
    (s : Share) (pos n : ℕ) (r : ℕ × Option Bytes)
    → active_at s pos ≡ false
    → Passed s (pos + 1) n r
    → Passed s pos (suc n) r
unfolding row_at
Passed-step s pos n (pos', none) off p = λ i a b. ground (arith, p i, off)
Passed-step s pos n (pos', some buf) off (j, e, le, here, p) =
    (j, e, omega arith, here, λ i a b. ground (arith, p i, off))

module _ {s : Share} (q : IsQuiet s) where
  scan_loop-Passed : (n pos : ℕ) → Returns (scan_loop n s pos) (Passed s pos n)
  unfolding scan_loop row_at
  scan_loop-Passed zero pos = ((pos, none), refl, λ i a b. absurd (omega arith))
  scan_loop-Passed (suc n) pos = elim (Bool-cases (active_at s pos)) [
    | inl on ↦ (
      (pos + 1, some (s.slot pos).image),
      rw (read_row_lem q pos, on) refl,
      (pos, refl, omega arith, rw on refl, λ i a b. absurd (omega arith)),
    )
    | inr off ↦
        let (r, run, p) = scan_loop-Passed n (pos + 1) in
        (r, rw (read_row_lem q pos, off) run, Passed-step s pos n r off p)
  ]

-- What one call of the scan says.
abbrev pub Scanned : Share → ℕ → ℕ × Option Bytes → Type 0
Scanned s pos (pos', none) = (i : ℕ) → pos ≤ i → row_at s i ≡ none
Scanned s pos (pos', some buf) =
    (j : ℕ) × (pos' ≡ j + 1)
    × (pos ≤ j)
    × (row_at s j ≡ some buf)
    × ((i : ℕ) → pos ≤ i → i < j → row_at s i ≡ none)

Passed-Scanned :
    (s : Share) (pos : ℕ) (r : ℕ × Option Bytes)
    → IsQuiet s
    → Passed s pos (slot_count s - pos) r
    → Scanned s pos r
unfolding row_at
Passed-Scanned s pos (pos', none) q p = λ i a. ground (arith, p i a, q.below i)
Passed-Scanned s pos (pos', some buf) q p = p

-- One call of the scan on a well-formed table ends. It gives the row of the first slot from the position
-- on that has one, and leaves the position right behind that slot; or no slot from the position on has a
-- row.
pub scan_next-Scanned : (s : Share) (pos : ℕ) → Wf s → Returns (scan_next s pos) (Scanned s pos)
unfolding scan_next
scan_next-Scanned s pos w =
    let (r, run, p) = scan_loop-Passed (Wf-IsQuiet w) (slot_count s - pos) pos in
    (r, run, Passed-Scanned s pos r (Wf-IsQuiet w) p)
