-- ===== src/Core/AutoInc.antt =====
-- The auto-increment counter of fm_core.h, in `fm_u64` arithmetic: `auto_inc` is the last value that
-- was handed out. One round of a compare-and-swap loop is a function of the value that it loaded.
pub mod Laws
pub mod Aligned
pub mod Threads
use fastmem_mariadb.Prelude.{
  ℕ, ◌+◌, ◌-◌, ◌*◌, ◌/◌, ◌%◌, Option, none, some, ◌==◌, ltb, leb, if◌then◌else◌,
}
use fastmem_mariadb.Core.{Share, u64_mod}

-- `a - b` on `fm_u64`.
unfoldable pub sub64 : ℕ → ℕ → ℕ
sub64 a b = (a + u64_mod - b) % u64_mod

-- `offset + ((v > offset ? v - offset : 0) + inc - 1) / inc * inc`.
unfoldable pub align_up : ℕ → ℕ → ℕ → ℕ
unfolding sub64
align_up v offset inc =
    let r = if ltb offset v then sub64 v offset else 0 in
    let steps = sub64 (r + inc) 1 / inc in (offset + steps * inc) % u64_mod

-- The first value of the interval when `inc > 1`; `none` where the source returns 0.
unfoldable pub aligned_first : ℕ → ℕ → ℕ → Option ℕ
unfolding align_up
aligned_first cur offset inc =
    let v = (cur + 1) % u64_mod in
    let v2 = align_up v offset inc in
    let w = (cur + inc) % u64_mod in
    let v3 = align_up w offset inc in
    if ltb v2 v
    then none
    else if leb v2 cur
    then (if leb w cur then none else if ltb v3 w then none else if v3 == 0 then none else some v3)
    else some v2

abbrev pub at_least_one : ℕ → ℕ
at_least_one n = if n == 0 then 1 else n

-- One round at the loaded value `cur`: the first and the last value, or `none` on overflow.
unfoldable pub reserve_round : ℕ → ℕ → ℕ → ℕ → Option (ℕ × ℕ)
unfolding aligned_first
reserve_round cur offset inc nb =
    let v = (cur + 1) % u64_mod in
    let first = if ltb 1 inc then aligned_first cur offset inc else some v in
    if v == 0 then none else elim first [
      | none ↦ none
      | some f ↦
          let last = (f + sub64 nb 1 * inc) % u64_mod in if ltb last f then none else some (f, last)
    ]

-- `fm_core_auto_inc_reserve` where no other thread changes the counter between the load and the
-- exchange. The result is the first value and `*reserved`, or `none` for the return value 0.
unfoldable pub auto_inc_reserve : Share → ℕ → ℕ → ℕ → Share × Option (ℕ × ℕ)
auto_inc_reserve s offset inc nb =
    elim (reserve_round s.auto_inc (at_least_one offset) (at_least_one inc) (at_least_one nb)) [
      | none ↦ (s, none)
      | some (first, last) ↦ (record s { auto_inc = last }, some (first, at_least_one nb))
    ]

-- `fm_core_auto_inc_observe`.
unfoldable pub auto_inc_observe : Share → ℕ → Share
auto_inc_observe s value = if ltb s.auto_inc value then record s { auto_inc = value } else s
