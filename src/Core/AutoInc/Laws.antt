-- ===== src/Core/AutoInc/Laws.antt =====
-- Intervals of auto-increment values.
use fastmem_mariadb.Prelude.{
  ℕ, ◌+◌, ◌-◌, ◌*◌, ◌%◌, ◌≤◌, ◌<◌, ◌≡◌, ap, ◌∙◌, some, ltb, inl, inr, Bool-cases, Option-cases,
  arith,
}
use fastmem_mariadb.Core.{Share, u64_mod}
use fastmem_mariadb.Core.AutoInc.{
  sub64, align_up, aligned_first, at_least_one, reserve_round, auto_inc_reserve,
}

align_up-lt : (v offset inc : ℕ) → align_up v offset inc < u64_mod
unfolding align_up
align_up-lt v offset inc = omega arith

aligned_first-lt :
    (cur offset inc first : ℕ)
    → aligned_first cur offset inc ≡ some first
    → (cur < first) × (first < u64_mod)
unfolding aligned_first
aligned_first-lt cur offset inc first e = ground (
  arith,
  align_up-lt ((cur + 1) % u64_mod) offset inc,
  align_up-lt ((cur + inc) % u64_mod) offset inc,
)

-- Whatever the arguments, a value that a round hands out is above the counter that it loaded, and
-- the counter moves to the last value of the interval.
pub reserve_round-lt :
    (cur offset inc nb first last : ℕ)
    → cur < u64_mod
    → reserve_round cur offset inc nb ≡ some (first, last)
    → (cur < first) × (first ≤ last) × (last ≡ (first + sub64 nb 1 * inc) % u64_mod)
unfolding reserve_round
reserve_round-lt cur offset inc nb first last c e = elim (Bool-cases (ltb 1 inc)) [
  | inl a ↦ elim (Option-cases (aligned_first cur offset inc)) [
    | inl n ↦ ground arith
    | inr (f, p) ↦ let (lo, hi) = aligned_first-lt cur offset inc f p in ground arith
  ]
  | inr a ↦ ground arith
]

auto_inc_reserve-round :
    (s s' : Share)
    → (offset inc nb first n : ℕ) → auto_inc_reserve s offset inc nb ≡ (s', some (first, n))
    → (reserve_round s.auto_inc (at_least_one offset) (at_least_one inc) (at_least_one nb)
        ≡ some (first, s'.auto_inc))
      × (n ≡ at_least_one nb)
unfolding auto_inc_reserve
auto_inc_reserve-round s s' offset inc nb first n e =
    elim (Option-cases
      (reserve_round s.auto_inc (at_least_one offset) (at_least_one inc) (at_least_one nb))) [
        | inl p ↦ ground arith
        | inr (x, p) ↦ ground arith
      ]

sub64-pred : (nb n : ℕ) → nb < u64_mod → n ≡ at_least_one nb → sub64 (at_least_one nb) 1 ≡ n - 1
unfolding sub64
sub64-pred nb n b e = ground arith

mod_small : {a : ℕ} → a < u64_mod → a % u64_mod ≡ a
mod_small {a} h = omega arith

-- Where two calls in a row reserve values, from a counter and for a number of values that fit into 64
-- bits, and the last value of the first call fits too: the first call's values are above the counter
-- that it found, the counter stands on the last of them behind it, and the second call's values are
-- above that.
pub auto_inc_reserve-disjoint :
    (s s1 s2 : Share)
    → (offset inc nb first n offset' inc' nb' first' n' : ℕ) → s.auto_inc < u64_mod
    → nb < u64_mod
    → auto_inc_reserve s offset inc nb ≡ (s1, some (first, n))
    → auto_inc_reserve s1 offset' inc' nb' ≡ (s2, some (first', n'))
    → first + (n - 1) * at_least_one inc < u64_mod
    → (s.auto_inc < first)
      × (s1.auto_inc ≡ first + (n - 1) * at_least_one inc)
      × (first + (n - 1) * at_least_one inc < first')
auto_inc_reserve-disjoint s s1 s2 offset inc nb first n offset' inc' nb' first' n' c b e e' room =
    let (r, m) = auto_inc_reserve-round s s1 offset inc nb first n e in
    let (r', m') = auto_inc_reserve-round s1 s2 offset' inc' nb' first' n' e' in
    let (above, upto, last) =
      reserve_round-lt s.auto_inc (at_least_one offset) (at_least_one inc) (at_least_one nb) first
        s1.auto_inc c r in
    let steps : sub64 (at_least_one nb) 1 ≡ n - 1 = sub64-pred nb n b m in
    let counter : s1.auto_inc ≡ first + (n - 1) * at_least_one inc =
      last ∙ ap (λ x. (first + x * at_least_one inc) % u64_mod) steps ∙ mod_small room in
    let small : s1.auto_inc < u64_mod = omega arith in
    let (above', _, _) =
      reserve_round-lt s1.auto_inc (at_least_one offset') (at_least_one inc') (at_least_one nb')
        first' s2.auto_inc small r' in
    (above, counter, omega arith)
