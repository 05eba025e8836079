-- ===== src/Core/AutoInc/Threads/Alone.antt =====
-- A call on the auto-increment counter while no other thread uses it.
use fastmem_mariadb.Prelude.{
  ℕ, ◌<◌, ◌≤◌, ◌≡◌, refl, Option, none, some, inl, inr, Bool-cases, Option-cases, arith, ltb,
}
use fastmem_mariadb.Core.{Share, u64_mod}
use fastmem_mariadb.Core.AutoInc.{at_least_one, reserve_round, auto_inc_reserve, auto_inc_observe}
use fastmem_mariadb.Core.AutoInc.Threads.{
  Pc, idle, Event, granted, observed, Counter, set_counter, Move, start_reserve, load, overflow,
  swapped, start_observe, observe_loaded, not_above, raised,
}

-- The moves of a thread, with no other thread's between them, up to the event that its call ends in.
pub data Alone : Counter → Pc → Counter → Option Event → Type 0 where
  ends : {c c' : Counter} {p : Pc} {e : Option Event} → Move c p c' idle e → Alone c p c' e
  goes :
      {c c' c'' : Counter} {p q : Pc} {e : Option Event}
      → Move c p c' q none
      → Alone c' q c'' e
      → Alone c p c'' e

-- What the result of `auto_inc_reserve` says as an event.
abbrev pub granted_of : ℕ → Share × Option (ℕ × ℕ) → Option Event
granted_of inc (s, none) = none
granted_of inc (s, some (first, n)) = some (granted first s.auto_inc (at_least_one inc) n)

module _ (s : Share) (c : Counter) (same : c.value ≡ s.auto_inc) where
  -- For 64-bit arguments, the accesses of one reservation with no other thread's between them can lead to what
  -- `auto_inc_reserve` computes: the same counter, and the same interval or none.
  pub auto_inc_reserve-Alone :
      (offset inc nb : ℕ)
      → offset < u64_mod
      → inc < u64_mod
      → nb < u64_mod
      → let r = auto_inc_reserve s offset inc nb in
        (c' : Counter) × (c'.value ≡ r.0.auto_inc) × Alone c idle c' (granted_of inc r)
  unfolding auto_inc_reserve
  auto_inc_reserve-Alone offset inc nb a b d =
      let begin = start_reserve offset inc nb a b d in
      let now = load c.value (ground arith) in
      let off = at_least_one offset in
      let step = at_least_one inc in
      let n = at_least_one nb in
      elim (Option-cases
        (reserve_round s.auto_inc (at_least_one offset) (at_least_one inc) (at_least_one nb))) [
          | inl z ↦
              let over : reserve_round c.value off step n ≡ none = rw same z in
              rw (auto_inc_reserve, z) (c, same, goes begin (goes now (ends (overflow over))))
          | inr ((first, last), p) ↦
              let there : reserve_round c.value off step n ≡ some (first, last) = rw same p in
              rw (auto_inc_reserve, p)
                (set_counter c last, refl, goes begin (goes now (ends (swapped there refl))))
        ]

  pub auto_inc_observe-Alone :
      (value : ℕ)
      → value < u64_mod
      → (c' : Counter) × (c'.value ≡ (auto_inc_observe s value).auto_inc)
        × Alone c idle c' (some (observed value))
  unfolding auto_inc_observe
  auto_inc_observe-Alone value w = elim (Bool-cases (ltb s.auto_inc value)) [
    | inl y ↦
        let above : c.value < value = ground arith in
        rw y (
          set_counter c value,
          refl,
          goes (start_observe value w)
              (goes (observe_loaded c.value (ground arith)) (ends (raised above refl))),
        )
    | inr n ↦
        let not_more : value ≤ c.value = ground arith in
        rw n (
          c,
          same,
          goes (start_observe value w)
              (goes (observe_loaded c.value (ground arith)) (ends (not_above not_more))),
        )
  ]
