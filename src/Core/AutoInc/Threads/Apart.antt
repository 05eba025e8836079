-- ===== src/Core/AutoInc/Threads/Apart.antt =====
-- What the threads get from the auto-increment counter, in every order of their accesses.
use fastmem_mariadb.Prelude.{
  ℕ, ◌+◌, ◌-◌, ◌*◌, ◌%◌, ◌<◌, ◌≤◌, ◌≡◌, ◌≢◌, ◌==◌, Option, none, List, [], ◌∷◌, inl, inr,
  Bool-cases, arith,
}
use native.Mathlib.Nat.{mul-le-mul_right}
use fastmem_mariadb.Core.{u64_mod}
use fastmem_mariadb.Core.AutoInc.{sub64}
use fastmem_mariadb.Core.AutoInc.Laws.{reserve_round-lt}
use fastmem_mariadb.Core.AutoInc.Threads.{
  Pc, idle, reserve_load, reserve_swap, observe_load, observe_test, Event, granted, observed,
  Counter, set_counter, CanLoad, Move, start_reserve, load, overflow, swapped, retried,
  start_observe, observe_loaded, not_above, raised, observe_retried, System, note, Step, pick, init,
  Reach, start, later,
}

-- All that an event says lies below `bound`, and what each later one grants lies above it.
abbrev pub Below : ℕ → List Event → Type 0
Below bound [] = Unit
Below bound (granted first last inc n ∷ es) =
    (last < bound)
    × (first ≤ last)
    × (n < u64_mod)
    × (last ≡ (first + sub64 n 1 * inc) % u64_mod)
    × Below first es
Below bound (observed value ∷ es) = (value < bound) × Below bound es

-- No value of the counter was above its value now.
abbrev Highest : Counter → Type 0
Highest c = (v : ℕ) → CanLoad c v → v ≤ c.value

-- The arguments of a thread are 64-bit words, and what it loaded was a value of the counter.
abbrev PcOk : Counter → Pc → Type 0
PcOk c (reserve_swap offset inc nb cur) = (nb < u64_mod) × (cur ≤ c.value)
PcOk c (reserve_load offset inc nb) = nb < u64_mod
PcOk c (observe_load value) = value < u64_mod
PcOk c (observe_test value cur) = (value < u64_mod) × (cur ≤ c.value)
PcOk c _ = Unit

Below-le : (a b : ℕ) (es : List Event) → a ≤ b → Below a es → Below b es
Below-le a b [] le h = h
Below-le a b (granted first last inc n ∷ es) le (lo, h1, h2, h3, h4) = (omega arith, h1, h2, h3, h4)
Below-le a b (observed value ∷ es) le (lo, h) = (omega arith, Below-le a b es le h)

record Inv (s : System) : Type 0 where
  pub small : s.counter.value < u64_mod
  pub highest : Highest s.counter
  pub below : Below (s.counter.value + 1) s.events
  pub pcs : (i : ℕ) → PcOk s.counter (s.pc i)

init-Inv : (value : ℕ) → value < u64_mod → Inv (init value)
init-Inv value lt = record { small = lt; highest = λ v h. ground arith; below = tt; pcs = λ i. tt }

-- What one access keeps: the counter does not go down, and what it ends in fits the events so far.
record Kept (c c' : Counter) (p' : Pc) (e : Option Event) : Type 0 where
  pub up : c.value ≤ c'.value
  pub small' : c'.value < u64_mod
  pub highest' : Highest c'
  pub fits : (es : List Event) → Below (c.value + 1) es → Below (c'.value + 1) (note e es)
  pub ok : PcOk c' p'

PcOk-up : (c c' : Counter) (p : Pc) → c.value ≤ c'.value → PcOk c p → PcOk c' p
PcOk-up c c' idle up h = tt
PcOk-up c c' (reserve_load offset inc nb) up h = h
PcOk-up c c' (reserve_swap offset inc nb cur) up (w, h) = (w, omega arith)
PcOk-up c c' (observe_load value) up h = h
PcOk-up c c' (observe_test value cur) up (w, h) = (w, omega arith)

stays : (c : Counter) (p' : Pc) → c.value < u64_mod → Highest c → PcOk c p' → Kept c c p' none
stays c p' small high ok = record {
  up = omega arith;
  small' = small;
  highest' = high;
  fits = λ es h. h;
  ok = ok;
}

set_counter-Highest : (c : Counter) (v : ℕ) → Highest c → c.value ≤ v → Highest (set_counter c v)
set_counter-Highest c v high up = λ u m. ground (arith, high u)

Move-Kept :
    {c c' : Counter} {p p' : Pc} {e : Option Event}
    → Move c p c' p' e
    → c.value < u64_mod
    → Highest c
    → PcOk c p
    → Kept c c' p' e
Move-Kept {c = c} (start_reserve offset inc nb a b d) small high ok =
    stays c _ small high (ground arith)
Move-Kept {c = c} (load cur m) small high ok = stays c _ small high (ok, high cur m)
Move-Kept {c = c} (overflow r) small high ok = stays c _ small high tt
Move-Kept {c = c} (swapped {offset} {inc} {nb} {cur} {first} {last} r at) small high (w, o) =
    let (lo, mid, eq) = reserve_round-lt cur offset inc nb first last (omega arith) r in
    record {
      up = omega arith;
      small' = omega (arith, eq);
      highest' = set_counter-Highest c last high (omega arith);
      fits = λ es h. (omega arith, mid, w, eq, Below-le (c.value + 1) first es (omega arith) h);
      ok = tt;
    }
Move-Kept {c = c} (retried r) small high (w, o) = stays c _ small high w
Move-Kept {c = c} (start_observe value w) small high ok = stays c _ small high w
Move-Kept {c = c} (observe_loaded cur m) small high ok = stays c _ small high (ok, high cur m)
Move-Kept {c = c} (not_above {value} {cur} le) small high (w, o) = record {
  up = omega arith;
  small' = small;
  highest' = high;
  fits = λ es h. (omega arith, h);
  ok = tt;
}
Move-Kept {c = c} (raised {value} {cur} lt at) small high (w, o) = record {
  up = omega arith;
  small' = w;
  highest' = set_counter-Highest c value high (omega arith);
  fits = λ es h. (omega arith, Below-le (c.value + 1) (value + 1) es (omega arith) h);
  ok = tt;
}
Move-Kept {c = c} (observe_retried cur' lt m) small high (w, o) =
    stays c _ small high (w, high cur' m)

Step-Inv : {s t : System} → Inv s → Step s t → Inv t
Step-Inv {s} v (pick i {c} {p} {e} m) =
    let k = Move-Kept m v.small v.highest (v.pcs i) in
    record {
      small = k.small';
      highest = k.highest';
      below = k.fits s.events v.below;
      pcs = λ j. elim (Bool-cases (j == i)) [
        | inl same ↦ rw same (k.ok)
        | inr other ↦ rw other (PcOk-up s.counter c (s.pc j) k.up (v.pcs j))
      ];
    }

Reach-Inv : {value : ℕ} {s : System} → value < u64_mod → Reach value s → Inv s
Reach-Inv {value} lt start = init-Inv value lt
Reach-Inv lt (later r step) = Step-Inv (Reach-Inv lt r) step

-- The reservation's values fit into 64 bits, and `v` is one of them.
abbrev pub Takes : ℕ → ℕ → ℕ → ℕ → Type 0
Takes first inc n v = (first + (n - 1) * inc < u64_mod) × (j : ℕ) × (j < n) × (v ≡ first + j * inc)

-- No event before had the value.
abbrev pub IsNew : ℕ → List Event → Type 0
IsNew v [] = Unit
IsNew v (granted first last inc n ∷ es) = (Takes first inc n v → ⊥) × IsNew v es
IsNew v (observed value ∷ es) = (v ≢ value) × IsNew v es

-- Each value that a reservation takes is new.
abbrev pub NoneTwice : List Event → Type 0
NoneTwice [] = Unit
NoneTwice (granted first last inc n ∷ es) =
    ((v : ℕ) → Takes first inc n v → IsNew v es) × NoneTwice es
NoneTwice (observed value ∷ es) = NoneTwice es

last-above :
    (first last inc n v : ℕ)
    → last ≡ (first + sub64 n 1 * inc) % u64_mod
    → n < u64_mod
    → Takes first inc n v
    → v ≤ last
unfolding sub64
last-above first last inc n v e b (room, j, lt, at) =
    let steps : (n + u64_mod - 1) % u64_mod ≡ n - 1 = omega arith in
    let inside = mul-le-mul_right inc (let le : j ≤ n - 1 = omega arith in le) in
    rw (e, steps, at) (omega arith)

Below-IsNew : (v bound : ℕ) (es : List Event) → Below bound es → bound ≤ v → IsNew v es
Below-IsNew v bound [] h le = tt
Below-IsNew v bound (granted first last inc n ∷ es) (lo, mid, w, e, h) le = (
  λ t. absurd (let up = last-above first last inc n v e w t in omega arith),
  Below-IsNew v first es h (omega arith),
)
Below-IsNew v bound (observed value ∷ es) (lo, h) le =
    (λ p. absurd (omega arith), Below-IsNew v bound es h le)

Below-NoneTwice : (bound : ℕ) (es : List Event) → Below bound es → NoneTwice es
Below-NoneTwice bound [] h = tt
Below-NoneTwice bound (granted first last inc n ∷ es) (lo, mid, w, e, h) =
    (λ v (room, j, lt, at). Below-IsNew v first es h (omega arith), Below-NoneTwice first es h)
Below-NoneTwice bound (observed value ∷ es) (lo, h) = Below-NoneTwice bound es h

-- Whatever the order of the accesses of any number of threads to the counter: no value of a reservation whose
-- values fit into 64 bits was a value of such a reservation before, and none had been observed before. The
-- counter starts below 2 ^ 64.
pub Reach-NoneTwice :
    {value : ℕ} {s : System} → value < u64_mod → Reach value s → NoneTwice s.events
Reach-NoneTwice {s = s} lt r = Below-NoneTwice (s.counter.value + 1) s.events (Reach-Inv lt r).below
