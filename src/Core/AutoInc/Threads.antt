-- ===== src/Core/AutoInc/Threads.antt =====
-- The auto-increment counter of fm_core.h under any number of threads: the loops of
-- `fm_core_auto_inc_reserve` and `fm_core_auto_inc_observe`, an access of the counter at a time. A load
-- may give any value that the counter has had, and so may a `compare_exchange_weak` that fails; one
-- that succeeds has compared with the value now, and any may fail for no reason.
pub mod Apart
pub mod Alone
use fastmem_mariadb.Prelude.{ℕ, ◌<◌, ◌≤◌, ◌≡◌, true, Option, none, some, List, [], ◌∷◌, has, update}
use fastmem_mariadb.Core.{u64_mod}
use fastmem_mariadb.Core.AutoInc.{at_least_one, reserve_round}

-- Where a thread stands, with the arguments of its call after `0` is made `1`.
pub data Pc : Type 0 where
  idle : Pc
  reserve_load : (offset inc nb : ℕ) → Pc
  reserve_swap : (offset inc nb cur : ℕ) → Pc
  observe_load : (value : ℕ) → Pc
  observe_test : (value cur : ℕ) → Pc

-- What callers have got: an interval of `n` values in steps of `inc` that was reserved, or the return
-- of an observation.
pub data Event : Type 0 where
  granted : (first last inc n : ℕ) → Event
  observed : (value : ℕ) → Event

-- The counter with the values that it has had before, the latest first.
pub record Counter : Type 0 where
  pub value : ℕ
  pub past : List ℕ

abbrev pub set_counter : Counter → ℕ → Counter
set_counter c v = record { value = v; past = c.value ∷ c.past }

abbrev pub CanLoad : Counter → ℕ → Type 0
CanLoad c v = has v (c.value ∷ c.past) ≡ true

-- One access of one thread, with the event that it ends in, if any.
pub data Move (c : Counter) : Pc → Counter → Pc → Option Event → Type 0 where
  start_reserve :
      (offset inc nb : ℕ)
      → offset < u64_mod
      → inc < u64_mod
      → nb < u64_mod
      → Move c idle c (reserve_load (at_least_one offset) (at_least_one inc) (at_least_one nb)) none
  load :
      {offset inc nb : ℕ} (cur : ℕ)
      → CanLoad c cur
      → Move c (reserve_load offset inc nb) c (reserve_swap offset inc nb cur) none
  overflow :
      {offset inc nb cur : ℕ}
      → reserve_round cur offset inc nb ≡ none
      → Move c (reserve_swap offset inc nb cur) c idle none
  swapped :
      {offset inc nb cur first last : ℕ}
      → reserve_round cur offset inc nb ≡ some (first, last)
      → c.value ≡ cur
      → Move c
          (reserve_swap offset inc nb cur)
          (set_counter c last)
          idle
          (some (granted first last inc nb))
  retried :
      {offset inc nb cur first last : ℕ}
      → reserve_round cur offset inc nb ≡ some (first, last)
      → Move c (reserve_swap offset inc nb cur) c (reserve_load offset inc nb) none
  start_observe : (value : ℕ) → value < u64_mod → Move c idle c (observe_load value) none
  observe_loaded :
      {value : ℕ} (cur : ℕ)
      → CanLoad c cur
      → Move c (observe_load value) c (observe_test value cur) none
  not_above :
      {value cur : ℕ} → value ≤ cur → Move c (observe_test value cur) c idle (some (observed value))
  raised :
      {value cur : ℕ}
      → cur < value
      → c.value ≡ cur
      → Move c (observe_test value cur) (set_counter c value) idle (some (observed value))
  observe_retried :
      {value cur : ℕ} (cur' : ℕ)
      → cur < value
      → CanLoad c cur'
      → Move c (observe_test value cur) c (observe_test value cur') none

-- The counter, the threads by number, and the events so far, the latest first.
pub record System : Type 0 where
  pub counter : Counter
  pub pc : ℕ → Pc
  pub events : List Event

abbrev pub note : Option Event → List Event → List Event
note none es = es
note (some e) es = e ∷ es

pub data Step (s : System) : System → Type 0 where
  pick :
      (i : ℕ) {c : Counter} {p : Pc} {e : Option Event}
      → Move s.counter (s.pc i) c p e
      → Step s (record { counter = c; pc = update s.pc i p; events = note e s.events })

-- A share whose counter starts at `value`.
abbrev pub init : ℕ → System
init value = record { counter = record { value = value; past = [] }; pc = λ i. idle; events = [] }

pub data Reach (value : ℕ) : System → Type 0 where
  start : Reach value (init value)
  later : {s t : System} → Reach value s → Step s t → Reach value t
