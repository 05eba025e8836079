-- ===== src/Core/Locking/Finish.antt =====
-- Threads that take their locks in order get to the end of their work.
use fastmem_mariadb.Prelude.{
  ℕ, zero, suc, ◌+◌, ◌≤◌, ◌<◌, ◌≡◌, ◌≢◌, ◌⊎◌, refl, ◌∙◌, ap, List, [], ◌∷◌, ◌==◌, inl, inr,
  Bool-cases, arith, ==_refl, ltb, length,
}
use mathlib.Core.Path.{subst}
use fastmem_mariadb.Core.{Share, u32_mod}
use fastmem_mariadb.Core.Locking.{
  Action, acquire, release, Part, System, Step, takes_lock, gives_lock, init, Reach, start, later,
  actions,
}
use fastmem_mariadb.Core.Locking.Progress.{Inv, Step-Inv, any_steps, NoClear, init-Inv, Reach-Inv}

-- Steps one after another.
pub data Runs : System → System → Type 0 where
  here : {u : System} → Runs u u
  step : {u v w : System} → Step u v → Runs v w → Runs u w

-- The actions that the first `n` threads have left.
abbrev left_of : ℕ → System → ℕ
left_of zero s = 0
left_of (suc n) s = left_of n s + length (s.thread n).todo

left_of-same :
    (n : ℕ) (s t : System)
    → ((i : ℕ) → i < n → length (t.thread i).todo ≡ length (s.thread i).todo)
    → left_of n t ≡ left_of n s
left_of-same zero s t same = refl
left_of-same (suc n) s t same =
    let rest = left_of-same n s t (λ i lt. same i (omega arith)) in
    omega (arith, same n (omega arith))

-- One thread's list is shorter by one, and the others are the same.
left_of-less :
    (n i : ℕ) (s t : System)
    → i < n
    → length (s.thread i).todo ≡ suc (length (t.thread i).todo)
    → ((j : ℕ) → j ≢ i → length (t.thread j).todo ≡ length (s.thread j).todo)
    → left_of n s ≡ suc (left_of n t)
left_of-less zero i s t lt less same = absurd (omega arith)
left_of-less (suc n) i s t lt less same = elim (Bool-cases (i == n)) [
  | inl at ↦
      let p : i ≡ n = ground arith in
      let rest = left_of-same n s t (λ j lt'. same j (λ q. absurd (omega arith))) in
      let last : length (s.thread n).todo ≡ suc (length (t.thread n).todo) =
        subst (λ k. length (s.thread k).todo ≡ suc (length (t.thread k).todo)) p less in
      omega arith
  | inr off ↦
      let rest = left_of-less n i s t (ground arith) less same in
      omega (arith, same n (λ q. absurd (ground arith)))
]

abbrev Idle : ℕ → System → Type 0
Idle n s = (i : ℕ) → n ≤ i → (s.thread i).todo ≡ []

-- A thread that goes on is one of the first `n`.
busy-lt :
    (n i : ℕ) (s : System) (a : Action) (rest : List Action)
    → Idle n s
    → (s.thread i).todo ≡ a ∷ rest
    → i < n
busy-lt n i s a rest idle e = elim (Bool-cases (ltb i n)) [
  | inl lt ↦ ground arith
  | inr ge ↦ absurd (ground (arith, idle i))
]

-- What a step leaves each thread to do.
record Took (n : ℕ) (s t : System) (i : ℕ) : Type 0 where
  pub lt : i < n
  pub less : length (s.thread i).todo ≡ suc (length (t.thread i).todo)
  pub same : (j : ℕ) → j ≢ i → (t.thread j).todo ≡ (s.thread j).todo

Step-Took : (n : ℕ) {s t : System} → Idle n s → Step s t → (i : ℕ) × Took n s t i
Step-Took n {s} idle (takes_lock i l rest e free) = (
  i,
  record {
    lt = busy-lt n i s (acquire l) rest idle e;
    less = rw (==_refl i) (ap length e);
    same = λ j off. ground arith;
  },
)
Step-Took n {s} idle (gives_lock i l rest e) = (
  i,
  record {
    lt = busy-lt n i s (release l) rest idle e;
    less = rw (==_refl i) (ap length e);
    same = λ j off. ground arith;
  },
)

todo_cases : (todo : List Action) → (todo ≡ []) ⊎ (todo ≢ [])
todo_cases [] = inl refl
todo_cases (a ∷ rest) = inr (λ e. absurd (ground arith))

-- The threads are done, or one of them is not.
find_work :
    (n : ℕ) (s : System)
    → ((i : ℕ) → i < n → (s.thread i).todo ≡ []) ⊎ ((i : ℕ) × ((s.thread i).todo ≢ []))
find_work zero s = inl (λ i lt. absurd (omega arith))
find_work (suc n) s = elim (find_work n s) [
  | inr more ↦ inr more
  | inl all ↦ elim (todo_cases (s.thread n).todo) [
    | inr more ↦ inr (n, more)
    | inl over ↦ inl (λ i lt. elim (Bool-cases (i == n)) [
      | inl at ↦ let p : n ≡ i = ground arith in subst (λ k. (s.thread k).todo ≡ []) p over
      | inr off ↦ all i (ground arith)
    ])
  ]
]

Step-Idle : (n : ℕ) {s t : System} → Idle n s → Step s t → Idle n t
Step-Idle n {s} {t} idle move i le =
    let (k, took) = Step-Took n idle move in
    took.same i (λ e. absurd (omega (arith, took.lt))) ∙ idle i le

Step-left_of : (n : ℕ) {s t : System} → Idle n s → Step s t → left_of n s ≡ suc (left_of n t)
Step-left_of n {s} {t} idle move =
    let (k, took) = Step-Took n idle move in
    left_of-less n k s t took.lt took.less (λ j off. ap length (took.same j off))

all_over :
    (n : ℕ) (s : System)
    → ((i : ℕ) → i < n → (s.thread i).todo ≡ [])
    → Idle n s
    → (i : ℕ) → (s.thread i).todo ≡ []
all_over n s over idle i = elim (Bool-cases (ltb i n)) [
  | inl lt ↦ over i (ground arith)
  | inr ge ↦ idle i (ground arith)
]

finish_from :
    (f n top : ℕ) (s : System)
    → Inv top s
    → Idle n s
    → left_of n s ≤ f
    → (t : System) × Runs s t × ((i : ℕ) → (t.thread i).todo ≡ [])
finish_from zero n top s v idle enough = elim (find_work n s) [
  | inl over ↦ (s, here, all_over n s over idle)
  | inr (i, more) ↦
      let (t, move) = any_steps top s i (s.thread i).todo v refl more in
      absurd (omega (arith, Step-left_of n idle move))
]
finish_from (suc f) n top s v idle enough = elim (find_work n s) [
  | inl over ↦ (s, here, all_over n s over idle)
  | inr (i, more) ↦
      let (t, move) = any_steps top s i (s.thread i).todo v refl more in
      let (u, runs, over) =
        finish_from f n top t (Step-Inv top v move) (Step-Idle n idle move)
          (omega (arith, Step-left_of n idle move)) in
      (u, step move runs, over)
]

Reach-Idle :
    (n : ℕ) {s : Share} {work : ℕ → List Part} {t : System}
    → Idle n (init s work)
    → Reach s work t
    → Idle n t
Reach-Idle n idle start = idle
Reach-Idle n idle (later r move) = Step-Idle n (Reach-Idle n idle r) move

-- Whatever the order in which any number of threads have taken and released their locks so far, they can go on
-- so that each gets to the end of its work: no deadlock can be reached. A thread's work is calls of find,
-- insert, update_row_locked and delete_row_locked, or such calls between the lock and the unlock of one row; none of the threads
-- clears the table. Every key has at least one and at most 2 ^ 32 buckets.
pub Reach-finishes :
    (s : Share) (n : ℕ) (work : ℕ → List Part)
    → ((k : ℕ) → 0 < (s.keydef k).nbuckets)
    → ((k : ℕ) → (s.keydef k).nbuckets ≤ u32_mod)
    → NoClear n work
    → (t : System) → Reach s work t
    → (u : System) × Runs t u × ((i : ℕ) → (u.thread i).todo ≡ [])
unfolding actions
Reach-finishes s n work pos narrow none_clears t r =
    let (top, v) = init-Inv s pos narrow n work none_clears in
    let idle : Idle n (init s work) = λ i le. ap (actions s) ((none_clears i).1 le) in
    finish_from (left_of n t) n top t (Reach-Inv s pos narrow top v r) (Reach-Idle n idle r)
      (omega arith)
