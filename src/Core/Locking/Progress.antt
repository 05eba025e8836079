-- ===== src/Core/Locking/Progress.antt =====
-- Threads that take their locks in order never wait for each other for ever.
use fastmem_mariadb.Prelude.{
  ℕ, zero, suc, ◌+◌, ◌≤◌, ◌<◌, ◌≡◌, ◌≢◌, refl, sym, ◌∙◌, ap, Bool, true, false, Option, none, some,
  List, [], ◌∷◌, ◌==◌, if◌then◌else◌, inl, inr, Bool-cases, Option-cases, arith, ==_refl, ltb,
}
use mathlib.Core.Path.{subst}
use fastmem_mariadb.Core.{Share, u32_mod}
use fastmem_mariadb.Core.Locking.{
  Lock, is_lock, Action, acquire, release, Part, actions, System, set_owner, drop_lock, acquired,
  released, Step, takes_lock, gives_lock, init, Reach, start, later,
}
use fastmem_mariadb.Core.Locking.Obeys.{
  rank, Under, is_held, Obeys, is_lock-eq, no_clear, actions-Obeys,
}

-- Every lock that is still to be taken ranks below `top`.
abbrev pub Bounded : ℕ → List Action → Type 0
Bounded top [] = Unit
Bounded top (acquire l ∷ rest) = (rank l < top) × Bounded top rest
Bounded top (release l ∷ rest) = Bounded top rest

Bounded-le : (a b : ℕ) (todo : List Action) → a ≤ b → Bounded a todo → Bounded b todo
Bounded-le a b [] le h = tt
Bounded-le a b (acquire l ∷ rest) le (lo, h) = (omega arith, Bounded-le a b rest le h)
Bounded-le a b (release l ∷ rest) le h = Bounded-le a b rest le h

bound_of : (todo : List Action) → (top : ℕ) × Bounded top todo
bound_of [] = (0, tt)
bound_of (acquire l ∷ rest) =
    let (top, h) = bound_of rest in
    (top + rank l + 1, (omega arith, Bounded-le top (top + rank l + 1) rest (omega arith) h))
bound_of (release l ∷ rest) = bound_of rest

-- One bound for the first `n` threads.
bound_of_all :
    (n : ℕ) (todo : ℕ → List Action) → (top : ℕ) × ((i : ℕ) → i < n → Bounded top (todo i))
bound_of_all zero todo = (0, λ i lt. absurd (omega arith))
bound_of_all (suc n) todo =
    let (a, h) = bound_of_all n todo in
    let (b, h') = bound_of (todo n) in
    (
      a + b,
      λ i lt. elim (Bool-cases (i == n)) [
        | inl same ↦
            let p : n ≡ i = ground arith in
            subst (λ j. Bounded (a + b) (todo j)) p (Bounded-le b (a + b) (todo n) (omega arith) h')
        | inr other ↦ Bounded-le a (a + b) (todo i) (omega arith) (h i (ground arith))
      ],
    )

abbrev pub owns : Option ℕ → ℕ → Bool
owns none i = false
owns (some j) i = j == i

pub record Inv (top : ℕ) (s : System) : Type 0 where
  pub obeys : (i : ℕ) → Obeys (s.thread i).held (s.thread i).todo
  pub bounded : (i : ℕ) → Bounded top (s.thread i).todo
  pub owners : (i : ℕ) (l : Lock) → is_held l (s.thread i).held ≡ owns (s.owner l) i

is_lock_sym : (x y : Lock) → is_lock x y ≡ is_lock y x
is_lock_sym x y = ground arith

is_held-drop_lock :
    (l l' : Lock) (held : List Lock)
    → is_held l' (drop_lock l held) ≡ (if is_lock l' l then false else is_held l' held)
is_held-drop_lock l l' [] = ground arith
is_held-drop_lock l l' (x ∷ xs) =
    let ih = is_held-drop_lock l l' xs in
    elim (Bool-cases (is_lock x l)) [
      | inl same ↦
          let p : x ≡ l = is_lock-eq x l same in rw (same, ih, p, is_lock_sym l l') (ground arith)
      | inr other ↦ elim (Bool-cases (is_lock x l')) [
        | inl same ↦ let p : x ≡ l' = is_lock-eq x l' same in rw (other, same, sym p, other) refl
        | inr other' ↦ rw (other, other', ih) refl
      ]
    ]

abbrev owned_after : (Lock → Option ℕ) → Lock → Option ℕ → Lock → ℕ → Bool
owned_after owner l v l' j = owns (set_owner owner l v l') j

takes_lock-Inv :
    (top : ℕ) (s : System) (i : ℕ) (l : Lock) (rest : List Action)
    → Inv top s
    → (s.thread i).todo ≡ acquire l ∷ rest
    → s.owner l ≡ none
    → Inv top (acquired s i l rest)
takes_lock-Inv top s i l rest v e free = record {
  obeys = λ j. elim (Bool-cases (j == i)) [
    | inl same ↦ rw same (subst (Obeys (s.thread i).held) e (v.obeys i)).1
    | inr other ↦ rw other (v.obeys j)
  ];
  bounded = λ j. elim (Bool-cases (j == i)) [
    | inl same ↦ rw same (subst (Bounded top) e (v.bounded i)).1
    | inr other ↦ rw other (v.bounded j)
  ];
  owners = λ j l'.
      let unheld : (k : ℕ) → is_held l (s.thread k).held ≡ false =
        λ k. v.owners k l ∙ ap (λ o. owns o k) free in
      elim (Bool-cases (is_lock l' l)) [
        | inl same ↦
            let p : l' ≡ l = is_lock-eq l' l same in
            elim (Bool-cases (j == i)) [
              | inl at ↦ rw (at, same, is_lock_sym l l', same) (ground arith)
              | inr off ↦ rw (off, same, p, unheld j) (ground arith)
            ]
        | inr other ↦ elim (Bool-cases (j == i)) [
          | inl at ↦
              let q : j ≡ i = ground arith in
              rw (at, other, is_lock_sym l l', other, q) (v.owners i l')
          | inr off ↦ rw (off, other) (v.owners j l')
        ]
      ];
}

gives_lock-Inv :
    (top : ℕ) (s : System) (i : ℕ) (l : Lock) (rest : List Action)
    → Inv top s
    → (s.thread i).todo ≡ release l ∷ rest
    → Inv top (released s i l rest)
gives_lock-Inv top s i l rest v e = record {
  obeys = λ j. elim (Bool-cases (j == i)) [
    | inl same ↦ rw same (subst (Obeys (s.thread i).held) e (v.obeys i)).1
    | inr other ↦ rw other (v.obeys j)
  ];
  bounded = λ j. elim (Bool-cases (j == i)) [
    | inl same ↦
        rw same (let h : Bounded top (release l ∷ rest) = subst (Bounded top) e (v.bounded i) in h)
    | inr other ↦ rw other (v.bounded j)
  ];
  owners = λ j l'.
      let mine : is_held l (s.thread i).held ≡ true =
        (subst (Obeys (s.thread i).held) e (v.obeys i)).0 in
      elim (Bool-cases (is_lock l' l)) [
        | inl same ↦
            let p : l' ≡ l = is_lock-eq l' l same in
            elim (Bool-cases (j == i)) [
              | inl at ↦ rw (at, same, is_held-drop_lock l l' (s.thread i).held, same) refl
              | inr off ↦ rw (off, same, p) (ground (arith, v.owners j l, v.owners i l, mine))
            ]
        | inr other ↦ elim (Bool-cases (j == i)) [
          | inl at ↦
              let q : j ≡ i = ground arith in
              rw (at, other, is_held-drop_lock l l' (s.thread i).held, other, q) (v.owners i l')
          | inr off ↦ rw (off, other) (v.owners j l')
        ]
      ];
}

pub Step-Inv : (top : ℕ) {s t : System} → Inv top s → Step s t → Inv top t
Step-Inv top {s} v (takes_lock i l rest e free) = takes_lock-Inv top s i l rest v e free
Step-Inv top {s} v (gives_lock i l rest e) = gives_lock-Inv top s i l rest v e

held-rank :
    (l : Lock) (r : ℕ) (held : List Lock) → Under r held → is_held l held ≡ true → rank l < r
held-rank l r [] u e = absurd (ground arith)
held-rank l r (x ∷ xs) (lo, u) e = elim (Bool-cases (is_lock x l)) [
  | inl same ↦ subst (λ y. rank y < r) (is_lock-eq x l same) lo
  | inr other ↦ held-rank l r xs u (ground arith)
]

-- From a thread that holds a lock, along the threads that wait for each other, one that can go on.
holder_steps :
    (f top : ℕ) (s : System) (i : ℕ) (l : Lock) (todo : List Action)
    → Inv top s
    → (s.thread i).todo ≡ todo
    → is_held l (s.thread i).held ≡ true
    → top ≤ rank l + f
    → (t : System) × Step s t
holder_steps f top s i l [] v e mine enough =
    let none_held = subst (Obeys (s.thread i).held) e (v.obeys i) in
    absurd (ground (arith, ap (is_held l) none_held))
holder_steps f top s i l (release l' ∷ rest) v e mine enough = (_, gives_lock i l' rest e)
holder_steps zero top s i l (acquire l' ∷ rest) v e mine enough =
    let up =
      held-rank l (rank l') (s.thread i).held (subst (Obeys (s.thread i).held) e (v.obeys i)).0
        mine in
    absurd (omega (arith, (subst (Bounded top) e (v.bounded i)).0))
holder_steps (suc f) top s i l (acquire l' ∷ rest) v e mine enough =
    let up =
      held-rank l (rank l') (s.thread i).held (subst (Obeys (s.thread i).held) e (v.obeys i)).0
        mine in
    elim (Option-cases (s.owner l')) [
      | inl free ↦ (_, takes_lock i l' rest e free)
      | inr (j, taken) ↦
          holder_steps f top s j l' (s.thread j).todo v refl
            (v.owners j l' ∙ ap (λ o. owns o j) taken ∙ ==_refl j) (omega arith)
    ]

-- A thread that has something left to do can go on, or one that it waits for can.
pub any_steps :
    (top : ℕ) (s : System) (i : ℕ) (todo : List Action)
    → Inv top s
    → (s.thread i).todo ≡ todo
    → todo ≢ []
    → (t : System) × Step s t
any_steps top s i [] v e some_left = absurd (some_left refl)
any_steps top s i (release l ∷ rest) v e some_left = (_, gives_lock i l rest e)
any_steps top s i (acquire l ∷ rest) v e some_left = elim (Option-cases (s.owner l)) [
  | inl free ↦ (_, takes_lock i l rest e free)
  | inr (j, taken) ↦
      holder_steps top top s j l (s.thread j).todo v refl
        (v.owners j l ∙ ap (λ o. owns o j) taken ∙ ==_refl j) (omega arith)
]

-- The first `n` threads have work, none of which is a clear.
abbrev pub NoClear : ℕ → (ℕ → List Part) → Type 0
NoClear n work = (i : ℕ) → (no_clear (work i) ≡ true) × (n ≤ i → work i ≡ [])

module _ (s : Share) (pos : (k : ℕ) → 0 < (s.keydef k).nbuckets)
    (narrow : (k : ℕ) → (s.keydef k).nbuckets ≤ u32_mod) where
  pub init-Inv : (n : ℕ) (work : ℕ → List Part) → NoClear n work → (top : ℕ) × Inv top (init s work)
  unfolding actions
  init-Inv n work none_clears =
      let (top, h) = bound_of_all n (λ i. actions s (work i)) in
      (
        top,
        record {
          obeys = λ i. actions-Obeys s pos narrow (work i) (none_clears i).0;
          bounded = λ i. elim (Bool-cases (ltb i n)) [
            | inl lt ↦ h i (ground arith)
            | inr ge ↦
                subst (λ ps. Bounded top (actions s ps)) (sym ((none_clears i).1 (ground arith))) tt
          ];
          owners = λ i l. refl;
        },
      )

  pub Reach-Inv :
      (top : ℕ) {work : ℕ → List Part} {t : System}
      → Inv top (init s work)
      → Reach s work t
      → Inv top t
  Reach-Inv top v start = v
  Reach-Inv top v (later r step) = Step-Inv top (Reach-Inv top v r) step
