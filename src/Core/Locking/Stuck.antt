-- ===== src/Core/Locking/Stuck.antt =====
-- A clear takes row locks under `struct_mutex`, against the order of the other operations.
use fastmem_mariadb.Prelude.{
  ℕ, zero, suc, ◌+◌, ◌<◌, ◌≡◌, ◌≢◌, ◌⊎◌, refl, sym, ◌∙◌, ap, none, some, List, [], ◌∷◌, ◌==◌,
  if◌then◌else◌, inl, inr, Bool-cases, arith,
}
use mathlib.Core.Path.{subst}
use fastmem_mariadb.Core.{Share, Bytes}
use fastmem_mariadb.Core.Locking.{
  Lock, row_lock, struct_mutex, bucket_lock, is_lock, Action, acquire, release, pairs, each_key,
  buckets_of, all_buckets, row_locks, delete_held, delete_actions, clear_actions, Part, under_row,
  clear_all, part_actions, calls_actions, call_actions, actions, System, acquired, released, Step,
  takes_lock, gives_lock, init, Reach, start, later,
}
use fastmem_mariadb.Core.Locking.Obeys.{is_lock-eq}

-- Thread `i` has come to `rest`; the locks and the other threads are as before.
record Went (u v : System) (i : ℕ) (rest : List Action) : Type 0 where
  pub todo : (v.thread i).todo ≡ rest
  pub others : (j : ℕ) → j ≢ i → (v.thread j).todo ≡ (u.thread j).todo
  pub owner : (l : Lock) → v.owner l ≡ u.owner l

abbrev AllFree : System → List Lock → Type 0
AllFree u [] = Unit
AllFree u (l ∷ ls) = (u.owner l ≡ none) × AllFree u ls

AllFree-same :
    (u v : System) (ls : List Lock)
    → ((l : Lock) → v.owner l ≡ u.owner l)
    → AllFree u ls
    → AllFree v ls
AllFree-same u v [] same f = tt
AllFree-same u v (l ∷ ls) same (free, f) = (same l ∙ free, AllFree-same u v ls same f)

pair-Went :
    (u : System) (i : ℕ) (l : Lock) (rest : List Action)
    → u.owner l ≡ none
    → Went u (released (acquired u i l (release l ∷ rest)) i l rest) i rest
pair-Went u i l rest free = record {
  todo = ground arith;
  others = λ j off. ground arith;
  owner = λ l'. elim (Bool-cases (is_lock l' l)) [
    | inl same ↦ let p : l' ≡ l = is_lock-eq l' l same in rw same (sym (ap u.owner p ∙ free))
    | inr other ↦ rw other refl
  ];
}

module _ {s : Share} {work : ℕ → List Part} where
  pairs-Went :
      (ls : List Lock) (rest : List Action) (i : ℕ) (u : System)
      → Reach s work u
      → (u.thread i).todo ≡ pairs ls rest
      → AllFree u ls
      → (v : System) × Reach s work v × Went u v i rest
  pairs-Went [] rest i u r e f =
      (u, r, record { todo = e; others = λ j off. refl; owner = λ l. refl })
  pairs-Went (l ∷ ls) rest i u r e (free, f) =
      let u1 = acquired u i l (release l ∷ pairs ls rest) in
      let u2 = released u1 i l (pairs ls rest) in
      let w = pair-Went u i l (pairs ls rest) free in
      let r1 : Reach s work u1 = later r (takes_lock i l (release l ∷ pairs ls rest) e free) in
      let r2 : Reach s work u2 = later r1 (gives_lock i l (pairs ls rest) (ground arith)) in
      let (v, r3, w') = pairs-Went ls rest i u2 r2 w.todo (AllFree-same u u2 ls w.owner f) in
      (
        v,
        r3,
        record {
          todo = w'.todo;
          others = λ j off. w'.others j off ∙ w.others j off;
          owner = λ l'. w'.owner l' ∙ w.owner l';
        },
      )

each_key-AllFree :
    (u : System) (n k : ℕ) (s : Share) (rec : Bytes)
    → ((x : _) → u.owner (bucket_lock x) ≡ none)
    → AllFree u (each_key n k s rec)
unfolding each_key
each_key-AllFree u zero k s rec free = tt
each_key-AllFree u (suc n) k s rec free = (free _, each_key-AllFree u n (suc k) s rec free)

buckets_of-AllFree :
    (u : System) (n b k : ℕ) (rest : List Lock)
    → ((x : _) → u.owner (bucket_lock x) ≡ none)
    → AllFree u rest
    → AllFree u (buckets_of n b k rest)
unfolding buckets_of
buckets_of-AllFree u zero b k rest free f = f
buckets_of-AllFree u (suc n) b k rest free f =
    (free _, buckets_of-AllFree u n (suc b) k rest free f)

all_buckets-AllFree :
    (u : System) (m k : ℕ) (s : Share)
    → ((x : _) → u.owner (bucket_lock x) ≡ none)
    → AllFree u (all_buckets m k s)
unfolding all_buckets
all_buckets-AllFree u zero k s free = tt
all_buckets-AllFree u (suc m) k s free =
    buckets_of-AllFree u (s.keydef k).nbuckets 0 k (all_buckets m (suc k) s) free
      (all_buckets-AllFree u m (suc k) s free)

row_locks-AllFree :
    (u : System) (n i : ℕ)
    → ((j : ℕ) → j < i + n → u.owner (row_lock j) ≡ none)
    → AllFree u (row_locks n i)
unfolding row_locks
row_locks-AllFree u zero i free = tt
row_locks-AllFree u (suc n) i free =
    (free i (omega arith), row_locks-AllFree u n (suc i) (λ j lt. free j (omega arith)))

-- The rows before row `i + n`, and that row.
pairs-row_locks :
    (n m i : ℕ) (rest : List Action)
    → (after : List Action) × (pairs (row_locks (n + suc m) i) rest
        ≡ pairs (row_locks n i) (acquire (row_lock (i + n)) ∷ after))
unfolding row_locks
pairs-row_locks zero m i rest =
    let p : 0 + suc m ≡ suc m = omega arith in
    let q : i + 0 ≡ i = omega arith in
    (release (row_lock i) ∷ pairs (row_locks m (suc i)) rest, rw (p, q) refl)
pairs-row_locks (suc n) m i rest =
    let (after, e) = pairs-row_locks n m (suc i) rest in
    let p : suc n + suc m ≡ suc (n + suc m) = omega arith in
    let q : i + suc n ≡ suc i + n = omega arith in (after, rw (p, q, row_locks, e) refl)

-- A thread that holds the lock of row `idx` and is to delete the row, and one that is to clear the table.
abbrev pub delete_and_clear : ℕ → Bytes → ℕ → ℕ → List Part
delete_and_clear idx rec total i =
    if i == 0
    then under_row idx (delete_held rec ∷ []) ∷ []
    else if i == 1
    then clear_all total ∷ []
    else []

module _ (s : Share) (idx m : ℕ) (rec : Bytes) where
  abbrev work : ℕ → List Part
  work = delete_and_clear idx rec (idx + suc m)

  -- The deleting thread waits for `struct_mutex`.
  first_half :
      (u : System) × Reach s work u
      × ((u.thread 0).todo
          ≡ acquire struct_mutex ∷ release struct_mutex ∷ release (row_lock idx) ∷ [])
      × ((j : ℕ) → j ≢ 0 → (u.thread j).todo ≡ actions s (work j))
      × ((l : Lock) → u.owner l ≡ (if is_lock l (row_lock idx) then some 0 else none))
  unfolding actions part_actions calls_actions call_actions delete_actions
  first_half =
      let u0 = init s work in
      let behind = acquire struct_mutex ∷ release struct_mutex ∷ release (row_lock idx) ∷ [] in
      let deletes = pairs (each_key s.keys 0 s rec) behind in
      let u1 = acquired u0 0 (row_lock idx) deletes in
      let r1 : Reach s work u1 = later start (takes_lock 0 (row_lock idx) deletes refl refl) in
      let (u2, r2, w) =
        pairs-Went (each_key s.keys 0 s rec) behind 0 u1 r1 refl
          (each_key-AllFree u1 s.keys 0 s rec (λ x. refl)) in
      (u2, r2, w.todo, λ j off. w.others j off ∙ ground arith, w.owner)

  -- Both wait for a lock of the other, and no other thread has work.
  record Waiting (v : System) : Type 0 where
    pub deleting :
        (v.thread 0).todo
        ≡ acquire struct_mutex ∷ release struct_mutex ∷ release (row_lock idx) ∷ []
    pub clearing : (rest : List Action) × ((v.thread 1).todo ≡ acquire (row_lock idx) ∷ rest)
    pub others : (j : ℕ) → j ≢ 0 → j ≢ 1 → (v.thread j).todo ≡ []
    pub mutex : v.owner struct_mutex ≡ some 1
    pub row : v.owner (row_lock idx) ≡ some 0

  second_half : (v : System) × Reach s work v × Waiting v
  unfolding actions part_actions clear_actions
  second_half =
      let (u2, r2, at0, rest0, owner0) = first_half in
      let last = release struct_mutex ∷ [] in
      let rows = pairs (row_locks (idx + suc m) 0) last in
      let clears = pairs (all_buckets s.keys 0 s) rows in
      let u3 = acquired u2 1 struct_mutex clears in
      let at1 : (u2.thread 1).todo ≡ acquire struct_mutex ∷ clears =
        rest0 1 (λ e. absurd (omega arith)) in
      let r3 : Reach s work u3 =
        later r2 (takes_lock 1 struct_mutex clears at1 (owner0 struct_mutex)) in
      let (u4, r4, w4) =
        pairs-Went (all_buckets s.keys 0 s) rows 1 u3 r3 refl
          (all_buckets-AllFree u3 s.keys 0 s (λ x. owner0 (bucket_lock x))) in
      let (after, split) = pairs-row_locks idx m 0 last in
      let (u5, r5, w5) =
        pairs-Went (row_locks idx 0) (acquire (row_lock (0 + idx)) ∷ after) 1 u4 r4
          (w4.todo ∙ split)
          (row_locks-AllFree u4 idx 0
            (λ j lt. w4.owner (row_lock j) ∙ owner0 (row_lock j) ∙ ground arith)) in
      let zero_idx : 0 + idx ≡ idx = omega arith in
      (
        u5,
        r5,
        record {
          deleting =
              w5.others 0 (λ e. absurd (omega arith))
              ∙ w4.others 0 (λ e. absurd (omega arith))
              ∙ at0;
          clearing = (after, w5.todo ∙ ap (λ j. acquire (row_lock j) ∷ after) zero_idx);
          others = λ j off off'.
              w5.others j off'
              ∙ w4.others j off'
              ∙ (let p : (u3.thread j).todo ≡ (u2.thread j).todo = ground arith in p)
              ∙ rest0 j off
              ∙ (let q : work j ≡ [] = ground arith in ap (actions s) q);
          mutex = w5.owner struct_mutex ∙ w4.owner struct_mutex;
          row =
              w5.owner (row_lock idx)
              ∙ w4.owner (row_lock idx)
              ∙ owner0 (row_lock idx)
              ∙ ground arith;
        },
      )

  -- The next action of a thread that has one is one of the two that wait.
  next_action :
      {v : System}
      → Waiting v
      → (i : ℕ) (a : Action) (rest : List Action) → (v.thread i).todo ≡ a ∷ rest
      → (a ≡ acquire struct_mutex) ⊎ (a ≡ acquire (row_lock idx))
  next_action {v} w i a rest e = elim (Bool-cases (i == 0)) [
    | inl at ↦
        let p : i ≡ 0 = ground arith in
        let q = sym (subst (λ k. (v.thread k).todo ≡ a ∷ rest) p e) ∙ w.deleting in
        inl (ground (arith, q))
    | inr off ↦ elim (Bool-cases (i == 1)) [
      | inl at ↦
          let p : i ≡ 1 = ground arith in
          let q = sym (subst (λ k. (v.thread k).todo ≡ a ∷ rest) p e) ∙ w.clearing.1 in
          inr (ground (arith, q))
      | inr off' ↦
          let q = sym e ∙ w.others i (λ p. absurd (ground arith)) (λ p. absurd (ground arith)) in
          absurd (ground (arith, q))
    ]
  ]

  Waiting-ends : {v t : System} → Waiting v → Step v t → ⊥
  Waiting-ends {v} w (takes_lock i l rest e free) = elim (next_action w i (acquire l) rest e) [
    | inl p ↦ let q : l ≡ struct_mutex = ground arith in ground (arith, ap v.owner q, w.mutex)
    | inr p ↦ let q : l ≡ row_lock idx = ground arith in ground (arith, ap v.owner q, w.row)
  ]
  Waiting-ends {v} w (gives_lock i l rest e) = elim (next_action w i (release l) rest e) [
    | inl p ↦ ground arith
    | inr p ↦ ground arith
  ]

-- With any record in any row of a table there is an order in which a thread that locks the row and deletes it,
-- and another that clears the table, come to a deadlock: both have actions left, and no thread can go on.
pub clear_may_deadlock :
    (s : Share) (idx m : ℕ) (rec : Bytes)
    → (v : System) × Reach s (delete_and_clear idx rec (idx + suc m)) v
      × ((v.thread 0).todo ≢ [])
      × ((v.thread 1).todo ≢ [])
      × ((t : System) → Step v t → ⊥)
clear_may_deadlock s idx m rec =
    let (v, r, w) = second_half s idx m rec in
    (
      v,
      r,
      (λ e. ground (arith, w.deleting, e)),
      (λ e. ground (arith, w.clearing.1, e)),
      λ t move. Waiting-ends s idx m rec w move,
    )
