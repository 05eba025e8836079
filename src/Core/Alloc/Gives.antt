-- ===== src/Core/Alloc/Gives.antt =====
-- A slot allocation gives out a slot that no row is in, or says that there is none.
pub mod Pushes
use fastmem_mariadb.Core.Alloc.Gives.Pushes.{Pushed, push_down-Pushed}
use mathlib.Core.Path.{subst}
use fastmem_mariadb.Prelude.{
  ℕ, zero, suc, ◌+◌, ◌-◌, ◌*◌, ◌/◌, ◌%◌, ◌≤◌, ◌<◌, ◌≡◌, refl, Bool, true, false, not, ◌&&◌, ◌||◌,
  Option, none, some, [], ◌==◌, leb, ltb, if◌then◌else◌, ◌∙◌, ap, sym, inl, inr, Bool-cases,
  Option-cases, ◌⊎◌, has, length, arith,
}
use fastmem_mariadb.Core.{
  Share, Slot, err_ok, err_full, err_nomem, is_active, fresh_slot, key_bucket, chunk_size,
}
use fastmem_mariadb.Core.Alloc.{
  Memory, grants_cells, grow_chunk, free_slot, push_down, alloc_grown, alloc_fresh, alloc_slot,
}
use fastmem_mariadb.Core.Wf.{FreeList, Base, Wf, Chains, active_at, place_of, row_at, free_cells}
use fastmem_mariadb.Core.Wf.Chains.{KeyChains-congr}
use fastmem_mariadb.Core.Wf.Free.{Sized, FreeList-congr, push-FreeList, pop-FreeList, slots_of_none}
use fastmem_mariadb.Core.Wf.Walks.{Wf-slot_count}

-- Slot `idx` is in hand: no row is in it, and it is not on the freelist. No row has changed.
pub record Given (s : Share) (idx : ℕ) (s' : Share) : Type 0 where
  pub base : Base s' (λ i. i == idx) 1
  pub below : idx < base.bound
  pub chains : Chains s' (place_of s') (λ k. active_at s')
  pub empty : active_at s' idx ≡ false
  pub rows : (i : ℕ) → row_at s' i ≡ row_at s i
  pub keys : s'.keys ≡ s.keys
  pub keydef : s'.keydef ≡ s.keydef
  pub records : s'.records ≡ s.records
  pub unused : active_at s idx ≡ false

-- The outcome of an allocation. Where there is none, no slot is free and the share is as before.
abbrev pub Allocated : Share → Share × Option ℕ → Type 0
Allocated s (s', some idx) = Given s idx s'
Allocated s (s', none) = (s' ≡ s) × (s.free_head ≡ none)

popped-Given :
    (s : Share) (idx : ℕ)
    → Wf s
    → s.free_head ≡ some idx
    → Given s idx (record s { free_head = (s.slot idx).free_next })
unfolding row_at
popped-Given s idx w e =
    let (in_list, (n, len, (f, size))) = pop-FreeList w.frees idx e in
    let (f', size') =
      FreeList-congr f (free_cells s) (λ i. ltb i w.bound && not (active_at s i) && not (i == idx))
        (λ i h. refl) (λ i. ground arith) in
    record {
      base = record {
        bound = w.bound;
        bound_le = w.bound_le;
        unbounded = w.unbounded;
        chunks_le = w.chunks_le;
        cap_le = w.cap_le;
        active_lt = w.active_lt;
        frees = f';
        counted = omega (arith, w.counted, len, size, size');
        even = w.even;
      };
      below = ground arith;
      chains = w.chains;
      empty = ground arith;
      rows = λ i. refl;
      keys = refl;
      keydef = refl;
      records = refl;
      unused = ground arith;
    }

-- The share with one more chunk, whose slots are fresh.
abbrev grown : Memory → Share → Share
grown mem s = record s {
  slot = λ i. if i / chunk_size == s.chunk_cnt then fresh_slot (mem.garbage i) else s.slot i;
  key_next = λ kk i. if i / chunk_size == s.chunk_cnt then none else s.key_next kk i;
  chunk_cnt = s.chunk_cnt + 1;
}

module _ (mem : Memory) (s : Share) (w : Wf s) (none_free : s.free_head ≡ none)
    (room : s.chunk_cnt * chunk_size < s.max_records) (cap : s.chunk_cnt < s.chunk_cap) where
  abbrev total : ℕ
  total = s.chunk_cnt * chunk_size

  abbrev end : ℕ
  end = if ltb s.max_records (total + chunk_size) then s.max_records else total + chunk_size

  -- Every slot below the bound has a row.
  full : (i : ℕ) → (ltb i total && not (active_at s i)) ≡ false
  full i =
      let nil = slots_of_none w.frees none_free in
      let out : has i w.frees.slots ≡ false = rw nil in
      ground (arith, w.frees.members i, w.unbounded room)

  listing :
      Pushed
        (grown mem s)
        (λ i. false)
        0
        (end - (total + 1))
        (total + 1)
        (push_down (end - (total + 1)) (total + 1) (grown mem s))
  listing =
      push_down-Pushed (end - (total + 1)) (total + 1) (grown mem s) (λ i. false)
        (record { slots = []; linked = none_free; distinct = tt; members = λ i. refl })
        (λ i a b. refl)

  module _
      (p : Pushed
        (grown mem s)
        (λ i. false)
        0
        (end - (total + 1))
        (total + 1)
        (push_down (end - (total + 1)) (total + 1) (grown mem s))) where
    state : (i : ℕ) → (p.slot i).state ≡ ((grown mem s).slot i).state
    state i = ap (λ (z : Slot). z.state) (p.same i)

    image : (i : ℕ) → (p.slot i).image ≡ ((grown mem s).slot i).image
    image i = ap (λ (z : Slot). z.image) (p.same i)

    seq : (i : ℕ) → (p.slot i).seq ≡ ((grown mem s).slot i).seq
    seq i = ap (λ (z : Slot). z.seq) (p.same i)

    -- The new chunk holds no row, and the old slots are as they were.
    active : (i : ℕ) → is_active (p.slot i).state ≡ active_at s i
    active i = ground (arith, state i, w.active_lt i, w.unbounded room)

    image_of_active : (i : ℕ) → active_at s i ≡ true → (p.slot i).image ≡ (s.slot i).image
    image_of_active i a = ground (arith, image i, w.active_lt i, w.unbounded room)

    listed_mark :
        (i : ℕ)
        → (ltb i end && not (is_active (p.slot i).state) && not (i == total))
          ≡ (leb (total + 1) i && ltb i (total + 1 + (end - (total + 1))))
    listed_mark i = ground (arith, active i, full i, w.active_lt i, w.unbounded room)

    given : Given s total (record (grown mem s) { slot = p.slot; free_head = p.head })
    unfolding row_at
    given =
        let (f, size) = p.frees in
        let (f', size') =
          FreeList-congr f (λ i. (p.slot i).free_next)
            (λ i. ltb i end && not (is_active (p.slot i).state) && not (i == total)) (λ i h. refl)
            (λ i. listed_mark i) in
        let nil : length w.frees.slots ≡ 0 = ap length (slots_of_none w.frees none_free) in
        record {
          base = record {
            bound = end;
            bound_le = ground arith;
            unbounded = λ lt. ground arith;
            chunks_le = omega arith;
            cap_le = w.cap_le;
            active_lt = λ i a. ground (arith, active i, w.active_lt i, w.unbounded room);
            frees = f';
            counted = ground (arith, size, size', nil, w.counted, w.unbounded room);
            even = λ i. ground (arith, seq i, w.even i);
          };
          below = ground arith;
          chains = λ k lt.
              KeyChains-congr (w.chains k lt) _ _ _
                (λ i a. ground (arith, w.active_lt i, w.unbounded room)) active
                (λ i a. ap (key_bucket (s.keydef k)) (image_of_active i a));
          empty = ground (arith, active total, w.active_lt total, w.unbounded room);
          rows = λ i. ground (arith, active i, image_of_active i);
          keys = refl;
          keydef = refl;
          records = refl;
          unused = ground (arith, w.active_lt total, w.unbounded room);
        }

  grown-Given : Given s total (push_down (end - (total + 1)) (total + 1) (grown mem s))
  grown-Given = let p = listing in subst (Given s total) (sym p.shape) (given p)

-- The three outcomes of a growth.
grow_chunk-cases :
    (mem : Memory) (s : Share)
    → ((grow_chunk mem s ≡ (grown mem s, err_ok)) × (s.chunk_cnt < s.chunk_cap))
      ⊎ (grow_chunk mem s ≡ (s, err_full))
      ⊎ (grow_chunk mem s ≡ (s, err_nomem))
unfolding grow_chunk
grow_chunk-cases mem s = elim (Bool-cases (leb s.chunk_cap s.chunk_cnt)) [
  | inl a ↦ inr (inl (rw a))
  | inr a ↦ elim (Bool-cases (mem.grants 0)) [
    | inr b ↦ inr (inr (rw (a, b)))
    | inl b ↦ elim (Bool-cases (ltb 0 s.keys && not (mem.grants 1 && grants_cells mem s.keys))) [
      | inl c ↦ inr (inr (rw (a, b, c)))
      | inr c ↦ inl (rw (a, b, c), ground arith)
    ]
  ]
]

alloc_grown-Allocated :
    (mem : Memory) (s : Share)
    → Wf s
    → s.free_head ≡ none
    → s.chunk_cnt * chunk_size < s.max_records
    → Allocated s (alloc_grown mem s (s.chunk_cnt * chunk_size))
unfolding alloc_grown
alloc_grown-Allocated mem s w e room =
    let at = s.chunk_cnt * chunk_size in
    elim (grow_chunk-cases mem s) [
      | inl (run, below) ↦
          let end =
            if ltb s.max_records (at + chunk_size) then s.max_records else at + chunk_size in
          let p : alloc_grown mem s at
              ≡ (push_down (end - (at + 1)) (at + 1) (grown mem s), some at) =
            rw (run, alloc_grown) (rw run) in
          subst (Allocated s) (sym p) (grown-Given mem s w e room below)
      | inr (inl run) ↦
          let p : alloc_grown mem s at ≡ (s, none) = rw (run, alloc_grown) (rw run) in
          subst (Allocated s) (sym p) (refl, e)
      | inr (inr run) ↦
          let p : alloc_grown mem s at ≡ (s, none) = rw (run, alloc_grown) (rw run) in
          subst (Allocated s) (sym p) (refl, e)
    ]

alloc_fresh-Allocated :
    (mem : Memory) (s : Share) → Wf s → s.free_head ≡ none → Allocated s (alloc_fresh mem s)
unfolding alloc_fresh
alloc_fresh-Allocated mem s w e =
    let total = Wf-slot_count w in
    elim (Bool-cases (leb s.max_records (s.chunk_cnt * chunk_size))) [
      | inl a ↦
          let p : alloc_fresh mem s ≡ (s, none) = rw (total, alloc_fresh, a) in
          subst (Allocated s) (sym p) (refl, e)
      | inr a ↦
          let whole : (s.chunk_cnt * chunk_size % chunk_size == 0) ≡ true = ground arith in
          let p : alloc_fresh mem s ≡ alloc_grown mem s (s.chunk_cnt * chunk_size) =
            rw (total, alloc_fresh, a, whole) in
          subst (Allocated s) (sym p) (alloc_grown-Allocated mem s w e (ground arith))
    ]

-- An allocation on a well-formed table either gives a slot without a row and leaves every row, the keys
-- and the count as they were, with the slot in hand and all others accounted for; or it gives none, and
-- then the share is unchanged and the freelist was empty.
pub alloc_slot-Allocated : (mem : Memory) (s : Share) → Wf s → Allocated s (alloc_slot mem s)
unfolding alloc_slot
alloc_slot-Allocated mem s w = elim (Option-cases s.free_head) [
  | inr (idx, e) ↦
      let p : alloc_slot mem s ≡ (record s { free_head = (s.slot idx).free_next }, some idx) =
        rw (e, alloc_slot) in
      subst (Allocated s) (sym p) (popped-Given s idx w e)
  | inl e ↦
      let p : alloc_slot mem s ≡ alloc_fresh mem s = simp (e, alloc_slot) in
      subst (Allocated s) (sym p) (alloc_fresh-Allocated mem s w e)
]
