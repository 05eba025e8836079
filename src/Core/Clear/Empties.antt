-- ===== src/Core/Clear/Empties.antt =====
-- What `fm_core_clear` does to a well-formed share.
use mathlib.Core.Path.{subst}
use fastmem_mariadb.Prelude.{
  ℕ, zero, suc, ◌+◌, ◌*◌, ◌%◌, ◌≤◌, ◌<◌, ◌≡◌, refl, Bool, true, false, not, ◌&&◌, ◌||◌, Option,
  none, List, [], ◌∷◌, Returns, ◌==◌, leb, ltb, if◌then◌else◌, ◌∙◌, ap, sym, inl, inr, Bool-cases,
  has, length, arith,
}
use fastmem_mariadb.Core.{
  Share, Slot, slot_free, is_active, key_bucket, unlock_slot, set_slot, chunk_size, u32_mod,
}
use fastmem_mariadb.Core.Alloc.{free_slot}
use fastmem_mariadb.Core.Bits.{bucket-lt}
use fastmem_mariadb.Core.Chain.{Linked}
use fastmem_mariadb.Core.Clear.{clear_heads, reset_slots, push_up, clear}
use fastmem_mariadb.Core.Delete.Removes.{lock_slot-free}
use fastmem_mariadb.Core.Wf.{
  FreeList, Wf, Chains, SameKeys, active_at, place_of, row_at, free_cells,
}
use fastmem_mariadb.Core.Wf.Free.{Sized, FreeList-congr, push-FreeList}
use fastmem_mariadb.Core.Wf.Walks.{Wf-slot_count}

-- What the first loop leaves of a slot.
abbrev pub reset_slot : Slot → Slot
reset_slot sl = record sl { state = slot_free; wlock = false; gen = (sl.gen + 1) % u32_mod }

-- With all row locks free the first loop ends, and it resets exactly its slots.
reset_slots-run :
    (n i : ℕ) (s : Share)
    → ((j : ℕ) → (s.slot j).wlock ≡ false)
    → Returns (reset_slots n i s) (λ s'.
      (s' ≡ record s { slot = s'.slot })
      × ((j : ℕ)
          → s'.slot j ≡ (if leb i j && ltb j (i + n) then reset_slot (s.slot j) else s.slot j)))
unfolding reset_slots unlock_slot
reset_slots-run zero i s free = (s, refl, (refl, λ j. ground arith))
reset_slots-run (suc n) i s free =
    let locked = set_slot s i (record (s.slot i) { wlock = true }) in
    let sl = locked.slot i in
    let freed = set_slot locked i (record sl { state = slot_free; gen = (sl.gen + 1) % u32_mod }) in
    let (s', run, (shape, slots)) =
      reset_slots-run n (suc i) (unlock_slot freed i) (λ j. ground (arith, free j)) in
    (s', rw (lock_slot-free s i (free i)) run, (shape, λ j. slots j ∙ ground (arith, free j)))

-- The second loop puts its slots on the freelist.
record Relisted (s : Share) (listed : ℕ → Bool) (len n lo : ℕ) (s' : Share) : Type 0 where
  slot : ℕ → Slot
  head : Option ℕ
  shape : s' ≡ record s { slot = slot; free_head = head }
  same : (i : ℕ) → slot i ≡ record (s.slot i) { free_next = (slot i).free_next }
  frees :
      Sized (λ i. (slot i).free_next) head (λ i. listed i || leb lo i && ltb i (lo + n)) (n + len)

push_up-Relisted :
    (n lo : ℕ) (s : Share) (listed : ℕ → Bool) (f : FreeList (free_cells s) s.free_head listed)
    → ((i : ℕ) → lo ≤ i → i < lo + n → listed i ≡ false)
    → Relisted s listed (length f.slots) n lo (push_up n lo s)
unfolding push_up free_slot
push_up-Relisted zero lo s listed f out =
    let (f', size) =
      FreeList-congr f (free_cells s) (λ i. listed i || leb lo i && ltb i (lo + 0)) (λ i h. refl)
        (λ i. ground arith) in
    record {
      slot = s.slot;
      head = s.free_head;
      shape = refl;
      same = λ i. refl;
      frees = (f', omega (arith, size));
    }
push_up-Relisted (suc n) lo s listed f out =
    let s1 = free_slot s lo in
    let mid = λ (i : ℕ). listed i || i == lo in
    let (f1, size1) =
      push-FreeList f lo (free_cells s1) mid (out lo (omega arith) (omega arith)) (ground arith)
        (λ i h. ground (arith, out lo)) (λ i. refl) in
    let p = push_up-Relisted n (suc lo) s1 mid f1 (λ i a b. ground (arith, out i)) in
    let (f2, size2) = p.frees in
    let (f3, size3) =
      FreeList-congr f2 (λ i. (p.slot i).free_next)
        (λ i. listed i || leb lo i && ltb i (lo + suc n)) (λ i h. refl) (λ i. ground arith) in
    record {
      slot = p.slot;
      head = p.head;
      shape = p.shape;
      same = λ i. same_step s lo i (p.slot i) (p.same i);
      frees = (f3, omega (arith, size1, size2, size3));
    }
  where
    same_step :
        (t : Share) (j i : ℕ) (c : Slot)
        → c ≡ record ((free_slot t j).slot i) { free_next = c.free_next }
        → c ≡ record (t.slot i) { free_next = c.free_next }
    same_step t j i c e = ground arith

-- The table is empty, every reference to its slots is stale, and all its slots can be given out.
pub record Cleared (s s' : Share) : Type 0 where
  pub wf : Wf s'
  pub rows : (i : ℕ) → row_at s' i ≡ none
  pub gens :
      (i : ℕ) → i < s.chunk_cnt * chunk_size → (s'.slot i).gen ≡ ((s.slot i).gen + 1) % u32_mod
  pub count : s'.records ≡ 0
  pub keys : SameKeys s s'
  pub all_free : wf.bound ≡ s.chunk_cnt * chunk_size

module _ (s : Share) (w : Wf s) (sl : ℕ → Slot) (hd : Option ℕ)
    (slots : (i : ℕ)
      → sl i
        ≡ record (if ltb i (s.chunk_cnt * chunk_size) then reset_slot (s.slot i) else s.slot i) {
          free_next = (sl i).free_next;
        })
    (frees : Sized
      (λ i. (sl i).free_next)
      hd
      (λ i. leb 0 i && ltb i (0 + s.chunk_cnt * chunk_size))
      (s.chunk_cnt * chunk_size + 0))
    (buckets : (k : ℕ) → 0 < (s.keydef k).nbuckets) where
  abbrev total : ℕ
  total = s.chunk_cnt * chunk_size

  abbrev emptied : Share
  emptied = record s {
    head = λ k b. if ltb k s.keys && ltb b (s.keydef k).nbuckets then none else s.head k b;
    slot = sl;
    free_head = hd;
    records = 0;
  }

  idle : (i : ℕ) → is_active (sl i).state ≡ false
  idle i =
      ap (λ (z : Slot). is_active z.state) (slots i) ∙ ground (arith, w.active_lt i, w.bound_le)

  no_member : (xs : List ℕ) → ((i : ℕ) → has i xs ≡ false) → xs ≡ []
  no_member [] h = refl
  no_member (x ∷ xs) h = ground (arith, h x)

  -- Behind a bucket number that is out of range there never was a row.
  out_of_range :
      (k b : ℕ) (lt : k < s.keys) → (s.keydef k).nbuckets ≤ b → (w.chains k lt).chain b ≡ []
  unfolding key_bucket
  out_of_range k b lt le = no_member ((w.chains k lt).chain b) (λ i. ground (
    arith,
    (w.chains k lt).members b i,
    bucket-lt (s.keydef k) ((s.keydef k).ops.hash_rec (s.slot i).image) (buckets k),
  ))

  emptied-Chains : Chains emptied (place_of emptied) (λ k. active_at emptied)
  emptied-Chains k lt = record {
    chain = λ b. [];
    linked = λ b. elim (Bool-cases (ltb b (s.keydef k).nbuckets)) [
      | inl e ↦ ground arith
      | inr e ↦
          let old : Linked (s.key_next k) (s.head k b) [] =
            subst (Linked (s.key_next k) (s.head k b)) (out_of_range k b lt (ground arith))
              ((w.chains k lt).linked b) in
          ground arith
    ];
    distinct = λ b. tt;
    members = λ b i. ground (arith, idle i);
  }

  emptied-Cleared : Cleared s emptied
  unfolding row_at
  emptied-Cleared =
      let (f, size) =
        FreeList-congr frees.0 (λ i. (sl i).free_next)
          (λ i. ltb i total && not (is_active (sl i).state) && not false) (λ i m. refl)
          (λ i. ground (arith, idle i)) in
      record {
        wf = record {
          base = record {
            bound = total;
            bound_le = omega arith;
            unbounded = λ lt. refl;
            chunks_le = w.chunks_le;
            cap_le = w.cap_le;
            active_lt = λ i a. ground (arith, idle i);
            frees = f;
            counted = omega (arith, size, frees.1);
            even = λ i. ap (λ (z : Slot). z.seq % 2) (slots i) ∙ ground (arith, w.even i);
          };
          chains = emptied-Chains;
        };
        rows = λ i. ground (arith, idle i);
        gens = λ i lt. ap (λ (z : Slot). z.gen) (slots i) ∙ ground arith;
        count = refl;
        keys = (refl, refl);
        all_free = refl;
      }

at_slot :
    (s s1 : Share) (i : ℕ) (c : Slot)
    → c ≡ record (s1.slot i) { free_next = c.free_next }
    → s1.slot i ≡ (
        if leb 0 i && ltb i (0 + s.chunk_cnt * chunk_size) then reset_slot (s.slot i) else s.slot i)
    → c ≡ record (if ltb i (s.chunk_cnt * chunk_size) then reset_slot (s.slot i) else s.slot i) {
      free_next = c.free_next;
    }
at_slot s s1 i c e h =
    let now : s1.slot i
        ≡ (if ltb i (s.chunk_cnt * chunk_size) then reset_slot (s.slot i) else s.slot i) =
      h ∙ ground arith in
    e ∙ ap (λ (z : Slot). let r : Slot = record z { free_next = c.free_next } in r) now

-- On a well-formed table whose row locks are free and whose keys have buckets, a clear ends: no row is
-- left, the generation of every slot has moved on, the count is 0, and the table is well formed, with
-- every slot of its chunks free, those past the limit of the table too.
pub clear-Cleared :
    (s : Share)
    → Wf s
    → ((i : ℕ) → (s.slot i).wlock ≡ false)
    → ((k : ℕ) → 0 < (s.keydef k).nbuckets)
    → Returns (clear s) (Cleared s)
unfolding clear clear_heads
clear-Cleared s w unlocked buckets =
    let n = s.chunk_cnt * chunk_size in
    let (s1, run, (shape, slots)) = reset_slots-run n 0 (clear_heads s) unlocked in
    let p =
      push_up-Relisted n 0 (record s1 { free_head = none }) (λ i. false)
        (record { slots = []; linked = refl; distinct = tt; members = λ i. refl })
        (λ i a b. refl) in
    let last = λ (z : Share). let r : Share = record z { records = 0 } in r in
    let with = λ (z : Share).
      let r : Share = record z { slot = p.slot; free_head = p.head; records = 0 } in r in
    let same : last (push_up n 0 (record s1 { free_head = none }))
        ≡ emptied s w p.slot p.head (λ i. at_slot s s1 i (p.slot i) (p.same i) (slots i)) p.frees
            buckets =
      ap last p.shape ∙ ap with shape in
    (
      last (push_up n 0 (record s1 { free_head = none })),
      rw (Wf-slot_count w, run),
      subst (Cleared s) (sym same) (
          emptied-Cleared s w p.slot p.head (λ i. at_slot s s1 i (p.slot i) (p.same i) (slots i))
            p.frees buckets),
    )
