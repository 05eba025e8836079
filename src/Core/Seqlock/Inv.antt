-- ===== src/Core/Seqlock/Inv.antt =====
-- The invariant of the threads over one slot.
use fastmem_mariadb.Prelude.{
  ℕ, ◌%◌, ◌≤◌, ◌<◌, ◌≡◌, refl, Bool, true, false, ◌==◌, if◌then◌else◌, sym, ◌∙◌, Bool-cases, inl,
  inr, arith,
}
use fastmem_mariadb.Core.{u32_mod}
use fastmem_mariadb.Core.Seqlock.{
  Image, Cell, Pc, read_copy, read_check, update_lock, update_state, update_gen, update_odd,
  update_copy, update_even, update_unlock, delete_lock, delete_state, delete_gen, delete_freeze,
  delete_unlock, Move, seq_even, load_byte, loaded, update_locked, store_byte, delete_locked,
  fill_byte, System, Step, pick, init, Reach, start, later,
}

-- Between the return of `wlock.lock` and `wlock.unlock`.
abbrev pub holds : Pc → Bool
holds (update_state _ _) = true
holds (update_gen _ _) = true
holds (update_odd _) = true
holds (update_copy _ _) = true
holds update_even = true
holds update_unlock = true
holds (delete_state _) = true
holds (delete_gen _) = true
holds delete_freeze = true
holds delete_unlock = true
holds _ = false

-- Between the two steps of `seq`.
abbrev pub in_write : Pc → Bool
in_write (update_copy _ _) = true
in_write update_even = true
in_write _ = false

-- What a reader has copied is in the slot, if nothing was stored since it loaded `seq`.
abbrev pub Copied : Cell → ℕ → ℕ → ℕ → ℕ → Image → Type 0
Copied c s1 t f k buf =
    (s1 ≡ t % u32_mod)
    × (t % 2 ≡ 0)
    × (t ≤ c.ticks)
    × (f ≤ c.fills)
    × (c.ticks ≡ t → c.fills ≡ f → (j : ℕ) → j < k → buf j ≡ c.image j)

abbrev pub ReaderOk : ℕ → Cell → Pc → Type 0
ReaderOk n c (read_copy _ s1 t f k buf) = Copied c s1 t f k buf
ReaderOk n c (read_check _ s1 t f buf) = Copied c s1 t f n buf
ReaderOk n c _ = Unit {0}

pub record Inv (n : ℕ) (s : System) : Type 0 where
  pub alone : (i j : ℕ) → holds (s.pc i) ≡ true → holds (s.pc j) ≡ true → i ≡ j
  pub locked : (i : ℕ) → holds (s.pc i) ≡ true → s.cell.wlock ≡ true
  pub parity :
      (i : ℕ) → holds (s.pc i) ≡ true → s.cell.ticks % 2 ≡ (if in_write (s.pc i) then 1 else 0)
  pub free : s.cell.wlock ≡ false → s.cell.ticks % 2 ≡ 0
  pub seq : s.cell.seq ≡ s.cell.ticks % u32_mod
  pub readers : (i : ℕ) → ReaderOk n s.cell (s.pc i)

-- What the invariant says to a thread at `p`.
record Here (c : Cell) (p : Pc) : Type 0 where
  locked : holds p ≡ true → c.wlock ≡ true
  parity : holds p ≡ true → c.ticks % 2 ≡ (if in_write p then 1 else 0)
  free : c.wlock ≡ false → c.ticks % 2 ≡ 0
  seq : c.seq ≡ c.ticks % u32_mod

-- What a move keeps of it, and what it leaves to the threads at other places.
record Kept (n : ℕ) (c : Cell) (p : Pc) (c' : Cell) (p' : Pc) : Type 0 where
  locked : holds p' ≡ true → c'.wlock ≡ true
  parity : holds p' ≡ true → c'.ticks % 2 ≡ (if in_write p' then 1 else 0)
  free : c'.wlock ≡ false → c'.ticks % 2 ≡ 0
  seq : c'.seq ≡ c'.ticks % u32_mod
  others :
      holds p ≡ false
      → c.wlock ≡ true
      → (c'.wlock ≡ true) × (c'.ticks ≡ c.ticks) × (holds p' ≡ false)
  ticks_le : c.ticks ≤ c'.ticks
  fills_le : c.fills ≤ c'.fills
  stable :
      (t f : ℕ)
      → t % 2 ≡ 0
      → t ≤ c.ticks
      → f ≤ c.fills
      → c'.ticks ≡ t
      → c'.fills ≡ f
      → (c.ticks ≡ t) × (c.fills ≡ f) × ((j : ℕ) → c'.image j ≡ c.image j)

acquire-Kept :
    (n : ℕ) (c : Cell) (p p' : Pc)
    → c.wlock ≡ false
    → in_write p' ≡ false
    → Here c p
    → Kept n c p (record c { wlock = true }) p'
acquire-Kept n c p p' unlocked out h = record {
  locked = λ e. refl;
  parity = λ e. ground (arith, h.free);
  free = λ e. cc;
  seq = h.seq;
  others = λ a b. absurd (cc);
  ticks_le = omega arith;
  fills_le = omega arith;
  stable = λ t f e le le' p q. (omega arith, omega arith, λ j. refl);
}

Move-Kept : {n : ℕ} {c c' : Cell} {p p' : Pc} → Move n c p c' p' → Here c p → Kept n c p c' p'
Move-Kept (store_byte lt) h = record {
  locked = h.locked;
  parity = h.parity;
  free = h.free;
  seq = h.seq;
  others = λ a b. ground arith;
  ticks_le = omega arith;
  fills_le = omega arith;
  stable = λ t f e le le' p q. absurd (ground (arith, h.parity));
}
Move-Kept (fill_byte lt) h = record {
  locked = λ e. ground arith;
  parity = λ e. ground arith;
  free = h.free;
  seq = h.seq;
  others = λ a b. (b, refl, refl);
  ticks_le = omega arith;
  fills_le = omega arith;
  stable = λ t f e le le' p q. absurd (omega arith);
}
Move-Kept (update_locked {g} {rec} free) h =
    acquire-Kept _ _ (update_lock g rec) (update_state g rec) free refl h
Move-Kept (delete_locked {g} free) h = acquire-Kept _ _ (delete_lock g) (delete_state g) free refl h
Move-Kept m h = record {
  locked = λ e. ground (arith, h.locked);
  parity = λ e. ground (arith, h.parity, h.locked, h.free);
  free = λ e. ground (arith, h.free, h.parity);
  seq = ground (arith, h.seq);
  others = λ a b. ground arith;
  ticks_le = omega arith;
  fills_le = omega arith;
  stable = λ t f e le le' p q. (omega arith, omega arith, λ j. refl);
}

-- A reader's own move.
Move-ReaderOk :
    {n : ℕ} {c c' : Cell} {p p' : Pc}
    → Move n c p c' p'
    → c.seq ≡ c.ticks % u32_mod
    → ReaderOk n c p
    → ReaderOk n c' p'
Move-ReaderOk (seq_even buf even) seq r =
    (seq, omega arith, omega arith, omega arith, λ a b j lt. absurd (omega arith))
Move-ReaderOk (load_byte {k = k} lt) seq (e, even, le, le', r) =
    (e, even, le, le', λ a b j below. ground (arith, r a b j))
Move-ReaderOk (loaded e) seq (s, even, le, le', r) =
    (s, even, le, le', λ a b j below. r a b j (omega arith))
Move-ReaderOk m seq r = tt

-- A reader, when another thread moves.
Copied-stable :
    {n : ℕ} {c c' : Cell} {p p' : Pc} (s1 t f k : ℕ) (buf : Image)
    → Kept n c p c' p'
    → Copied c s1 t f k buf
    → Copied c' s1 t f k buf
Copied-stable s1 t f k buf kept (e, even, le, le', r) = (
  e,
  even,
  omega (arith, kept.ticks_le),
  omega (arith, kept.fills_le),
  λ a b j lt. let (a', b', same) = kept.stable t f even le le' a b in r a' b' j lt ∙ sym (same j),
)

ReaderOk-stable :
    {n : ℕ} {c c' : Cell} {p p' : Pc} (q : Pc) → Kept n c p c' p' → ReaderOk n c q → ReaderOk n c' q
ReaderOk-stable (read_copy w s1 t f k buf) kept r = Copied-stable s1 t f k buf kept r
ReaderOk-stable {n} (read_check w s1 t f buf) kept r = Copied-stable s1 t f n buf kept r
ReaderOk-stable _ kept r = tt

Inv-Here : {n : ℕ} {s : System} (i : ℕ) → Inv n s → Here s.cell (s.pc i)
Inv-Here i v = record { locked = v.locked i; parity = v.parity i; free = v.free; seq = v.seq }

pub Step-Inv : {n : ℕ} {s t : System} → Step n s t → Inv n s → Inv n t
Step-Inv {n} {s} (pick i {c} {p} m) v =
    let k = Move-Kept m (Inv-Here i v) in
    let other : (j : ℕ)
        → (j == i) ≡ false
        → holds (s.pc j) ≡ true
        → (c.wlock ≡ true) × (c.ticks ≡ s.cell.ticks) × (holds p ≡ false) =
      λ j ne h. k.others (ground (arith, v.alone i j)) (v.locked j h) in
    record {
      alone = λ a b ha hb. ground (arith, v.alone a b, other a, other b);
      locked = λ j h. ground (arith, other j, k.locked);
      parity = λ j h. ground (arith, other j, k.parity, v.parity j);
      free = k.free;
      seq = k.seq;
      readers = λ j. elim (Bool-cases (j == i)) [
        | inl e ↦ rw e (Move-ReaderOk m v.seq (v.readers i))
        | inr e ↦ rw e (ReaderOk-stable (s.pc j) k (v.readers j))
      ];
    }

init-Inv : (n : ℕ) (garbage : Image) → Inv n (init garbage)
init-Inv n garbage = record {
  alone = λ i j h h'. cc;
  locked = λ i h. cc;
  parity = λ i h. cc;
  free = λ h. refl;
  seq = refl;
  readers = λ i. tt;
}

pub Reach-Inv : {n : ℕ} {garbage : Image} {s : System} → Reach n garbage s → Inv n s
Reach-Inv {n} {garbage} start = init-Inv n garbage
Reach-Inv (later r st) = Step-Inv st (Reach-Inv r)
