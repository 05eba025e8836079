-- ===== src/Core/Seqlock/Reads.antt =====
-- What a reader of one slot gets, and that it gets it.
use fastmem_mariadb.Prelude.{
  ℕ, zero, suc, ◌+◌, ◌%◌, ◌<◌, ◌≡◌, ◌&&◌, refl, Bool, true, false, ◌==◌, if◌then◌else◌, Option,
  none, some, Bool-cases, inl, inr, update, arith,
}
use mathlib.Core.Path.{subst}
use fastmem_mariadb.Core.{is_active, u32_mod}
use fastmem_mariadb.Core.Seqlock.{
  Image, Cell, Pc, read_state, read_seq, read_copy, read_check, read_ok, read_gone, Move,
  state_gone, state_there, gen_any, gen_there, gen_gone, seq_even, load_byte, loaded, same_seq,
  System, Reach,
}
use fastmem_mariadb.Core.Seqlock.Inv.{in_write, holds, ReaderOk, Copied, Reach-Inv}

in_write-holds : (p : Pc) → in_write p ≡ true → holds p ≡ true
in_write-holds p e = ground arith

-- In every state that any number of threads reach on one slot by reads, updates, deletes and inserts: a
-- reader that has copied the image and finds `seq` as it was has exactly the image that is in the slot
-- now, and no thread is in the middle of an update. Since the reader loaded `seq`, the counter has
-- moved fewer than 2 ^ 32 steps, and no insert has stored a byte of the slot.
pub read_whole :
    {n : ℕ} {garbage : Image} {s : System}
    → Reach n garbage s
    → (i s1 ticks fills : ℕ) (want : Option ℕ) (buf : Image)
    → s.pc i ≡ read_check want s1 ticks fills buf
    → s.cell.seq ≡ s1
    → s.cell.ticks < ticks + u32_mod
    → s.cell.fills ≡ fills
    → ((j : ℕ) → j < n → buf j ≡ s.cell.image j) × ((k : ℕ) → in_write (s.pc k) ≡ false)
read_whole {n} {s = s} r i s1 ticks fills want buf at_check same few unfilled =
    let v = Reach-Inv r in
    let (e, even, le, le', copied) : Copied s.cell s1 ticks fills n buf =
      subst (ReaderOk n s.cell) at_check (v.readers i) in
    let now : s.cell.ticks ≡ ticks = omega (arith, v.seq) in
    (copied now unfilled, λ k. ground (arith, v.parity k, in_write-holds (s.pc k)))

-- A reader's moves over a slot that no other thread changes.
pub data Undisturbed (n : ℕ) (c : Cell) : Pc → Pc → Type 0 where
  here : {p : Pc} → Undisturbed n c p p
  move : {p q r : Pc} → Move n c p c q → Undisturbed n c q r → Undisturbed n c p r

abbrev pub fits : Cell → Option ℕ → Bool
fits c none = is_active c.state
fits c (some g) = is_active c.state && c.gen == g

copies :
    (n : ℕ) (c : Cell) (want : Option ℕ) (m k : ℕ) (buf : Image)
    → k + m ≡ n
    → ((j : ℕ) → j < k → buf j ≡ c.image j)
    → (buf' : Image) × Undisturbed n c (read_copy want c.seq c.ticks c.fills k buf) (read_ok buf')
      × ((j : ℕ) → j < n → buf' j ≡ c.image j)
copies n c want zero k buf e r =
    (buf, move (loaded (omega arith)) (move (same_seq refl) here), λ j lt. r j (omega arith))
copies n c want (suc m) k buf e r =
    let (buf', run, post) =
      copies n c want m (k + 1) (update buf k (c.image k)) (omega arith)
        (λ j lt. ground (arith, r j)) in
    (buf', move (load_byte (omega arith)) run, post)

from_seq :
    (n : ℕ) (c : Cell) (want : Option ℕ) (buf : Image)
    → c.seq % 2 ≡ 0
    → (buf' : Image) × Undisturbed n c (read_seq want) (read_ok buf')
      × ((j : ℕ) → j < n → buf' j ≡ c.image j)
from_seq n c want buf even =
    let (buf', run, post) = copies n c want n 0 buf (omega arith) (λ j lt. absurd (omega arith)) in
    (buf', move (seq_even buf even) run, post)

-- How an undisturbed read ends.
abbrev pub Ends : ℕ → Cell → Option ℕ → Type 0
Ends n c want =
    if fits c want
    then ((buf : Image) × Undisturbed n c (read_state want) (read_ok buf)
        × ((j : ℕ) → j < n → buf j ≡ c.image j))
    else Undisturbed n c (read_state want) read_gone

-- A read of a slot whose `seq` is even, with no other thread at work on the slot, ends: with the image of
-- the slot where the slot is active and has the wanted generation, if one is wanted, and with the report
-- that the row is gone where not.
pub read-Ends : (n : ℕ) (c : Cell) (want : Option ℕ) → c.seq % 2 ≡ 0 → Ends n c want
read-Ends n c none even = elim (Bool-cases (is_active c.state)) [
  | inl on ↦
      let (buf, run, post) = from_seq n c none c.image even in
      rw on (buf, move (state_there on) (move gen_any run), post)
  | inr off ↦ rw off (move (state_gone off) here)
]
read-Ends n c (some g) even = elim (Bool-cases (is_active c.state)) [
  | inr off ↦ rw off (move (state_gone off) here)
  | inl on ↦ elim (Bool-cases (c.gen == g)) [
    | inl e ↦
        let (buf, run, post) = from_seq n c (some g) c.image even in
        rw (on, e) (buf, move (state_there on) (move (gen_there (ground arith)) run), post)
    | inr ne ↦ rw (on, ne) (move (state_there on) (move (gen_gone (ground arith)) here))
  ]
]
