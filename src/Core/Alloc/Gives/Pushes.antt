-- ===== src/Core/Alloc/Gives/Pushes.antt =====
-- Slots that are put on the freelist in a row.
use fastmem_mariadb.Prelude.{
  ℕ, zero, suc, ◌+◌, ◌≤◌, ◌<◌, ◌≡◌, refl, Bool, false, ◌&&◌, ◌||◌, Option, ◌==◌, leb, ltb, ◌∙◌,
  length, arith,
}
use fastmem_mariadb.Core.{Share, Slot}
use fastmem_mariadb.Core.Alloc.{free_slot, push_down}
use fastmem_mariadb.Core.Wf.{FreeList, free_cells}
use fastmem_mariadb.Core.Wf.Free.{Sized, FreeList-congr, push-FreeList}

-- Pushing a block of slots: only `free_next` and `free_head` change.
pub record Pushed (s : Share) (listed : ℕ → Bool) (len n lo : ℕ) (s' : Share) : Type 0 where
  pub slot : ℕ → Slot
  pub head : Option ℕ
  pub shape : s' ≡ record s { slot = slot; free_head = head }
  pub same : (i : ℕ) → slot i ≡ record (s.slot i) { free_next = (slot i).free_next }
  pub frees :
      Sized (λ i. (slot i).free_next) head (λ i. listed i || leb lo i && ltb i (lo + n)) (n + len)

free_slot-same :
    (s : Share) (j i : ℕ) (x : Option ℕ)
    → (let sl : Slot = record ((free_slot s j).slot i) { free_next = x } in sl)
      ≡ record (s.slot i) { free_next = x }
unfolding free_slot
free_slot-same s j i x = ground arith

same_through :
    (a b c : Slot)
    → c ≡ record a { free_next = c.free_next }
    → (let sl : Slot = record a { free_next = c.free_next } in sl)
      ≡ record b { free_next = c.free_next }
    → c ≡ record b { free_next = c.free_next }
same_through a b c p q = p ∙ q

pub push_down-Pushed :
    (n lo : ℕ) (s : Share) (listed : ℕ → Bool) (f : FreeList (free_cells s) s.free_head listed)
    → ((i : ℕ) → lo ≤ i → i < lo + n → listed i ≡ false)
    → Pushed s listed (length f.slots) n lo (push_down n lo s)
unfolding push_down free_slot
push_down-Pushed zero lo s listed f out =
    let (f', size) =
      FreeList-congr f (free_cells s) (λ i. listed i || leb lo i && ltb i (lo + 0)) (λ i h. refl)
        (λ i. ground arith) in
    record {
      slot = s.slot;
      head = s.free_head;
      shape = refl;
      same = λ i. refl;
      frees = (f', omega (arith, size));
    }
push_down-Pushed (suc n) lo s listed f out =
    let s1 = free_slot s (lo + n) in
    let mid = λ (i : ℕ). listed i || i == lo + n in
    let (f1, size1) =
      push-FreeList f (lo + n) (free_cells s1) mid (out (lo + n) (omega arith) (omega arith))
        (ground arith) (λ i h. ground (arith, out (lo + n))) (λ i. refl) in
    let p = push_down-Pushed n lo s1 mid f1 (λ i a b. ground (arith, out i)) in
    let (f2, size2) = p.frees in
    let (f3, size3) =
      FreeList-congr f2 (λ i. (p.slot i).free_next)
        (λ i. listed i || leb lo i && ltb i (lo + suc n)) (λ i h. refl) (λ i. ground arith) in
    record {
      slot = p.slot;
      head = p.head;
      shape = p.shape;
      same = λ i.
          same_through (s1.slot i) (s.slot i) (p.slot i) (p.same i)
            (free_slot-same s (lo + n) i (p.slot i).free_next);
      frees = (f3, omega (arith, size1, size2, size3));
    }
