-- ===== src/Core/Wf/Free.antt =====
-- Pushing slots on the freelist and popping them.
use mathlib.Core.Path.{subst}
use fastmem_mariadb.Prelude.{
  ℕ, suc, ◌<◌, ◌≡◌, refl, Bool, true, false, not, ◌&&◌, ◌||◌, Option, none, some, List, [], ◌∷◌,
  ◌==◌, has, Distinct, length, length-le, arith,
}
use fastmem_mariadb.Core.Chain.{Linked}
use fastmem_mariadb.Core.Chain.Laws.{Linked-frame}
use fastmem_mariadb.Core.Wf.{FreeList}

-- A list with its length, as the counters need it.
abbrev pub Sized : (ℕ → Option ℕ) → Option ℕ → (ℕ → Bool) → ℕ → Type 0
Sized next head listed n = (f : FreeList next head listed) × (length f.slots ≡ n)

module _ {next : ℕ → Option ℕ} {head : Option ℕ} {listed : ℕ → Bool}
    (f : FreeList next head listed) where
  pub FreeList-congr :
      (next' : ℕ → Option ℕ) (listed' : ℕ → Bool)
      → ((i : ℕ) → listed i ≡ true → next' i ≡ next i)
      → ((i : ℕ) → listed' i ≡ listed i)
      → Sized next' head listed' (length f.slots)
  FreeList-congr next' listed' n m = (
    record {
      slots = f.slots;
      linked =
          Linked-frame next next' head f.slots f.linked (λ j h. n j (ground (arith, f.members j)));
      distinct = f.distinct;
      members = λ i. ground (arith, f.members i, m i);
    },
    refl,
  )

  pub push-FreeList :
      (idx : ℕ) (next' : ℕ → Option ℕ) (listed' : ℕ → Bool)
      → listed idx ≡ false
      → next' idx ≡ head
      → ((i : ℕ) → listed i ≡ true → next' i ≡ next i)
      → ((i : ℕ) → listed' i ≡ (listed i || i == idx))
      → Sized next' (some idx) listed' (suc (length f.slots))
  push-FreeList idx next' listed' out e n m = (
    record {
      slots = idx ∷ f.slots;
      linked = (
        refl,
        rw e (
            Linked-frame next next' head f.slots f.linked
              (λ j h. n j (ground (arith, f.members j)))),
      );
      distinct = (ground (arith, f.members idx), f.distinct);
      members = λ i. ground (arith, f.members i, m i);
    },
    refl,
  )

  -- A slot that is missing from the list leaves room below the bound.
  pub length-lt :
      (bound idx : ℕ)
      → ((i : ℕ) → listed i ≡ true → i < bound)
      → listed idx ≡ false
      → idx < bound
      → length f.slots < bound
  length-lt bound idx below out lt =
      length-le bound (idx ∷ f.slots) (ground (arith, f.members idx), f.distinct)
        (λ i h. ground (arith, f.members i, below i))

  pub slots_of_none : head ≡ none → f.slots ≡ []
  slots_of_none e = go f.slots f.linked
    where
      go : (xs : List ℕ) → Linked next head xs → xs ≡ []
      go [] l = refl
      go (x ∷ xs) l = cc

  pub pop-FreeList :
      (idx : ℕ)
      → head ≡ some idx
      → (listed idx ≡ true)
        × ((n : ℕ) × (suc n ≡ length f.slots)
            × Sized next (next idx) (λ i. listed i && not (i == idx)) n)
  pop-FreeList idx e = go f.slots refl
    where
      build :
          (x : ℕ) (xs : List ℕ)
          → f.slots ≡ x ∷ xs
          → x ≡ idx
          → Linked next (next idx) xs
          → Distinct (x ∷ xs)
          → ((i : ℕ) → has i (x ∷ xs) ≡ listed i)
          → (listed idx ≡ true)
            × ((n : ℕ) × (suc n ≡ length f.slots)
                × Sized next (next idx) (λ i. listed i && not (i == idx)) n)
      build x xs s p l d m = (
        ground (arith, m idx),
        (
          length xs,
          rw s,
          (
            record { slots = xs; linked = l; distinct = d.1; members = λ i. ground (arith, m i) },
            refl,
          ),
        ),
      )

      go :
          (xs : List ℕ)
          → f.slots ≡ xs
          → (listed idx ≡ true)
            × ((n : ℕ) × (suc n ≡ length f.slots)
                × Sized next (next idx) (λ i. listed i && not (i == idx)) n)
      go [] s = absurd (let l = rw s at (f.linked) in cc)
      go (x ∷ xs) s =
          let l = rw s at (f.linked) in
          let p : x ≡ idx = cc in
          build x xs s p (rw (← p) (l.1)) (rw s at (f.distinct))
            (subst (λ ys. (i : ℕ) → has i ys ≡ listed i) s f.members)
