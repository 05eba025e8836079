-- ===== src/Core/Wf/Walks.antt =====
-- What the lookups find in the chains of a key.
pub mod Find
pub mod Next
pub mod Scan
use fastmem_mariadb.Prelude.{
  ℕ, suc, ◌+◌, ◌*◌, ◌%◌, ◌^◌, ◌≤◌, ◌<◌, ◌≡◌, ◌≢◌, refl, Bool, true, false, not, ◌&&◌, ◌||◌, Option,
  none, some, List, [], ◌∷◌, Run, done, Returns, ◌>>=◌, ◌==◌, if◌then◌else◌, inl, inr, Bool-cases,
  Option-cases, ==_refl, ◌∙◌, has, length, ◌⊎◌, arith,
}
use fastmem_mariadb.Core.{
  Share, Status, err_ok, err_dup_key, Bytes, is_active, chunk_size, slot_count,
}
use fastmem_mariadb.Core.Chain.{walk, first_of_list}
use fastmem_mariadb.Core.Chain.Laws.{walk-first_of_list}
use fastmem_mariadb.Core.Lookup.{ReadResult, row, gone, read_row, visit_rec, checks_dup, dup_check}
use fastmem_mariadb.Core.Wf.{KeyChains, Wf, active_at, place_of, row_at}
use fastmem_mariadb.Core.Wf.Chains.{length-chain}

-- What the walks need of a share: no image write is under way, and rows lie below the slot count.
pub record IsQuiet (s : Share) : Type 0 where
  pub even : (i : ℕ) → (s.slot i).seq % 2 ≡ 0
  pub below : (i : ℕ) → active_at s i ≡ true → i < slot_count s

pub Wf-slot_count : {s : Share} → Wf s → slot_count s ≡ s.chunk_cnt * chunk_size
unfolding slot_count
Wf-slot_count w = omega arith

pub Wf-IsQuiet : {s : Share} → Wf s → IsQuiet s
Wf-IsQuiet w = record {
  even = w.even;
  below = λ i a. omega (arith, Wf-slot_count w, w.active_lt i a);
}

-- The first result of `g` along a list.
unfoldable pub first_some {ℓ} : {A : Type ℓ} → (ℕ → Option A) → List ℕ → Option A
first_some g [] = none
first_some g (i ∷ xs) = elim (g i) [ some a ↦ some a | none ↦ first_some g xs ]

pub first_of_list-done {ℓ} :
    {A : Type ℓ} (visit : ℕ → Run (Option A)) (g : ℕ → Option A) (xs : List ℕ)
    → ((i : ℕ) → visit i ≡ done (g i))
    → first_of_list visit xs ≡ done (first_some g xs)
unfolding first_of_list first_some
first_of_list-done visit g [] v = refl
first_of_list-done visit g (i ∷ xs) v = elim (Option-cases (g i)) [
  | inl e ↦ rw (v i, e, first_some) (first_of_list-done visit g xs v)
  | inr (a, e) ↦ rw (v i, e, first_some)
]

-- A result comes from a member, and no result means that no member has one.
abbrev pub FromMember {ℓ} : {A : Type ℓ} → (ℕ → Option A) → List ℕ → Option A → Type ℓ
FromMember g xs none = (i : ℕ) → has i xs ≡ true → g i ≡ none
FromMember g xs (some a) = (i : ℕ) × (has i xs ≡ true) × (g i ≡ some a)

FromMember-cons {ℓ} :
    {A : Type ℓ} (g : ℕ → Option A) (x : ℕ) (xs : List ℕ) (r : Option A)
    → g x ≡ none
    → FromMember g xs r
    → FromMember g (x ∷ xs) r
FromMember-cons g x xs none e h = λ i m. ground (arith, h i)
FromMember-cons g x xs (some a) e (i, m, v) = (i, ground arith, v)

pub first_some-FromMember {ℓ} :
    {A : Type ℓ} (g : ℕ → Option A) (xs : List ℕ) → FromMember g xs (first_some g xs)
unfolding first_some
first_some-FromMember g [] = λ i m. cc
first_some-FromMember g (x ∷ xs) = elim (Option-cases (g x)) [
  | inl e ↦
      rw (e, first_some) (FromMember-cons g x xs (first_some g xs) e (first_some-FromMember g xs))
  | inr (a, e) ↦ rw (e, first_some) (x, ground arith, e)
]

module _ {s : Share} (q : IsQuiet s) where
  pub read_row_lem :
      (i : ℕ) → read_row s i false 0 ≡ done (if active_at s i then row (s.slot i).image else gone)
  unfolding read_row
  read_row_lem i = ground (arith, q.even i)

  module _ (k : ℕ) (c : KeyChains (s.key_next k) (s.head k) (place_of s k) (active_at s)) where
    pub walk-first_some {ℓ} :
        {A : Type ℓ} (visit : ℕ → Run (Option A)) (g : ℕ → Option A) (b : ℕ)
        → ((i : ℕ) → visit i ≡ done (g i))
        → walk (slot_count s + 1) (s.key_next k) visit (s.head k b)
          ≡ done (first_some g (c.chain b))
    walk-first_some visit g b v =
        walk-first_of_list (slot_count s + 1) (s.key_next k) visit (s.head k b) (c.chain b)
          (c.linked b) (omega (arith, length-chain c (slot_count s) b q.below))
        ∙ first_of_list-done visit g (c.chain b) v
