-- ===== src/Prelude/Lists.antt =====
-- Lists of slot numbers: membership, distinctness and removal; arrays as updatable functions.
use Prim.Native.Nat.{ℕ, zero, suc, ◌≤◌, ◌<◌}
use mathlib.Core.Path.{◌≡◌}
use mathlib.Core.Bool.{Bool, true, false, ◌||◌}
use mathlib.Core.List.{List, [], ◌∷◌}
use native.Mathlib.Omega.{arith}
use fastmem_mariadb.Prelude.Tests.{◌==◌, if◌then◌else◌}

module _ {ℓ} {A : Type ℓ} where
  abbrev pub length : List A → ℕ
  length [] = 0
  length (x ∷ xs) = suc (length xs)

  abbrev pub take : ℕ → List A → List A
  take zero xs = []
  take (suc n) [] = []
  take (suc n) (x ∷ xs) = x ∷ take n xs

  abbrev pub drop : ℕ → List A → List A
  drop zero xs = xs
  drop (suc n) [] = []
  drop (suc n) (x ∷ xs) = drop n xs

  -- The array `f` after `f[i] = v`.
  abbrev pub update : (ℕ → A) → ℕ → A → ℕ → A
  update f i v j = if j == i then v else f j

abbrev pub has : ℕ → List ℕ → Bool
has a [] = false
has a (x ∷ xs) = (a == x) || has a xs

abbrev pub Distinct : List ℕ → Type 0
Distinct [] = Unit
Distinct (x ∷ xs) = (has x xs ≡ false) × Distinct xs

-- The list without the first occurrence of `a`.
abbrev pub remove : ℕ → List ℕ → List ℕ
remove a [] = []
remove a (x ∷ xs) = if x == a then xs else x ∷ remove a xs

pub has-remove :
    (i a : ℕ) (xs : List ℕ)
    → Distinct xs
    → has i (remove a xs) ≡ (if i == a then false else has i xs)
has-remove i a [] d = ground arith
has-remove i a (x ∷ xs) d = ground (arith, has-remove i a xs)

pub remove-Distinct : (a : ℕ) (xs : List ℕ) → Distinct xs → Distinct (remove a xs)
remove-Distinct a [] d = d
remove-Distinct a (x ∷ xs) d = ground (arith, remove-Distinct a xs, has-remove x a xs)

length-remove : (a : ℕ) (xs : List ℕ) → length xs ≤ suc (length (remove a xs))
length-remove a [] = omega arith
length-remove a (x ∷ xs) = ground (arith, length-remove a xs)

-- Distinct numbers below `n` are at most `n`.
pub length-le :
    (n : ℕ) (xs : List ℕ) → Distinct xs → ((i : ℕ) → has i xs ≡ true → i < n) → length xs ≤ n
length-le n [] d below = omega arith
length-le zero (x ∷ xs) d below = absurd (ground (arith, below x))
length-le (suc n) (x ∷ xs) d below =
    let rest = remove n (x ∷ xs) in
    let short : length rest ≤ n =
      length-le n rest (remove-Distinct n (x ∷ xs) d)
        (λ i h. ground (arith, below i, has-remove i n (x ∷ xs))) in
    omega (arith, length-remove n (x ∷ xs))
