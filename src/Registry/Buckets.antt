-- ===== src/Registry/Buckets.antt =====
-- The number of buckets of a key.
use native.Mathlib.Nat.{pow-suc}
use mathlib.Core.Path.{subst}
use fastmem_mariadb.Prelude.{
  ℕ, zero, suc, ◌+◌, ◌*◌, ◌/◌, ◌^◌, ◌≤◌, ◌<◌, ◌≡◌, ◌⊎◌, refl, ltb, Bool-cases, inl, inr, arith,
  ltb→le, ltb→lt, ==→eq, ◌==◌, sym, ap, true,
}
use fastmem_mariadb.Registry.{grow_buckets, bucket_count}

-- What the loop leaves.
abbrev pub Sized : ℕ → ℕ → Type 0
Sized max_records n =
    ((k : ℕ) × (n ≡ 2 ^ k) × (10 ≤ k) × (k ≤ 20)) × ((max_records / 4 ≤ n) ⊎ (2 ^ 20 ≤ n))

pow_suc : (k : ℕ) → 2 ^ k * 2 ≡ 2 ^ (suc k)
pow_suc k = sym (pow-suc 2 k)

below_20 : (k : ℕ) → k ≤ 20 → ltb (2 ^ k) (2 ^ 20) ≡ true → k < 20
below_20 k le room = elim (Bool-cases (k == 20)) [
  | inl e ↦
      let p : 2 ^ k ≡ 2 ^ 20 = ap (λ x. 2 ^ x) (==→eq k 20 e) in
      absurd (omega (arith, ltb→lt (2 ^ k) (2 ^ 20) room, p))
  | inr ne ↦ ground (arith, ne)
]

grow_buckets-Sized :
    (fuel k max_records : ℕ)
    → 10 ≤ k
    → k + fuel ≡ 21
    → k ≤ 20
    → Sized max_records (grow_buckets fuel max_records (2 ^ k))
unfolding grow_buckets
grow_buckets-Sized zero k max_records lo e hi = absurd (omega arith)
grow_buckets-Sized (suc fuel) k max_records lo e hi =
    elim (Bool-cases (ltb (2 ^ k) (max_records / 4))) [
      | inr enough ↦ rw enough ((k, refl, lo, hi), inl (ltb→le (2 ^ k) (max_records / 4) enough))
      | inl fewer ↦ elim (Bool-cases (ltb (2 ^ k) (2 ^ 20))) [
        | inr full ↦ rw (fewer, full) ((k, refl, lo, hi), inr (ltb→le (2 ^ k) (2 ^ 20) full))
        | inl room ↦
            let below : k < 20 = below_20 k hi room in
            let ih =
              grow_buckets-Sized fuel (suc k) max_records (omega arith) (omega arith)
                (omega arith) in
            let same : grow_buckets (suc fuel) max_records (2 ^ k)
                ≡ grow_buckets fuel max_records (2 ^ suc k) =
              rw (fewer, room) (ap (grow_buckets fuel max_records) (pow_suc k)) in
            subst (Sized max_records) (sym same) ih
      ]
    ]

-- The loop of the bucket count ends: the result is a power of two from 2 ^ 10 to 2 ^ 20, and at least
-- a quarter of the row limit unless it is at least 2 ^ 20.
pub bucket_count-Sized : (max_records : ℕ) → Sized max_records (bucket_count max_records)
unfolding bucket_count
bucket_count-Sized max_records =
    grow_buckets-Sized 11 10 max_records (omega arith) refl (omega arith)
