-- ===== src/Core/Bits.antt =====
-- The mask of `fm_bucket`: a bucket number is below the number of buckets.
use Prim.Native.Nat.{min, digits, bit_and-bitwise}
use fastmem_mariadb.Prelude.{ℕ, zero, suc, ◌-◌, ◌/◌, ◌≤◌, ◌<◌, bit_and, arith}
use fastmem_mariadb.Core.{KeyCore, bucket}

-- The digits of `a & b`, most of `n` of them, make a number that is at most `b`.
digits-le : (n a b : ℕ) → digits (λ c. zero) min n a b ≤ b
digits-le zero zero b = omega arith
digits-le zero (suc a) b = omega arith
digits-le (suc n) zero b = omega arith
digits-le (suc n) (suc a) b = omega (arith, digits-le n (suc a / 2) (b / 2))

pub bit_and-le : (a b : ℕ) → bit_and a b ≤ b
bit_and-le a b = omega (arith, bit_and-bitwise a b, digits-le a a b)

pub bucket-lt : (kc : KeyCore) (hash : ℕ) → 0 < kc.nbuckets → bucket kc hash < kc.nbuckets
unfolding bucket
bucket-lt kc hash pos = omega (arith, bit_and-le hash (kc.nbuckets - 1))
