-- ===== src/Standalone.antt =====
-- standalone-test/main.cpp: the two keys of its tables.
pub mod Keys
use Prim.Native.Nat.{bit_xor}
use fastmem_mariadb.Prelude.{
  ℕ, zero, suc, ◌+◌, ◌*◌, ◌/◌, ◌%◌, ◌^◌, bit_and, Bool, true, false, Option, none, some, List, [],
  ◌∷◌, Run, done, diverges, ◌>>=◌, ◌==◌, if◌then◌else◌,
}
use fastmem_mariadb.Core.{
  Share, KeyOps, KeyCore, Status, err_ok, err_deleted, Bytes, byte_at, rest_of, u64_mod, u32_mod,
  init_share,
}
use fastmem_mariadb.Core.Alloc.{Memory}
use fastmem_mariadb.Core.Lookup.{ReadResult, row, gone, read_row}
use fastmem_mariadb.Core.Insert.{InsertResult, inserted, insert_row}
use fastmem_mariadb.Core.Update.{update_row}
use fastmem_mariadb.Core.Delete.{delete_row}
use fastmem_mariadb.Data.{same_bytes}

-- The bytes of a value, and the value of the first `n` bytes, the low byte first.
unfoldable pub bytes_of : ℕ → ℕ → List ℕ
bytes_of zero v = []
bytes_of (suc n) v = v % 256 ∷ bytes_of n (v / 256)

unfoldable pub value_of : ℕ → Bytes → ℕ
value_of zero b = 0
value_of (suc n) b = byte_at b % 256 + 256 * value_of n (rest_of b)

unfoldable pub first_bytes : ℕ → Bytes → List ℕ
first_bytes zero b = []
first_bytes (suc n) b = byte_at b % 256 ∷ first_bytes n (rest_of b)

-- `Rec::k`, which stands first in a record, and `*(const std::int64_t *) pk`, as a pattern of 64 bits.
abbrev pub rec_k : Bytes → ℕ
rec_k rec = value_of 8 rec

-- The loop of the hash functions of key 0, and what they return.
unfoldable pub mix : List ℕ → ℕ → ℕ
mix [] h = h
mix (x ∷ xs) h = mix xs (bit_xor h x * 1099511628211 % u64_mod)

unfoldable pub hash_bytes : List ℕ → ℕ
unfolding mix
hash_bytes xs = let h = mix xs 1469598103934665603 in bit_xor h (h / 2 ^ 32) % u32_mod

-- The callbacks `hk0_*`: a unique key on `k`.
unfoldable pub hk0 : KeyOps
unfolding bytes_of value_of first_bytes hash_bytes
hk0 = record {
  hash_rec = λ rec. hash_bytes (bytes_of 8 (rec_k rec));
  hash_key = λ pk. hash_bytes (first_bytes 8 pk);
  cmp_rec_rec = λ a b. if rec_k a == rec_k b then 0 else 1;
  cmp_rec_key = λ rec pk. if rec_k rec == value_of 8 pk then 0 else 1;
  has_null_part = λ rec. false;
}

-- The callbacks `hk1_*`: a key on the two low bits of `k`.
unfoldable pub hk1 : KeyOps
unfolding value_of
hk1 = record {
  hash_rec = λ rec. bit_and (rec_k rec) 3 % u32_mod;
  hash_key = λ pk. bit_and (value_of 8 pk) 3 % u32_mod;
  cmp_rec_rec = λ a b. if bit_and (rec_k a) 3 == bit_and (rec_k b) 3 then 0 else 1;
  cmp_rec_key = λ rec pk. if bit_and (rec_k rec) 3 == bit_and (value_of 8 pk) 3 then 0 else 1;
  has_null_part = λ rec. false;
}
