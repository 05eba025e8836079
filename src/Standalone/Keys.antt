-- ===== src/Standalone/Keys.antt =====
-- The keys of the standalone test are lawful.
use fastmem_mariadb.Prelude.{ℕ, zero, suc, ◌+◌, ◌*◌, ◌/◌, ◌%◌, ◌≡◌, refl, ap, ◌∙◌, arith}
use fastmem_mariadb.Core.{Bytes, byte_at, rest_of}
use fastmem_mariadb.Core.Wf.{LawfulKey}
use fastmem_mariadb.Standalone.{bytes_of, value_of, first_bytes, rec_k, hash_bytes, hk0, hk1}

-- The bytes of the value of a packed key are its bytes.
bytes_of-value_of : (n : ℕ) (b : Bytes) → bytes_of n (value_of n b) ≡ first_bytes n b
unfolding bytes_of value_of first_bytes
bytes_of-value_of zero b = refl
bytes_of-value_of (suc n) b =
    let rest = value_of n (rest_of b) in
    let low : (byte_at b % 256 + 256 * rest) % 256 ≡ byte_at b % 256 = omega arith in
    let high : (byte_at b % 256 + 256 * rest) / 256 ≡ rest = omega arith in
    rw (low, high, bytes_of-value_of n (rest_of b)) refl

hk0-LawfulKey : LawfulKey hk0
unfolding hk0
hk0-LawfulKey = record {
  hash-rec_rec = λ a b e.
      let same : rec_k a ≡ rec_k b = ground arith in ap (λ v. hash_bytes (bytes_of 8 v)) same;
  hash-rec_key = λ a p e.
      let same : rec_k a ≡ value_of 8 p = ground arith in
      ap (λ v. hash_bytes (bytes_of 8 v)) same ∙ ap hash_bytes (bytes_of-value_of 8 p);
  cmp_symm = λ a b. ground arith;
  cmp_trans = λ a b c e e'. ground arith;
  null_congr = λ a b e. refl;
}

hk1-LawfulKey : LawfulKey hk1
unfolding hk1
hk1-LawfulKey = record {
  hash-rec_rec = λ a b e. ground arith;
  hash-rec_key = λ a p e. ground arith;
  cmp_symm = λ a b. ground arith;
  cmp_trans = λ a b c e e'. ground arith;
  null_congr = λ a b e. refl;
}

-- Both keys of the standalone test are lawful: records and packed keys that compare equal have the same hash,
-- and comparing is symmetric and transitive.
pub test_keys-LawfulKey : LawfulKey hk0 × LawfulKey hk1
test_keys-LawfulKey = (hk0-LawfulKey, hk1-LawfulKey)
