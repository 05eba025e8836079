-- ===== src/Core/Wf/Loops.antt =====
-- The loops over the keys, on the chains of all keys.
use fastmem_mariadb.Prelude.{
  ℕ, zero, suc, ◌+◌, ◌-◌, ◌≤◌, ◌<◌, ◌≡◌, refl, Bool, true, not, ◌&&◌, Option, done, ◌==◌, leb, ltb,
  arith,
}
use fastmem_mariadb.Core.{Share, Bytes, key_bucket, slot_count, u32_mod}
use fastmem_mariadb.Core.Delete.{unlink_keys}
use fastmem_mariadb.Core.Insert.{roll_back}
use fastmem_mariadb.Core.Wf.{Chains}
use fastmem_mariadb.Core.Wf.Hang.{rehung, Chains-congr, chain_unlink-Chains}

unlinked_mark :
    (x : Bool) (i idx k k' : ℕ)
    → (x && not (i == idx && leb k k'))
      ≡ (x && not (i == idx && k' == k) && not (i == idx && leb (suc k) k'))
unlinked_mark x i idx k k' = ground arith

rolled_mark :
    (x : Bool) (i idx k k' : ℕ)
    → (x && not (i == idx && ltb k' (suc k)))
      ≡ (x && not (i == idx && k' == k) && not (i == idx && ltb k' k))
rolled_mark x i idx k k' = ground arith

module _ (place : ℕ → ℕ → ℕ) (rec : Bytes) (idx : ℕ) where
  -- After the loop the slot is in no chain of the keys from `k` on.
  pub unlink_keys-Chains :
      (n k : ℕ) (s : Share) (ch : ℕ → ℕ → Bool)
      → k + n ≡ s.keys
      → ((k' : ℕ) → place k' idx ≡ key_bucket (s.keydef k') rec)
      → ((k' i : ℕ) → ch k' i ≡ true → i < slot_count s)
      → Chains s place ch
      → (h : ℕ → ℕ → Option ℕ) × (nx : ℕ → ℕ → Option ℕ) × (unlink_keys n k s rec idx
          ≡ done (rehung s h nx))
        × Chains (rehung s h nx) place (λ k' i. ch k' i && not (i == idx && leb k k'))
  unfolding unlink_keys slot_count
  unlink_keys-Chains zero k s ch e at below c = (
    s.head,
    s.key_next,
    refl,
    Chains-congr s place place ch (λ k' i. ch k' i && not (i == idx && leb k k'))
        (λ k' i lt. ground arith) (λ k' i lt h. refl) c,
  )
  unlink_keys-Chains (suc n) k s ch e at below c =
      let (h, nx, run, c') =
        chain_unlink-Chains s place ch c k idx (key_bucket (s.keydef k) rec) (omega arith) (at k)
          (below k) in
      let s' = rehung s h nx in
      let (h', nx', run', c'') =
        unlink_keys-Chains n (suc k) s' (λ k' i. ch k' i && not (i == idx && k' == k)) (omega arith)
          at (λ k' i m. below k' i (ground arith)) c' in
      (
        h',
        nx',
        rw run run',
        Chains-congr (rehung s h' nx') place place _ (λ k' i. ch k' i && not (i == idx && leb k k'))
            (λ k' i lt. unlinked_mark (ch k' i) i idx k k') (λ k' i lt z. refl) c'',
      )

  -- After the rollback the slot is in no chain of the keys below `k`.
  pub roll_back-Chains :
      (k : ℕ) (s : Share) (ch : ℕ → ℕ → Bool)
      → k ≤ s.keys
      → ((k' : ℕ) → place k' idx ≡ key_bucket (s.keydef k') rec)
      → ((k' i : ℕ) → ch k' i ≡ true → i < slot_count s)
      → Chains s place ch
      → (h : ℕ → ℕ → Option ℕ) × (nx : ℕ → ℕ → Option ℕ) × (roll_back k s rec idx
          ≡ done (rehung s h nx, u32_mod - 1))
        × Chains (rehung s h nx) place (λ k' i. ch k' i && not (i == idx && ltb k' k))
  unfolding roll_back slot_count
  roll_back-Chains zero s ch e at below c = (
    s.head,
    s.key_next,
    refl,
    Chains-congr s place place ch (λ k' i. ch k' i && not (i == idx && ltb k' 0))
        (λ k' i lt. ground arith) (λ k' i lt h. refl) c,
  )
  roll_back-Chains (suc k) s ch e at below c =
      let (h, nx, run, c') =
        chain_unlink-Chains s place ch c k idx (key_bucket (s.keydef k) rec) e (at k) (below k) in
      let (h', nx', run', c'') =
        roll_back-Chains k (rehung s h nx) (λ k' i. ch k' i && not (i == idx && k' == k))
          (omega arith) at (λ k' i m. below k' i (ground arith)) c' in
      (
        h',
        nx',
        rw run run',
        Chains-congr (rehung s h' nx') place place _
            (λ k' i. ch k' i && not (i == idx && ltb k' (suc k)))
            (λ k' i lt. rolled_mark (ch k' i) i idx k k') (λ k' i lt z. refl) c'',
      )
