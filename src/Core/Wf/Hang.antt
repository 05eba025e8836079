-- ===== src/Core/Wf/Hang.antt =====
-- `fm_core_chain_unlink` and `fm_core_chain_link` on the chains of all keys.
use fastmem_mariadb.Prelude.{
  ℕ, ◌<◌, ◌≡◌, refl, Bool, true, false, not, ◌&&◌, ◌||◌, Option, some, done, ◌==◌, if◌then◌else◌,
  inl, inr, Bool-cases, ==→eq, update, arith,
}
use fastmem_mariadb.Core.{Share, err_ok, err_not_found, slot_count}
use fastmem_mariadb.Core.Chain.{chain_unlink, chain_link, set_cells}
use fastmem_mariadb.Core.Wf.{KeyChains, Base, Chains}
use fastmem_mariadb.Core.Wf.Chains.{KeyChains-congr, link-KeyChains, unlink-KeyChains}

-- The share with other chains.
abbrev pub rehung : Share → (ℕ → ℕ → Option ℕ) → (ℕ → ℕ → Option ℕ) → Share
rehung s h n = record s { head = h; key_next = n }

pub rehung-Base :
    (s : Share) (h n : ℕ → ℕ → Option ℕ) (idle : ℕ → Bool) (m : ℕ)
    → Base s idle m
    → Base (rehung s h n) idle m
rehung-Base s h n idle m b = record {
  bound = b.bound;
  bound_le = b.bound_le;
  unbounded = b.unbounded;
  chunks_le = b.chunks_le;
  cap_le = b.cap_le;
  active_lt = b.active_lt;
  frees = b.frees;
  counted = b.counted;
  even = b.even;
}

-- The same chains, described by another family of marks and places.
pub Chains-congr :
    (s : Share) (place place' : ℕ → ℕ → ℕ) (ch ch' : ℕ → ℕ → Bool)
    → ((k i : ℕ) → k < s.keys → ch' k i ≡ ch k i)
    → ((k i : ℕ) → k < s.keys → ch k i ≡ true → place' k i ≡ place k i)
    → Chains s place ch
    → Chains s place' ch'
Chains-congr s place place' ch ch' m p c k lt =
    KeyChains-congr (c k lt) (s.key_next k) (place' k) (ch' k) (λ i e. refl) (λ i. m k i lt)
      (λ i. p k i lt)

module _ (s : Share) (place : ℕ → ℕ → ℕ) (ch : ℕ → ℕ → Bool) (c : Chains s place ch) (k : ℕ) where
  -- New chains for one key.
  update-Chains :
      (hd nx : ℕ → Option ℕ) (ch' : ℕ → Bool)
      → KeyChains nx hd (place k) ch'
      → Chains
          (rehung s (update s.head k hd) (update s.key_next k nx))
          place
          (λ k' i. if k' == k then ch' i else ch k' i)
  update-Chains hd nx ch' kc k' lt = elim (Bool-cases (k' == k)) [
    | inl e ↦
        let p : k' ≡ k = ==→eq k' k e in
        rw e (KeyChains-congr kc nx (place k') ch' (λ i h. refl) (λ i. refl) (λ i h. rw p))
    | inr e ↦ rw e (c k' lt)
  ]

  module _ (idx b : ℕ) (lt : k < s.keys) (at : place k idx ≡ b) where
    pub chain_unlink-Chains :
        ((i : ℕ) → ch k i ≡ true → i < slot_count s)
        → (h : ℕ → ℕ → Option ℕ) × (n : ℕ → ℕ → Option ℕ) × (chain_unlink s k b idx
            ≡ done (rehung s h n, (if ch k idx then err_ok else err_not_found)))
          × Chains (rehung s h n) place (λ k' i. ch k' i && not (i == idx && k' == k))
    unfolding chain_unlink
    chain_unlink-Chains below =
        let ((r, rc), run, (status, kc)) =
          unlink-KeyChains (c k lt) (slot_count s) idx b below at in
        let s' = set_cells s k b r in
        (
          s'.head,
          s'.key_next,
          rw (run, status),
          Chains-congr s' place place _ (λ k' i. ch k' i && not (i == idx && k' == k))
              (λ k' i lt'. mark k' i) (λ k' i lt' h. refl)
              (update-Chains (update (s.head k) b r.first) r.next (λ i. ch k i && not (i == idx))
                kc),
        )
      where
        mark :
            (k' i : ℕ)
            → (ch k' i && not (i == idx && k' == k))
              ≡ (if k' == k then ch k i && not (i == idx) else ch k' i)
        mark k' i = ground arith

    pub chain_link-Chains :
        ch k idx ≡ false
        → (h : ℕ → ℕ → Option ℕ) × (n : ℕ → ℕ → Option ℕ) × (chain_link s k b idx ≡ rehung s h n)
          × Chains (rehung s h n) place (λ k' i. ch k' i || i == idx && k' == k)
    unfolding chain_link
    chain_link-Chains out =
        let s' = chain_link s k b idx in
        (
          s'.head,
          s'.key_next,
          refl,
          Chains-congr s' place place _ (λ k' i. ch k' i || i == idx && k' == k)
              (λ k' i lt'. mark k' i) (λ k' i lt' h. refl)
              (update-Chains (update (s.head k) b (some idx))
                (update (s.key_next k) idx (s.head k b)) (λ i. ch k i || i == idx)
                (link-KeyChains (c k lt) idx b out at)),
        )
      where
        mark :
            (k' i : ℕ)
            → (ch k' i || i == idx && k' == k) ≡ (if k' == k then ch k i || i == idx else ch k' i)
        mark k' i = ground arith
