-- ===== src/Core/Wf/Chains.antt =====
-- Linking a slot into the chains of a key, and taking it out.
use fastmem_mariadb.Prelude.{
  ℕ, ◌+◌, ◌≤◌, ◌<◌, ◌≡◌, refl, Bool, true, false, not, ◌&&◌, ◌||◌, Option, some, ◌∷◌, Returns, ◌==◌,
  if◌then◌else◌, inl, inr, Bool-cases, ==_refl, update, remove, has-remove, remove-Distinct,
  length-le, length, arith,
}
use fastmem_mariadb.Core.{err_ok, err_not_found}
use fastmem_mariadb.Core.Chain.{Cells, to_first, to_next, unlink_loop}
use fastmem_mariadb.Core.Chain.Laws.{Linked-frame, unlink_loop-Unlinked}
use fastmem_mariadb.Core.Wf.{KeyChains}

module _ {next head : ℕ → Option ℕ} {place : ℕ → ℕ} {chained : ℕ → Bool}
    (c : KeyChains next head place chained) where
  -- The same chains, described by other functions that agree where it matters.
  pub KeyChains-congr :
      (next' : ℕ → Option ℕ) (place' : ℕ → ℕ) (chained' : ℕ → Bool)
      → ((i : ℕ) → chained i ≡ true → next' i ≡ next i)
      → ((i : ℕ) → chained' i ≡ chained i)
      → ((i : ℕ) → chained i ≡ true → place' i ≡ place i)
      → KeyChains next' head place' chained'
  KeyChains-congr next' place' chained' n m p = record {
    chain = c.chain;
    linked = λ b.
        Linked-frame next next' (head b) (c.chain b) (c.linked b)
          (λ j h. n j (ground (arith, c.members b j)));
    distinct = c.distinct;
    members = λ b i. ground (arith, c.members b i, m i, p i);
  }

  pub length-chain : (n b : ℕ) → ((i : ℕ) → chained i ≡ true → i < n) → length (c.chain b) ≤ n
  length-chain n b below =
      length-le n (c.chain b) (c.distinct b) (λ i h. below i (ground (arith, c.members b i)))

  pub link-KeyChains :
      (idx b : ℕ)
      → chained idx ≡ false
      → place idx ≡ b
      → KeyChains
          (update next idx (head b))
          (update head b (some idx))
          place
          (λ i. chained i || i == idx)
  link-KeyChains idx b out at = record {
    chain = update c.chain b (idx ∷ c.chain b);
    linked = λ b'. elim (Bool-cases (b' == b)) [
      | inl e ↦
          rw (e, ==_refl idx)
            (
              refl,
              Linked-frame next _ (head b) (c.chain b) (c.linked b)
                  (λ j h. ground (arith, c.members b j)),
            )
      | inr e ↦ rw e (
          Linked-frame next _ (head b') (c.chain b') (c.linked b')
            (λ j h. ground (arith, c.members b' j)))
    ];
    distinct = λ b'. elim (Bool-cases (b' == b)) [
      | inl e ↦ rw e (ground (arith, c.members b idx), c.distinct b)
      | inr e ↦ rw e (c.distinct b')
    ];
    members = λ b' i. ground (arith, c.members b' i, c.members b i);
  }

  -- With rounds for all slots below `n`, unlinking ends, and says whether the slot was linked.
  pub unlink-KeyChains :
      (n idx b : ℕ)
      → ((i : ℕ) → chained i ≡ true → i < n)
      → place idx ≡ b
      → Returns
          (unlink_loop (n + 1) (record { first = head b; next = next }) to_first idx)
          (λ (r, rc).
            (rc ≡ (if chained idx then err_ok else err_not_found))
            × KeyChains r.next (update head b r.first) place (λ i. chained i && not (i == idx)))
  unlink-KeyChains n idx b below at =
      let cells : Cells = record { first = head b; next = next } in
      let ((r, rc), run, u) =
        unlink_loop-Unlinked (n + 1) cells to_first idx (c.chain b) (c.linked b) (c.distinct b) refl
          (omega (arith, length-chain n b below)) in
      (
        (r, rc),
        run,
        (
          rw (u.status) (ground (arith, c.members b idx)),
          record {
            chain = update c.chain b (remove idx (c.chain b));
            linked = λ b'. elim (Bool-cases (b' == b)) [
              | inl e ↦ rw e u.chain
              | inr e ↦ rw e (
                  Linked-frame next r.next (head b') (c.chain b') (c.linked b') (λ j h.
                    u.frame (to_next j) refl (ground (arith, c.members b' j, c.members b j))))
            ];
            distinct = λ b'. elim (Bool-cases (b' == b)) [
              | inl e ↦ rw e (remove-Distinct idx (c.chain b) (c.distinct b))
              | inr e ↦ rw e (c.distinct b')
            ];
            members = λ b' i.
                ground (
                  arith,
                  c.members b' i,
                  c.members b i,
                  has-remove i idx (c.chain b),
                  c.distinct b,
                );
          },
        ),
      )
