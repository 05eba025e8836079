-- ===== src/Core/Wf/LinkKeys.antt =====
-- The loop of `fm_core_insert_row` over the keys: duplicate checks and links.
use mathlib.Core.Path.{subst}
use fastmem_mariadb.Prelude.{
  ℕ, zero, suc, ◌+◌, ◌≤◌, ◌<◌, ◌≡◌, refl, Bool, false, ◌&&◌, ◌||◌, Option, none, some, Run, done,
  ◌==◌, ltb, ap, sym, inl, inr, Bool-cases, ==→eq, arith,
}
use fastmem_mariadb.Core.{Share, Status, err_ok, err_dup_key, Bytes, key_bucket, slot_count}
use fastmem_mariadb.Core.Chain.{chain_link}
use fastmem_mariadb.Core.Insert.{link_keys}
use fastmem_mariadb.Core.Lookup.{dup_check}
use fastmem_mariadb.Core.Wf.{Chains, LawfulKey, active_at, place_of}
use fastmem_mariadb.Core.Wf.Chains.{KeyChains-congr}
use fastmem_mariadb.Core.Wf.Hang.{rehung, Chains-congr, chain_link-Chains}
use fastmem_mariadb.Core.Wf.Walks.{IsQuiet}
use fastmem_mariadb.Core.Wf.Walks.Find.{Checked, dup_check-Checked}

-- Where the loop stopped.
abbrev pub stop_key : Share → Option ℕ → ℕ
stop_key s none = s.keys
stop_key s (some k) = k

-- What the duplicate checks of the loop from `k` on said.
abbrev pub Verdict : Share → Bytes → ℕ → Option ℕ → Type 0
Verdict s rec k none = (k' : ℕ) → k ≤ k' → k' < s.keys → Checked s k' rec err_ok
Verdict s rec k (some d) = (d < s.keys) × Checked s d rec err_dup_key

pub rehung-IsQuiet : (s : Share) (h n : ℕ → ℕ → Option ℕ) → IsQuiet s → IsQuiet (rehung s h n)
unfolding slot_count
rehung-IsQuiet s h n q = record { even = q.even; below = q.below }

link_mark :
    (a : Bool) (i idx k k' : ℕ)
    → (a || i == idx && ltb k' (suc k)) ≡ (a || i == idx && ltb k' k || i == idx && k' == k)
link_mark a i idx k k' = ground arith

-- The outcome of the loop.
abbrev pub Linkage : Share → Bytes → ℕ → ℕ → Run (Share × Option ℕ) → Type 0
Linkage s rec idx k run =
    (h : ℕ → ℕ → Option ℕ) × (nx : ℕ → ℕ → Option ℕ) × (d : Option ℕ) × (run
      ≡ done (rehung s h nx, d))
    × Chains (rehung s h nx) (place_of s)
        (λ k' i. active_at s i || i == idx && ltb k' (stop_key s d))
    × Verdict s rec k d

step :
    (s : Share) (rec : Bytes) (idx n k : ℕ) (rc : Status)
    → dup_check s k (key_bucket (s.keydef k) rec) rec ≡ done rc
    → Checked s k rec rc
    → k < s.keys
    → Chains s (place_of s) (λ k' i. active_at s i || i == idx && ltb k' k)
    → Linkage s rec idx
        (suc k)
        (link_keys n (suc k) (chain_link s k (key_bucket (s.keydef k) rec) idx) rec idx)
    → Linkage s rec idx k (link_keys (suc n) k s rec idx)
unfolding link_keys
step s rec idx n k err_ok run checked lt c (h, nx, none, run', c', v) = (
  h,
  nx,
  none,
  rw run run',
  c',
  λ k' le lt'. elim (Bool-cases (k' == k)) [
    | inl same ↦ subst (λ j. Checked s j rec err_ok) (sym (==→eq k' k same)) checked
    | inr other ↦ v k' (ground arith) lt'
  ],
)
step s rec idx n k err_ok run checked lt c (h, nx, some d, run', c', v) =
    (h, nx, some d, rw run run', c', v)
step s rec idx n k err_dup_key run checked lt c rest =
    (s.head, s.key_next, some k, rw run, c, (lt, checked))
step s rec idx n k _ run checked lt c rest = absurd checked

pub link_keys-Linkage :
    (n k : ℕ) (s : Share) (rec : Bytes) (idx : ℕ)
    → k + n ≡ s.keys
    → IsQuiet s
    → active_at s idx ≡ false
    → (s.slot idx).image ≡ rec
    → ((k' : ℕ) → LawfulKey (s.keydef k').ops)
    → Chains s (place_of s) (λ k' i. active_at s i || i == idx && ltb k' k)
    → Linkage s rec idx k (link_keys n k s rec idx)
unfolding link_keys
link_keys-Linkage zero k s rec idx e q off im law c = (
  s.head,
  s.key_next,
  none,
  refl,
  Chains-congr s (place_of s) (place_of s) _ (λ k' i. active_at s i || i == idx && ltb k' s.keys)
      (λ k' i lt. ground arith) (λ k' i lt z. refl) c,
  λ k' le lt. absurd (omega arith),
)
link_keys-Linkage (suc n) k s rec idx e q off im law c =
    let b = key_bucket (s.keydef k) rec in
    let lt : k < s.keys = omega arith in
    let mine =
      KeyChains-congr (c k lt) (s.key_next k) (place_of s k) (active_at s) (λ i z. refl)
        (λ i. ground arith) (λ i z. refl) in
    let (rc, run, checked) = dup_check-Checked q k mine (law k) rec in
    let (h, nx, linked, c') =
      chain_link-Chains s (place_of s) (λ k' i. active_at s i || i == idx && ltb k' k) c k idx b lt
        (ap (key_bucket (s.keydef k)) im) (ground arith) in
    let rest =
      link_keys-Linkage n (suc k) (rehung s h nx) rec idx (omega arith) (rehung-IsQuiet s h nx q)
        off im law
        (Chains-congr (rehung s h nx) (place_of s) (place_of s) _
          (λ k' i. active_at s i || i == idx && ltb k' (suc k))
          (λ k' i lt. link_mark (active_at s i) i idx k k') (λ k' i lt z. refl) c') in
    step s rec idx n k rc run checked lt c (rw linked rest)
