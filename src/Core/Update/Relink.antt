-- ===== src/Core/Update/Relink.antt =====
-- The loops of a key change: which keys changed, the duplicate checks, and the move of the row from
-- the chains of its old key values to those of the new ones.
use mathlib.Core.Path.{subst}
use fastmem_mariadb.Prelude.{
  ℕ, zero, suc, ◌+◌, ◌≤◌, ◌<◌, ◌≡◌, refl, Bool, true, not, ◌&&◌, ◌||◌, Option, none, some, List, [],
  ◌∷◌, done, Returns, ◌==◌, leb, ltb, if◌then◌else◌, sym, ==→eq, inl, inr, Bool-cases, has,
  Distinct, arith,
}
use fastmem_mariadb.Core.{
  Share, Status, err_ok, err_dup_key, Bytes, key_bucket, slot_count, max_changed_keys,
}
use fastmem_mariadb.Core.Lookup.{dup_check}
use fastmem_mariadb.Core.Update.{changed_loop, dup_checks, relink}
use fastmem_mariadb.Core.Wf.{Chains, LawfulKey, active_at, place_of}
use fastmem_mariadb.Core.Wf.Hang.{rehung, Chains-congr, chain_unlink-Chains, chain_link-Chains}
use fastmem_mariadb.Core.Wf.Walks.{IsQuiet}
use fastmem_mariadb.Core.Wf.Walks.Find.{Checked, dup_check-Checked}

abbrev pub differs : Share → Bytes → Bytes → ℕ → Bool
differs s old_rec new_rec k = not ((s.keydef k).ops.cmp_rec_rec old_rec new_rec == 0)

-- With at most 64 keys the loop lists exactly the keys that differ.
pub has-changed_loop :
    (n k nch : ℕ) (s : Share) (old_rec new_rec : Bytes) (j : ℕ)
    → nch + n ≤ max_changed_keys
    → has j (changed_loop n k nch s old_rec new_rec)
      ≡ (leb k j && ltb j (k + n) && differs s old_rec new_rec j)
unfolding changed_loop
has-changed_loop zero k nch s old_rec new_rec j le = ground arith
has-changed_loop (suc n) k nch s old_rec new_rec j le = ground (
  arith,
  has-changed_loop n (suc k) (suc nch) s old_rec new_rec j,
  has-changed_loop n (suc k) nch s old_rec new_rec j,
)

pub changed_loop-Distinct :
    (n k nch : ℕ) (s : Share) (old_rec new_rec : Bytes)
    → nch + n ≤ max_changed_keys
    → Distinct (changed_loop n k nch s old_rec new_rec)
unfolding changed_loop
changed_loop-Distinct zero k nch s old_rec new_rec le = tt
changed_loop-Distinct (suc n) k nch s old_rec new_rec le = ground (
  arith,
  changed_loop-Distinct n (suc k) (suc nch) s old_rec new_rec,
  changed_loop-Distinct n (suc k) nch s old_rec new_rec,
  has-changed_loop n (suc k) (suc nch) s old_rec new_rec k,
)

-- What the duplicate checks of the keys `ks` said.
abbrev pub AllChecked : List ℕ → Share → Bytes → Option ℕ → Type 0
AllChecked ks s new_rec none = (k : ℕ) → has k ks ≡ true → Checked s k new_rec err_ok
AllChecked ks s new_rec (some k) = (has k ks ≡ true) × Checked s k new_rec err_dup_key

pub dup_checks-AllChecked :
    (ks : List ℕ) (s : Share) (new_rec : Bytes)
    → IsQuiet s
    → ((k : ℕ) → LawfulKey (s.keydef k).ops)
    → ((k : ℕ) → has k ks ≡ true → k < s.keys)
    → Chains s (place_of s) (λ k. active_at s)
    → Returns (dup_checks ks s new_rec) (AllChecked ks s new_rec)
unfolding dup_checks
dup_checks-AllChecked [] s new_rec q law lt c = (none, refl, λ k m. cc)
dup_checks-AllChecked (j ∷ ks) s new_rec q law lt c =
    let (rc, run, checked) = dup_check-Checked q j (c j (lt j (ground arith))) (law j) new_rec in
    step rc run checked (dup_checks-AllChecked ks s new_rec q law (λ k m. lt k (ground arith)) c)
  where
    step :
        (rc : Status)
        → dup_check s j (key_bucket (s.keydef j) new_rec) new_rec ≡ done rc
        → Checked s j new_rec rc
        → Returns (dup_checks ks s new_rec) (AllChecked ks s new_rec)
        → Returns (dup_checks (j ∷ ks) s new_rec) (AllChecked (j ∷ ks) s new_rec)
    step err_ok run ok (none, run', all) = (
      none,
      rw run run',
      λ k m. elim (Bool-cases (k == j)) [
        | inl e ↦ subst (λ z. Checked s z new_rec err_ok) (sym (==→eq k j e)) ok
        | inr e ↦ all k (ground arith)
      ],
    )
    step err_ok run ok (some k, run', (m, d)) = (some k, rw run run', (ground arith, d))
    step err_dup_key run d rest = (some j, rw run, (ground arith, d))
    step _ run bad rest = absurd bad

place_mark :
    (f : ℕ → ℕ) (j k : ℕ) (ks : List ℕ) (i idx p : ℕ)
    → (if has j (k ∷ ks) && i == idx then f j else p)
      ≡ (if has j ks && i == idx then f j else if j == k && i == idx then f k else p)
place_mark f j k ks i idx p = ground arith

move_mark :
    (a : Bool) (i idx k' k : ℕ)
    → (i == idx ≡ true → a ≡ true)
    → a ≡ (a && not (i == idx && k' == k) || i == idx && k' == k)
move_mark a i idx k' k h = ground arith

-- After the loop the row is in the buckets of its new values for the keys `ks`.
pub relink-Chains :
    (ks : List ℕ) (s : Share) (idx : ℕ) (old_rec new_rec : Bytes) (place : ℕ → ℕ → ℕ)
    → Distinct ks
    → ((k : ℕ) → has k ks ≡ true → k < s.keys)
    → ((k : ℕ) → has k ks ≡ true → place k idx ≡ key_bucket (s.keydef k) old_rec)
    → ((i : ℕ) → active_at s i ≡ true → i < slot_count s)
    → active_at s idx ≡ true
    → Chains s place (λ k. active_at s)
    → (h : ℕ → ℕ → Option ℕ) × (nx : ℕ → ℕ → Option ℕ) × (relink ks s idx old_rec new_rec
        ≡ done (rehung s h nx))
      × Chains
          (rehung s h nx)
          (λ k i. if has k ks && i == idx then key_bucket (s.keydef k) new_rec else place k i)
          (λ k. active_at s)
unfolding relink slot_count
relink-Chains [] s idx old_rec new_rec place d lt at below live c = (s.head, s.key_next, refl, c)
relink-Chains (k ∷ ks) s idx old_rec new_rec place d lt at below live c =
    let bold = key_bucket (s.keydef k) old_rec in
    let bnew = key_bucket (s.keydef k) new_rec in
    let (h, nx, run, c1) =
      chain_unlink-Chains s place (λ j. active_at s) c k idx bold (lt k (ground arith))
        (at k (ground arith)) below in
    let place' = λ (j i : ℕ). if j == k && i == idx then bnew else place j i in
    let out = λ (j i : ℕ). active_at s i && not (i == idx && j == k) in
    let c2 =
      Chains-congr (rehung s h nx) place place' out out (λ j i z. refl) (λ j i z a. ground arith)
        c1 in
    let (h2, nx2, linked, c3) =
      chain_link-Chains (rehung s h nx) place' out c2 k idx bnew (lt k (ground arith))
        (ground arith) (ground arith) in
    let c4 =
      Chains-congr (rehung s h2 nx2) place' place' _ (λ j. active_at s)
        (λ j i z. move_mark (active_at s i) i idx j k (λ e. ground arith)) (λ j i z a. refl) c3 in
    let (h3, nx3, run3, c5) =
      relink-Chains ks (rehung s h2 nx2) idx old_rec new_rec place' d.1 (λ j m. lt j (ground arith))
        (λ j m. ground (arith, at j)) below live c4 in
    (
      h3,
      nx3,
      rw (run, linked) run3,
      Chains-congr (rehung s h3 nx3) _
          (λ j i. if has j (k ∷ ks) && i == idx then key_bucket (s.keydef j) new_rec else place j i)
          _ (λ j. active_at s) (λ j i z. refl)
          (λ j i z a. place_mark (λ z. key_bucket (s.keydef z) new_rec) j k ks i idx (place j i))
          c5,
    )
