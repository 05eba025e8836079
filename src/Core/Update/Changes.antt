-- ===== src/Core/Update/Changes.antt =====
-- What an update under the row lock does to a well-formed share.
use fastmem_mariadb.Prelude.{
  ℕ, ◌+◌, ◌≤◌, ◌<◌, ◌≡◌, refl, true, false, not, ◌&&◌, Option, none, some, List, [], ◌∷◌, done,
  Returns, ◌==◌, ltb, if◌then◌else◌, ◌∙◌, ap, sym, inl, inr, Bool-cases, ==→eq, Distinct, has,
  arith,
}
use fastmem_mariadb.Core.{
  Share, err_ok, err_dup_key, Bytes, bucket, key_bucket, slot_count, max_changed_keys,
}
use fastmem_mariadb.Core.Delete.{is_current}
use fastmem_mariadb.Core.Update.{
  UpdateResult, changed_keys, write_image, dup_checks, relink, update_locked, change_keys_locked,
  update_row_locked,
}
use fastmem_mariadb.Core.Update.Relink.{
  differs, has-changed_loop, changed_loop-Distinct, AllChecked, dup_checks-AllChecked,
  relink-Chains,
}
use fastmem_mariadb.Core.Wf.{
  Base, Wf, Chains, LawfulKey, SameKeys, active_at, place_of, row_at, free_cells,
}
use fastmem_mariadb.Core.Wf.Free.{FreeList-congr}
use fastmem_mariadb.Core.Wf.Hang.{rehung, Chains-congr}
use fastmem_mariadb.Core.Wf.Walks.{Wf-IsQuiet}
use fastmem_mariadb.Core.Wf.Walks.Find.{Checked}

-- Slot `idx` holds the new image, in the same generation, and no other row has a changed key that
-- must be unique.
pub record Changed (s : Share) (idx : ℕ) (old_rec new_rec : Bytes) (s' : Share) : Type 0 where
  pub wf : Wf s'
  pub rows : (i : ℕ) → row_at s' i ≡ (if i == idx then some new_rec else row_at s i)
  pub gens : (i : ℕ) → (s'.slot i).gen ≡ (s.slot i).gen
  pub fresh_keys :
      (k : ℕ) → k < s.keys → differs s old_rec new_rec k ≡ true → Checked s k new_rec err_ok
  pub count : s'.records ≡ s.records
  pub keys : SameKeys s s'

-- What the call reports. On a duplicate key nothing has changed, and `*errkey` is the key's number
-- plus one.
abbrev pub Updated : Share → ℕ → Bytes → Bytes → UpdateResult → Type 0
Updated s idx old_rec new_rec (s', err_ok, errkey) =
    (errkey ≡ none) × Changed s idx old_rec new_rec s'
Updated s idx old_rec new_rec (s', err_dup_key, errkey) =
    (s' ≡ s)
    × ((k : ℕ) × (errkey ≡ some (k + 1))
        × (k < s.keys)
        × (differs s old_rec new_rec k ≡ true)
        × Checked s k new_rec err_dup_key)
Updated s idx old_rec new_rec (s', _, errkey) = ⊥

module _ (s : Share) (w : Wf s) (idx : ℕ) (new_rec : Bytes) where
  written_state : (i : ℕ) → active_at (write_image s idx new_rec) i ≡ active_at s i
  unfolding write_image
  written_state i = ground arith

  written_image :
      (i : ℕ)
      → ((write_image s idx new_rec).slot i).image
        ≡ (if i == idx then new_rec else (s.slot i).image)
  unfolding write_image
  written_image i = ground arith

  written-Base :
      (h nx : ℕ → ℕ → Option ℕ) → Base (rehung (write_image s idx new_rec) h nx) (λ i. false) 0
  unfolding write_image
  written-Base h nx =
      let r = rehung (write_image s idx new_rec) h nx in
      let (f, size) =
        FreeList-congr w.frees (free_cells r)
          (λ i. ltb i w.bound && not (active_at r i) && not false) (λ i m. ground arith)
          (λ i. ground arith) in
      record {
        bound = w.bound;
        bound_le = w.bound_le;
        unbounded = w.unbounded;
        chunks_le = w.chunks_le;
        cap_le = w.cap_le;
        active_lt = λ i a. ground (arith, w.active_lt i);
        frees = f;
        counted = omega (arith, size, w.counted);
        even = λ i. ground (arith, w.even i);
      }

module _ (s : Share) (w : Wf s) (idx : ℕ) (old_rec new_rec : Bytes)
    (small : s.keys ≤ max_changed_keys) (law : (k : ℕ) → LawfulKey (s.keydef k).ops)
    (live : active_at s idx ≡ true) (old : (s.slot idx).image ≡ old_rec) where
  -- The keys that the loop lists.
  listed :
      (k : ℕ)
      → has k (changed_keys s old_rec new_rec) ≡ (ltb k s.keys && differs s old_rec new_rec k)
  unfolding changed_keys
  listed k = has-changed_loop s.keys 0 0 s old_rec new_rec k (omega arith) ∙ ground arith

  distinct : Distinct (changed_keys s old_rec new_rec)
  unfolding changed_keys
  distinct = changed_loop-Distinct s.keys 0 0 s old_rec new_rec (omega arith)

  listed_lt : (k : ℕ) → has k (changed_keys s old_rec new_rec) ≡ true → k < s.keys
  listed_lt k m = ground (arith, listed k)

  -- A key that does not differ keeps its bucket.
  same_place :
      (k : ℕ)
      → differs s old_rec new_rec k ≡ false
      → key_bucket (s.keydef k) old_rec ≡ key_bucket (s.keydef k) new_rec
  unfolding key_bucket
  same_place k e = ap (bucket (s.keydef k)) ((law k).hash-rec_rec old_rec new_rec (ground arith))

  final_place :
      (k i : ℕ)
      → k < s.keys
      → place_of (write_image s idx new_rec) k i ≡ (
          if has k (changed_keys s old_rec new_rec) && i == idx
          then key_bucket (s.keydef k) new_rec
          else place_of s k i)
  unfolding write_image
  final_place k i lt =
      let kb = λ (b : Bytes). key_bucket (s.keydef k) b in
      ap kb (written_image s w idx new_rec i) ∙ elim (Bool-cases (i == idx)) [
        | inr e ↦ rw e (ground arith)
        | inl e ↦ elim (Bool-cases (differs s old_rec new_rec k)) [
          | inl d ↦ ground (arith, listed k)
          | inr d ↦
              let p : i ≡ idx = ==→eq i idx e in
              let q : place_of s k i ≡ kb new_rec =
                ap (place_of s k) p ∙ ap kb old ∙ same_place k d in
              ground (arith, listed k, q)
        ]
      ]

  committed :
      AllChecked (changed_keys s old_rec new_rec) s new_rec none
      → Returns
          (relink (changed_keys s old_rec new_rec) (write_image s idx new_rec) idx old_rec new_rec)
          (Changed s idx old_rec new_rec)
  unfolding row_at slot_count write_image
  committed checked =
      let s1 = write_image s idx new_rec in
      let ks = changed_keys s old_rec new_rec in
      let c0 : Chains s1 (place_of s) (λ k. active_at s1) =
        Chains-congr s1 (place_of s) (place_of s) (λ k. active_at s) (λ k. active_at s1)
          (λ k i lt. written_state s w idx new_rec i) (λ k i lt a. refl) w.chains in
      let (h, nx, run, c) =
        relink-Chains ks s1 idx old_rec new_rec (place_of s) distinct listed_lt
          (λ k m. ap (key_bucket (s.keydef k)) old)
          (λ i a. (Wf-IsQuiet w).below i (sym (written_state s w idx new_rec i) ∙ a))
          (written_state s w idx new_rec idx ∙ live) c0 in
      let r = rehung s1 h nx in
      (
        r,
        run,
        record {
          wf = record {
            base = written-Base s w idx new_rec h nx;
            chains =
                Chains-congr r _ (place_of r) (λ k. active_at s1) (λ k. active_at r) (λ k i z. refl)
                  (λ k i lt a. final_place k i lt) c;
          };
          rows =
              λ i. ground (arith, written_state s w idx new_rec i, written_image s w idx new_rec i);
          gens = λ i. ground arith;
          fresh_keys = λ k lt d. checked k (ground (arith, listed k));
          count = refl;
          keys = (refl, refl);
        },
      )

  update_locked_lem :
      (ks : List ℕ)
      → update_locked ks s idx old_rec new_rec ≡ change_keys_locked ks s idx old_rec new_rec
  unfolding update_locked change_keys_locked dup_checks relink
  update_locked_lem [] = refl
  update_locked_lem (k ∷ ks) = refl

  changed_Updated :
      (r : Option ℕ)
      → dup_checks (changed_keys s old_rec new_rec) s new_rec ≡ done r
      → AllChecked (changed_keys s old_rec new_rec) s new_rec r
      → Returns
          (change_keys_locked (changed_keys s old_rec new_rec) s idx old_rec new_rec)
          (Updated s idx old_rec new_rec)
  unfolding change_keys_locked
  changed_Updated none run all =
      let (s', run', c) = committed all in ((s', err_ok, none), rw (run, run'), (refl, c))
  changed_Updated (some k) run (m, d) = (
    (s, err_dup_key, some (k + 1)),
    rw run,
    (refl, (k, refl, listed_lt k m, ground (arith, listed k), d)),
  )

-- On a well-formed table with at most 64 lawful keys, an update of a row in its current generation,
-- whose old image is the one in the slot, ends. It either replaces exactly that row, keeps all
-- generations and the count, has checked every changed key, and leaves a well-formed table; or it
-- changes nothing and reports, with its number plus one, a changed key for which some row has the
-- new value.
pub update_row_locked-Updated :
    (s : Share) (idx gen : ℕ) (old_rec new_rec : Bytes)
    → Wf s
    → s.keys ≤ max_changed_keys
    → ((k : ℕ) → LawfulKey (s.keydef k).ops)
    → is_current (s.slot idx) gen ≡ true
    → (s.slot idx).image ≡ old_rec
    → Returns (update_row_locked s idx gen old_rec new_rec) (Updated s idx old_rec new_rec)
unfolding is_current
update_row_locked-Updated s idx gen old_rec new_rec w small law now old =
    let live : active_at s idx ≡ true = ground arith in
    let ks = changed_keys s old_rec new_rec in
    let (r, run, all) =
      dup_checks-AllChecked ks s new_rec (Wf-IsQuiet w) law
        (listed_lt s w idx old_rec new_rec small law live old) w.chains in
    let (u, run', post) = changed_Updated s w idx old_rec new_rec small law live old r run all in
    let p = update_locked_lem s w idx old_rec new_rec small law live old ks in
    (u, unfold update_row_locked in rw now (p ∙ run'), post)
