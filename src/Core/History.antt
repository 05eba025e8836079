-- ===== src/Core/History.antt =====
-- Histories of a table: any sequence of the operations of fm_core.h, each run to its end.
use mathlib.Core.Path.{subst}
use fastmem_mariadb.Prelude.{
  ℕ, ◌^◌, ◌≤◌, ◌<◌, ◌≡◌, sym, ◌∙◌, true, false, Option, none, some, done, refl, ◌⊎◌, inl, inr,
  Bool-cases, Returns-at, arith,
}
use fastmem_mariadb.Core.{
  Share, KeyCore, Bytes, Status, err_ok, err_deleted, err_dup_key, init_share, max_changed_keys,
}
use fastmem_mariadb.Core.Alloc.{Memory}
use fastmem_mariadb.Core.Insert.{InsertResult, inserted, duplicate, no_slot, insert_row}
use fastmem_mariadb.Core.Insert.Adds.{Inserted, insert_row-Inserted}
use fastmem_mariadb.Core.Update.{update_row_locked}
use fastmem_mariadb.Core.Gone.{
  current-row, update_row_locked-gone, delete_row_locked-gone, delete_row-gone,
}
use fastmem_mariadb.Core.Update.Changes.{Updated, update_row_locked-Updated}
use fastmem_mariadb.Core.Delete.{is_current, delete_row, delete_row_locked}
use fastmem_mariadb.Core.Delete.Removes.{Removed, delete_row_locked-Removed, delete_row-Removed}
use fastmem_mariadb.Core.Clear.{clear}
use fastmem_mariadb.Core.Clear.Empties.{Cleared, clear-Cleared}
use fastmem_mariadb.Core.Wf.{Wf, LawfulKey, SameKeys, row_at}
use fastmem_mariadb.Core.Wf.Fresh.{init_share-Wf}
use fastmem_mariadb.Core.Wf.Unique.{IsUnique}
use fastmem_mariadb.Core.Wf.Unique.Kept.{
  Removed-IsUnique, Cleared-IsUnique, Added-IsUnique, Changed-IsUnique, fewer-IsUnique,
}

-- One call, run to its end, and the share behind it. An update of a row that is current gives the image
-- that is in the slot; a clear finds every row lock free, and so does a delete that takes the lock
-- itself.
pub data Step : Share → Share → Type 0 where
  insert :
      {s s' : Share} (mem : Memory) (rec : Bytes) (r : InsertResult)
      → insert_row mem s rec ≡ done (s', r)
      → Step s s'
  update :
      {s s' : Share} (idx gen : ℕ) (old_rec new_rec : Bytes) (rc : Status) (errkey : Option ℕ)
      → (is_current (s.slot idx) gen ≡ true → (s.slot idx).image ≡ old_rec)
      → update_row_locked s idx gen old_rec new_rec ≡ done (s', rc, errkey)
      → Step s s'
  delete_locked :
      {s s' : Share} (idx gen : ℕ) (rc : Status)
      → delete_row_locked s idx gen ≡ done (s', rc)
      → Step s s'
  delete :
      {s s' : Share} (idx gen : ℕ) (rc : Status)
      → (s.slot idx).wlock ≡ false
      → delete_row s idx gen ≡ done (s', rc)
      → Step s s'
  truncate : {s s' : Share} → ((i : ℕ) → (s.slot i).wlock ≡ false) → clear s ≡ done s' → Step s s'

pub data Reach (s : Share) : Share → Type 0 where
  start : Reach s s
  next : {t u : Share} → Reach s t → Step t u → Reach s u

-- What does not change: the keys are lawful, at most 64, and have buckets.
pub record Keyed (s : Share) : Type 0 where
  pub lawful : (k : ℕ) → LawfulKey (s.keydef k).ops
  pub few : s.keys ≤ max_changed_keys
  pub buckets : (k : ℕ) → 0 < (s.keydef k).nbuckets

-- A table between two calls.
pub record Sound (s : Share) : Type 0 where
  pub wf : Wf s
  pub unique : IsUnique s
  pub keyed : Keyed s

Keyed-same : {s s' : Share} → SameKeys s s' → Keyed s → Keyed s'
Keyed-same {s} {s'} (p, q) k = record {
  lawful = subst (λ (f : ℕ → KeyCore). (j : ℕ) → LawfulKey (f j).ops) (sym q) k.lawful;
  few = omega (arith, p, k.few);
  buckets = subst (λ (f : ℕ → KeyCore). (j : ℕ) → 0 < (f j).nbuckets) (sym q) k.buckets;
}

Inserted-Sound :
    (s s' : Share) (rec : Bytes) (r : InsertResult) → Sound s → Inserted s rec (s', r) → Sound s'
Inserted-Sound s s' rec (inserted idx) h a = record {
  wf = a.wf;
  unique = Added-IsUnique s s' rec idx h.keyed.lawful h.unique a;
  keyed = Keyed-same a.keys h.keyed;
}
Inserted-Sound s s' rec (duplicate e) h (z, a) = record {
  wf = a.wf;
  unique = fewer-IsUnique s s' a.keys h.unique (λ i b e. sym (a.rows i) ∙ e);
  keyed = Keyed-same a.keys h.keyed;
}
Inserted-Sound s s' rec (no_slot rc) h (e, z) = subst Sound (sym e) h

Updated-Sound :
    (s s' : Share) (idx : ℕ) (old_rec new_rec : Bytes) (rc : Status) (errkey : Option ℕ)
    → Sound s
    → row_at s idx ≡ some old_rec
    → Updated s idx old_rec new_rec (s', rc, errkey)
    → Sound s'
Updated-Sound s s' idx old_rec new_rec err_ok errkey h here (z, a) = record {
  wf = a.wf;
  unique = Changed-IsUnique s s' idx old_rec new_rec h.keyed.lawful h.unique here a;
  keyed = Keyed-same a.keys h.keyed;
}
Updated-Sound s s' idx old_rec new_rec err_dup_key errkey h here (e, z) = subst Sound (sym e) h
Updated-Sound s s' idx old_rec new_rec _ errkey h here z = absurd z

Removed-Sound : (s s' : Share) (idx : ℕ) → Sound s → Removed s idx s' → Sound s'
Removed-Sound s s' idx h r = record {
  wf = r.wf;
  unique = Removed-IsUnique s s' idx h.unique r;
  keyed = Keyed-same r.keys h.keyed;
}

Cleared-Sound : (s s' : Share) → Sound s → Cleared s s' → Sound s'
Cleared-Sound s s' h r = record {
  wf = r.wf;
  unique = Cleared-IsUnique s s' h.unique r;
  keyed = Keyed-same r.keys h.keyed;
}

-- What each call did to the share, by whether the row was current.
pub updates :
    {s s' : Share} (idx gen : ℕ) (old_rec new_rec : Bytes) (rc : Status) (errkey : Option ℕ)
    → Sound s
    → (is_current (s.slot idx) gen ≡ true → (s.slot idx).image ≡ old_rec)
    → update_row_locked s idx gen old_rec new_rec ≡ done (s', rc, errkey)
    → ((s' ≡ s) × (rc ≡ err_deleted) × (errkey ≡ none))
      ⊎ ((row_at s idx ≡ some old_rec) × Updated s idx old_rec new_rec (s', rc, errkey))
updates {s} {s'} idx gen old_rec new_rec rc errkey h old e =
    elim (Bool-cases (is_current (s.slot idx) gen)) [
      | inr gone ↦ inl (update_row_locked-gone s s' idx gen old_rec new_rec rc errkey gone e)
      | inl now ↦ inr (
        current-row s idx gen old_rec now (old now),
        Returns-at (update_row_locked s idx gen old_rec new_rec) (s', rc, errkey)
            (update_row_locked-Updated s idx gen old_rec new_rec h.wf h.keyed.few h.keyed.lawful now
              (old now))
            e,
      )
    ]

abbrev pub Deletes : Share → ℕ → Share → Status → Type 0
Deletes s idx s' rc =
    ((s' ≡ s) × (rc ≡ err_deleted))
    ⊎ ((rc ≡ err_ok) × (row_at s idx ≡ some (s.slot idx).image) × Removed s idx s')

pub delete_row_locked-Deletes :
    {s s' : Share} (idx gen : ℕ) (rc : Status)
    → Sound s
    → delete_row_locked s idx gen ≡ done (s', rc)
    → Deletes s idx s' rc
delete_row_locked-Deletes {s} {s'} idx gen rc h e =
    elim (Bool-cases (is_current (s.slot idx) gen)) [
      | inr gone ↦ inl (delete_row_locked-gone s s' idx gen rc gone e)
      | inl now ↦
          let (ok, r) =
            Returns-at (delete_row_locked s idx gen) (s', rc)
              (delete_row_locked-Removed s idx gen h.wf now) e in
          inr (ok, current-row s idx gen (s.slot idx).image now refl, r)
    ]

pub delete_row-Deletes :
    {s s' : Share} (idx gen : ℕ) (rc : Status)
    → Sound s
    → (s.slot idx).wlock ≡ false
    → delete_row s idx gen ≡ done (s', rc)
    → Deletes s idx s' rc
delete_row-Deletes {s} {s'} idx gen rc h free e = elim (Bool-cases (is_current (s.slot idx) gen)) [
  | inr gone ↦ inl (delete_row-gone s s' idx gen rc free gone e)
  | inl now ↦
      let (ok, r) =
        Returns-at (delete_row s idx gen) (s', rc) (delete_row-Removed s idx gen h.wf free now) e in
      inr (ok, current-row s idx gen (s.slot idx).image now refl, r)
]

Deletes-Sound : (s s' : Share) (idx : ℕ) (rc : Status) → Sound s → Deletes s idx s' rc → Sound s'
Deletes-Sound s s' idx rc h (inl (same, gone)) = subst Sound (sym same) h
Deletes-Sound s s' idx rc h (inr (ok, here, r)) = Removed-Sound s s' idx h r

pub Step-Sound : {s s' : Share} → Step s s' → Sound s → Sound s'
Step-Sound {s} {s'} (insert mem rec r e) h = Inserted-Sound s s' rec r h (
    Returns-at (insert_row mem s rec) (s', r) (insert_row-Inserted mem s rec h.wf h.keyed.lawful) e)
Step-Sound {s} {s'} (update idx gen old_rec new_rec rc errkey old e) h =
    elim (updates idx gen old_rec new_rec rc errkey h old e) [
      | inl (same, _, _) ↦ subst Sound (sym same) h
      | inr (here, u) ↦ Updated-Sound s s' idx old_rec new_rec rc errkey h here u
    ]
Step-Sound {s} {s'} (delete_locked idx gen rc e) h =
    Deletes-Sound s s' idx rc h (delete_row_locked-Deletes idx gen rc h e)
Step-Sound {s} {s'} (delete idx gen rc free e) h =
    Deletes-Sound s s' idx rc h (delete_row-Deletes idx gen rc h free e)
Step-Sound {s} {s'} (truncate free e) h =
    Cleared-Sound s s' h (Returns-at (clear s) s' (clear-Cleared s h.wf free h.keyed.buckets) e)

init_share-IsUnique :
    (reclength keys max_records nbuckets : ℕ) (keydef : ℕ → KeyCore)
    → IsUnique (init_share reclength keys max_records nbuckets keydef)
unfolding row_at init_share
init_share-IsUnique reclength keys max_records nbuckets keydef = record {
  apart = λ k lt on i j a b ne e. absurd (ground arith);
}

pub Reach-Sound_whole :
    (reclength keys max_records nbuckets : ℕ) (keydef : ℕ → KeyCore) (s : Share)
    → max_records ≤ 2 ^ 31
    → Keyed (init_share reclength keys max_records nbuckets keydef)
    → Reach (init_share reclength keys max_records nbuckets keydef) s
    → Sound s
Reach-Sound_whole reclength keys max_records nbuckets keydef s le ok start = record {
  wf = init_share-Wf reclength keys max_records nbuckets keydef le;
  unique = init_share-IsUnique reclength keys max_records nbuckets keydef;
  keyed = ok;
}
Reach-Sound_whole reclength keys max_records nbuckets keydef s le ok (next {t = t} r st) =
    Step-Sound st (Reach-Sound_whole reclength keys max_records nbuckets keydef t le ok r)

-- After any inserts, updates, deletes and clears of a new table, each run to its end, the table is well formed, and
-- no two rows have equal values of a unique key without a NULL part. The table has at most 64 lawful keys with
-- buckets, and a limit of at most 2 ^ 31 rows. An update of a row that is current gives the image that is in
-- its slot as the old record; a clear finds every row lock free, and so does a delete that takes the lock of
-- its row itself. An update or a delete may name any generation.
pub Reach-Sound :
    (reclength keys max_records nbuckets : ℕ) (keydef : ℕ → KeyCore) (s : Share)
    → max_records ≤ 2 ^ 31
    → Keyed (init_share reclength keys max_records nbuckets keydef)
    → Reach (init_share reclength keys max_records nbuckets keydef) s
    → Wf s × IsUnique s
Reach-Sound reclength keys max_records nbuckets keydef s le ok r =
    let h = Reach-Sound_whole reclength keys max_records nbuckets keydef s le ok r in
    (h.wf, h.unique)
