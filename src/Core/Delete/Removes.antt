-- ===== src/Core/Delete/Removes.antt =====
-- Deleting a row takes it out of the table and out of every chain, and recycles its slot.
use fastmem_mariadb.Prelude.{
  ℕ, ◌+◌, ◌%◌, ◌<◌, ◌≡◌, refl, true, false, not, ◌&&◌, Option, none, done, Returns, ◌==◌, ltb,
  if◌then◌else◌, ap, sym, update, length, arith,
}
use fastmem_mariadb.Core.{
  Share, Slot, err_ok, slot_deleting, is_active, key_bucket, set_slot, lock_slot, unlock_slot,
  slot_count, u32_mod,
}
use fastmem_mariadb.Core.Alloc.{free_slot}
use fastmem_mariadb.Core.Delete.{
  is_current, unlink_keys, recycle, delete_row_locked, delete_row, freeze, delete_under_lock,
}
use fastmem_mariadb.Core.Wf.{Base, Wf, SameKeys, active_at, place_of, row_at}
use fastmem_mariadb.Core.Wf.Free.{push-FreeList, length-lt}
use fastmem_mariadb.Core.Wf.Hang.{rehung, Chains-congr}
use fastmem_mariadb.Core.Wf.Loops.{unlink_keys-Chains}
use fastmem_mariadb.Core.Wf.Walks.{Wf-slot_count}

-- The table less the row of slot `idx`, whose references are stale from now on.
pub record Removed (s : Share) (idx : ℕ) (s' : Share) : Type 0 where
  pub wf : Wf s'
  pub rows : (i : ℕ) → row_at s' i ≡ (if i == idx then none else row_at s i)
  pub gens :
      (i : ℕ)
      → (s'.slot i).gen ≡ (if i == idx then ((s.slot i).gen + 1) % u32_mod else (s.slot i).gen)
  pub count : s'.records + 1 ≡ s.records
  pub keys : SameKeys s s'

module _ (s : Share) (w : Wf s) (idx : ℕ) (live : active_at s idx ≡ true) (sl : ℕ → Slot)
    (agree : (i : ℕ) → (i == idx) ≡ false → sl i ≡ s.slot i)
    (image : (sl idx).image ≡ (s.slot idx).image) (gen : (sl idx).gen ≡ (s.slot idx).gen)
    (even : (sl idx).seq % 2 ≡ 0) (idle : is_active (sl idx).state ≡ false) where
  abbrev frozen : Share
  frozen = record s { slot = sl }

  room : length w.frees.slots < w.bound
  room = length-lt w.frees w.bound idx (λ i h. ground arith) (ground arith) (w.active_lt idx live)

  recycled-Base : (h nx : ℕ → ℕ → Option ℕ) → Base (recycle (rehung frozen h nx) idx) (λ i. false) 0
  unfolding recycle free_slot
  recycled-Base h nx =
      let r = recycle (rehung frozen h nx) idx in
      let (f, size) =
        push-FreeList w.frees idx (λ i. (r.slot i).free_next)
          (λ i. ltb i w.bound && not (active_at r i) && not false) (ground arith) (ground arith)
          (λ i m. ground (arith, agree i)) (λ i. ground (arith, agree i, w.active_lt i)) in
      record {
        bound = w.bound;
        bound_le = w.bound_le;
        unbounded = w.unbounded;
        chunks_le = w.chunks_le;
        cap_le = w.cap_le;
        active_lt = λ i a. ground (arith, agree i, w.active_lt i);
        frees = f;
        counted = omega (arith, size, w.counted, room);
        even = λ i. ground (arith, agree i, w.even i);
      }

  images :
      (h nx : ℕ → ℕ → Option ℕ) (i : ℕ)
      → ((recycle (rehung frozen h nx) idx).slot i).image ≡ (s.slot i).image
  unfolding recycle free_slot
  images h nx i = ground (arith, agree i)

  pub recycled-Removed :
      Returns (unlink_keys s.keys 0 frozen (sl idx).image idx) (λ u. Removed s idx (recycle u idx))
  unfolding recycle free_slot slot_count row_at
  recycled-Removed =
      let (h, nx, run, c) =
        unlink_keys-Chains (place_of s) (sl idx).image idx s.keys 0 frozen (λ k. active_at s)
          (omega arith) (λ k. ap (key_bucket (s.keydef k)) (sym image))
          (λ k i a. omega (arith, Wf-slot_count w, w.active_lt i a)) w.chains in
      let r = recycle (rehung frozen h nx) idx in
      (
        rehung frozen h nx,
        run,
        record {
          wf = record {
            base = recycled-Base h nx;
            chains =
                Chains-congr r (place_of s) (place_of r) _ (λ k. active_at r)
                  (λ k i lt. ground (arith, agree i))
                  (λ k i lt z. ap (key_bucket (s.keydef k)) (images h nx i)) c;
          };
          rows = λ i. ground (arith, agree i);
          gens = λ i. ground (arith, agree i);
          count = omega (arith, w.counted, room, w.bound_le, w.cap_le, w.chunks_le);
          keys = (refl, refl);
        },
      )

-- On a well-formed table a delete of a row in its current generation ends with `FM_ERR_OK`: exactly
-- that row is gone, its generation has moved on and no other has, the count is one less, and the table
-- is well formed.
pub delete_row_locked-Removed :
    (s : Share) (idx gen : ℕ)
    → Wf s
    → is_current (s.slot idx) gen ≡ true
    → Returns (delete_row_locked s idx gen) (λ (s', rc). (rc ≡ err_ok) × Removed s idx s')
unfolding delete_row_locked
delete_row_locked-Removed s idx gen w now =
    let sl = update s.slot idx (record (s.slot idx) { state = slot_deleting }) in
    let (u, run, removed) =
      recycled-Removed s w idx (ground arith) sl (λ i e. ground arith) (ground arith) (ground arith)
        (ground (arith, w.even idx)) (ground arith) in
    ((recycle u idx, err_ok), rw (now, run), (refl, removed))

pub lock_slot-free :
    (s : Share) (idx : ℕ)
    → (s.slot idx).wlock ≡ false
    → lock_slot s idx ≡ done (set_slot s idx (record (s.slot idx) { wlock = true }))
unfolding lock_slot
lock_slot-free s idx e = rw e

delete_under_lock-run :
    (l u : Share) (idx gen : ℕ)
    → is_current (l.slot idx) gen ≡ true
    → unlink_keys l.keys 0 (freeze l idx) ((freeze l idx).slot idx).image idx ≡ done u
    → delete_under_lock l idx gen ≡ done (recycle u idx, err_ok)
unfolding delete_under_lock
delete_under_lock-run l u idx gen now run = rw (now, run)

-- On a well-formed table a delete that takes the row lock itself, and finds it free, of a row in its
-- current generation ends with `FM_ERR_OK`: exactly that row is gone, its generation has moved on and no
-- other has, the count is one less, and the table is well formed.
pub delete_row-Removed :
    (s : Share) (idx gen : ℕ)
    → Wf s
    → (s.slot idx).wlock ≡ false
    → is_current (s.slot idx) gen ≡ true
    → Returns (delete_row s idx gen) (λ (s', rc). (rc ≡ err_ok) × Removed s idx s')
unfolding freeze unlock_slot is_current
delete_row-Removed s idx gen w unlocked now =
    let l = set_slot s idx (record (s.slot idx) { wlock = true }) in
    let sl = (freeze l idx).slot in
    let (u, run, removed) =
      recycled-Removed s w idx (ground arith) sl (λ i e. ground arith) (ground arith) (ground arith)
        (ground (arith, w.even idx)) (ground arith) in
    let here = delete_under_lock-run l u idx gen (ground arith) run in
    (
      (recycle u idx, err_ok),
      unfold delete_row in rw (lock_slot-free s idx unlocked) here,
      (refl, removed),
    )
