-- ===== src/Core/Insert.antt =====
-- `fm_core_insert_row` of fm_core.h.
pub mod Adds
use fastmem_mariadb.Prelude.{
  ℕ, zero, suc, ◌+◌, ◌-◌, ◌%◌, Option, none, some, Run, done, ◌>>=◌, leb, if◌then◌else◌,
}
use fastmem_mariadb.Core.{
  Share, Status, err_ok, err_full, err_nomem, slot_active, Bytes, set_slot, key_bucket, u32_mod,
  u64_mod,
}
use fastmem_mariadb.Core.Chain.{chain_link, chain_unlink}
use fastmem_mariadb.Core.Alloc.{Memory, alloc_slot, free_slot}
use fastmem_mariadb.Core.Lookup.{dup_check}

-- What the call reports: `*out_idx`, or `FM_ERR_DUP_KEY` with `*errkey` (a 32-bit pattern), or the
-- status of a failed allocation.
pub data InsertResult : Type 0 where
  inserted : ℕ → InsertResult
  duplicate : ℕ → InsertResult
  no_slot : Status → InsertResult

-- The loop over the keys from `k` on. `some k` is the key with a duplicate, where the loop stops.
unfoldable pub link_keys : ℕ → ℕ → Share → Bytes → ℕ → Run (Share × Option ℕ)
link_keys zero k s rec idx = done (s, none)
link_keys (suc n) k s rec idx =
    let b = key_bucket (s.keydef k) rec in
    dup_check s k b rec
    >>= elim [ err_ok ↦ link_keys n (suc k) (chain_link s k b idx) rec idx | _ ↦ done (s, some k) ]

-- `while (k-- > 0)` takes the row out of the chains of the keys below `k`. The second result is the
-- variable `k` behind the loop: the test that ends it takes 0 below zero.
unfoldable pub roll_back : ℕ → Share → Bytes → ℕ → Run (Share × ℕ)
roll_back zero s rec idx = done (s, u32_mod - 1)
roll_back (suc k) s rec idx = do
  (s', rc) ← chain_unlink s k (key_bucket (s.keydef k) rec) idx
  roll_back k s' rec idx

unfoldable pub publish : Share → ℕ → Share
publish s idx =
    let s' = set_slot s idx (record (s.slot idx) { state = slot_active }) in
    record s' { records = (s.records + 1) % u64_mod }

-- The part behind the allocation of slot `idx`.
unfoldable pub insert_at : Share → ℕ → Bytes → Run (Share × InsertResult)
unfolding publish
insert_at s idx rec = do
  (linked, dup) ← link_keys s.keys 0 (set_slot s idx (record (s.slot idx) { image = rec })) rec idx
  elim dup [
    | some k ↦ do
      (cleaned, k') ← roll_back k linked rec idx
      done (free_slot cleaned idx, duplicate ((k' + 1) % u32_mod))
    | none ↦ done (publish linked idx, inserted idx)
  ]

unfoldable pub insert_row : Memory → Share → Bytes → Run (Share × InsertResult)
unfolding insert_at
insert_row mem s rec =
    let (s', slot) = alloc_slot mem s in
    elim slot [
      | none ↦ done (s', no_slot (if leb s'.chunk_cap s'.chunk_cnt then err_full else err_nomem))
      | some idx ↦ insert_at s' idx rec
    ]
