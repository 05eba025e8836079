-- ===== src/Core/Wf.antt =====
-- When a share of fm_core.h is well formed between two calls, and what its chains and its freelist
-- say then.
pub mod Chains
pub mod Free
pub mod Hang
pub mod Loops
pub mod LinkKeys
pub mod Walks
pub mod Unique
pub mod Fresh
pub mod Relocked
use fastmem_mariadb.Prelude.{
  ℕ, ◌+◌, ◌*◌, ◌%◌, ◌^◌, ◌≤◌, ◌<◌, ◌≡◌, Bool, true, false, not, ◌&&◌, Option, none, some, List,
  ◌==◌, ltb, if◌then◌else◌, has, Distinct, length,
}
use fastmem_mariadb.Core.{Share, Bytes, KeyOps, is_active, key_bucket, chunk_size}
use fastmem_mariadb.Core.Chain.{Linked}

-- The chains of one key: in the bucket `b`, exactly the slots `i` with `chained i` that belong to it.
pub record KeyChains (next head : ℕ → Option ℕ) (place : ℕ → ℕ) (chained : ℕ → Bool) : Type 0 where
  pub chain : ℕ → List ℕ
  pub linked : (b : ℕ) → Linked next (head b) (chain b)
  pub distinct : (b : ℕ) → Distinct (chain b)
  pub members : (b i : ℕ) → has i (chain b) ≡ (chained i && place i == b)

-- The freelist: exactly the slots `i` with `listed i`.
pub record FreeList (next : ℕ → Option ℕ) (head : Option ℕ) (listed : ℕ → Bool) : Type 0 where
  pub slots : List ℕ
  pub linked : Linked next head slots
  pub distinct : Distinct slots
  pub members : (i : ℕ) → has i slots ≡ listed i

abbrev pub active_at : Share → ℕ → Bool
active_at s i = is_active (s.slot i).state

abbrev pub place_of : Share → ℕ → ℕ → ℕ
place_of s k i = key_bucket (s.keydef k) (s.slot i).image

abbrev pub free_cells : Share → ℕ → Option ℕ
free_cells s i = (s.slot i).free_next

-- The row that a slot holds.
unfoldable pub row_at : Share → ℕ → Option Bytes
row_at s i = if active_at s i then some (s.slot i).image else none

-- The two shares have the same keys.
abbrev pub SameKeys : Share → Share → Type 0
SameKeys s s' = (s'.keys ≡ s.keys) × (s'.keydef ≡ s.keydef)

-- All but the chains. The slots below `bound` are in use, free, or one of the slots `idle`, which an
-- operation has in hand: no slot is in two of these states, and none is lost. `missing` counts the
-- slots in hand. No image write is under way.
pub record Base (s : Share) (idle : ℕ → Bool) (missing : ℕ) : Type 0 where
  pub bound : ℕ
  pub bound_le : bound ≤ s.chunk_cnt * chunk_size
  pub unbounded : s.chunk_cnt * chunk_size < s.max_records → bound ≡ s.chunk_cnt * chunk_size
  pub chunks_le : s.chunk_cnt ≤ s.chunk_cap
  pub cap_le : s.chunk_cap * chunk_size ≤ 2 ^ 31
  pub active_lt : (i : ℕ) → active_at s i ≡ true → i < bound
  pub frees :
      FreeList (free_cells s) s.free_head (λ i. ltb i bound && not (active_at s i) && not (idle i))
  pub counted : s.records + missing + length frees.slots ≡ bound
  pub even : (i : ℕ) → (s.slot i).seq % 2 ≡ 0

-- The chains of every key, where slot `i` belongs to bucket `place k i` of key `k`.
abbrev pub Chains : Share → (ℕ → ℕ → ℕ) → (ℕ → ℕ → Bool) → Type 0
Chains s place chained =
    (k : ℕ) → k < s.keys → KeyChains (s.key_next k) (s.head k) (place k) (chained k)

abbrev pub none_idle : ℕ → Bool
none_idle i = false

-- A share between two calls: every slot below the bound is in use or free, every row is in its
-- bucket of every key, and nothing else is in a bucket.
pub record Wf (s : Share) : Type 0 where
  pub base : Base s none_idle 0
  pub open base use *
  pub chains : Chains s (place_of s) (λ k. active_at s)

-- What the callbacks of a key have to guarantee to the core.
pub record LawfulKey (ops : KeyOps) : Type 0 where
  pub hash-rec_rec : (a b : Bytes) → ops.cmp_rec_rec a b ≡ 0 → ops.hash_rec a ≡ ops.hash_rec b
  pub hash-rec_key : (a p : Bytes) → ops.cmp_rec_key a p ≡ 0 → ops.hash_rec a ≡ ops.hash_key p
  pub cmp_symm : (a b : Bytes) → ops.cmp_rec_rec a b ≡ ops.cmp_rec_rec b a
  pub cmp_trans :
      (a b c : Bytes) → ops.cmp_rec_rec a b ≡ 0 → ops.cmp_rec_rec b c ≡ 0 → ops.cmp_rec_rec a c ≡ 0
  pub null_congr :
      (a b : Bytes) → ops.cmp_rec_rec a b ≡ 0 → ops.has_null_part a ≡ ops.has_null_part b
