-- ===== src/Core.antt =====
-- The data model of fm_core.h: return codes, slots, hash keys, the share of a table, and the inline
-- helpers on them. The arrays that the source allocates (slots of a chunk, `key_next` of a chunk,
-- `head` of a key) are functions of an index here, and a slot number that may be `FM_NULL_SLOT` is
-- an `Option`. Bucket locks and `struct_mutex` are taken and released within one call, so a share
-- between two calls does not show them; the row lock `wlock`, which the handler keeps across calls,
-- is a field of the slot.
pub mod Bits
pub mod Chain
pub mod Alloc
pub mod Lookup
pub mod Insert
pub mod Update
pub mod Delete
pub mod Clear
pub mod AutoInc
pub mod Seqlock
pub mod Locking
pub mod Blocks
pub mod Wf
pub mod Gone
pub mod History
pub mod Rows
pub mod Refines
use fastmem_mariadb.Prelude.{
  ℕ, zero, suc, ◌+◌, ◌-◌, ◌*◌, ◌/◌, ◌%◌, ◌^◌, bit_and, Bool, true, false, Option, none, some, List,
  Run, done, diverges, ◌==◌, ltb, if◌then◌else◌, update,
}

-- Values of `fm_u32` and `fm_u64`.
abbrev pub u32_mod : ℕ
u32_mod = 2 ^ 32

abbrev pub u64_mod : ℕ
u64_mod = 2 ^ 64

-- `FM_CHUNK_SIZE`, which is `1u << FM_CHUNK_SHIFT`.
abbrev pub chunk_size : ℕ
chunk_size = 4096

abbrev pub max_changed_keys : ℕ
max_changed_keys = 64

-- A record image or a packed key: its bytes.
abbrev pub Bytes : Type 0
Bytes = List ℕ

-- A buffer is as long as what is read of it; behind the end of the list a byte is read as 0.
abbrev pub byte_at : Bytes → ℕ
byte_at List.[] = 0
byte_at (List.◌∷◌ x xs) = x

abbrev pub rest_of : Bytes → Bytes
rest_of List.[] = List.[]
rest_of (List.◌∷◌ x xs) = xs

-- The next `n` bytes.
unfoldable pub read_bytes : ℕ → Bytes → Bytes
read_bytes zero b = List.[]
read_bytes (suc n) b = List.◌∷◌ (byte_at b) (read_bytes n (rest_of b))

pub data Status : Type 0 where
  err_ok err_not_found err_eof err_deleted err_dup_key err_full err_nomem err_wrong_key : Status

pub data SlotState : Type 0 where
  slot_free slot_active slot_deleted slot_deleting : SlotState

abbrev pub is_active : SlotState → Bool
is_active slot_active = true
is_active _ = false

-- `image` is the record image behind the slot's header.
pub record Slot : Type 0 where
  pub state : SlotState
  pub wlock : Bool
  pub seq : ℕ
  pub gen : ℕ
  pub free_next : Option ℕ
  pub image : Bytes

-- The callbacks of a key. A comparison returns 0 for identical keys.
pub record KeyOps : Type 0 where
  pub hash_rec : Bytes → ℕ
  pub hash_key : Bytes → ℕ
  pub cmp_rec_rec : Bytes → Bytes → ℕ
  pub cmp_rec_key : Bytes → Bytes → ℕ
  pub has_null_part : Bytes → Bool

-- A key of the core. Its array `head` is the field `head` of the share.
pub record KeyCore : Type 0 where
  pub ops : KeyOps
  pub unique : Bool
  pub nbuckets : ℕ

-- `slot i` is slot `i & (FM_CHUNK_SIZE - 1)` of chunk `i >> FM_CHUNK_SHIFT`; `head k b` is a chain
-- head of key `k`; `key_next k i` is the cell behind slot `i` in a chain of key `k`. The signed
-- 64-bit counter `records` is its bit pattern.
pub record Share : Type 0 where
  pub reclength : ℕ
  pub slot_size : ℕ
  pub keys : ℕ
  pub max_records : ℕ
  pub chunk_cap : ℕ
  pub chunk_cnt : ℕ
  pub slot : ℕ → Slot
  pub free_head : Option ℕ
  pub records : ℕ
  pub keydef : ℕ → KeyCore
  pub head : ℕ → ℕ → Option ℕ
  pub key_next : ℕ → ℕ → Option ℕ
  pub auto_inc : ℕ
  pub auto_key : ℕ
  pub auto_key_type : ℕ

-- The constructor `FM_SLOT()`; the image of a fresh slot is whatever the allocator left there.
abbrev pub fresh_slot : Bytes → Slot
fresh_slot garbage = record {
  state = slot_free;
  wlock = false;
  seq = 0;
  gen = 0;
  free_next = none;
  image = garbage;
}

-- `FM_SLOT_DATA_OFFSET`: the header has 16 bytes.
abbrev pub slot_data_offset : ℕ
slot_data_offset = 16

unfoldable pub align8 : ℕ → ℕ
align8 x = (x + 7) % u32_mod / 8 * 8

-- Where a slot lies: the chunk, and the byte offset in the chunk's memory.
unfoldable pub slot_address : Share → ℕ → ℕ × ℕ
slot_address s i = (i / chunk_size, i % chunk_size * s.slot_size)

unfoldable pub bucket : KeyCore → ℕ → ℕ
bucket kc hash = bit_and hash (kc.nbuckets - 1)

unfoldable pub key_bucket : KeyCore → Bytes → ℕ
unfolding bucket
key_bucket kc rec = bucket kc (kc.ops.hash_rec rec)

-- The number of slots that scans see.
unfoldable pub slot_count : Share → ℕ
slot_count s = s.chunk_cnt * chunk_size % u32_mod

abbrev pub set_slot : Share → ℕ → Slot → Share
set_slot s i sl = record s { slot = update s.slot i sl }

-- Spinning on a row lock that is held does not end in sequential code.
unfoldable pub lock_slot : Share → ℕ → Run Share
lock_slot s i =
    if (s.slot i).wlock then diverges else done (set_slot s i (record (s.slot i) { wlock = true }))

unfoldable pub unlock_slot : Share → ℕ → Share
unlock_slot s i = set_slot s i (record (s.slot i) { wlock = false })

-- `fm_core_init_share` where every allocation succeeds; the fields that it zeroes stay zero.
unfoldable pub init_share : ℕ → ℕ → ℕ → ℕ → (ℕ → KeyCore) → Share
unfolding align8
init_share reclength keys max_records nbuckets keydef =
    let limit = if max_records == 0 then 1 else max_records in
    let buckets = if nbuckets == 0 then 1024 else nbuckets in
    record {
      reclength = reclength;
      slot_size = align8 (slot_data_offset + reclength);
      keys = keys;
      max_records = limit;
      chunk_cap = (limit + chunk_size - 1) % u32_mod / chunk_size;
      chunk_cnt = 0;
      slot = λ i. fresh_slot List.[];
      free_head = none;
      records = 0;
      keydef = λ k. record (keydef k) { nbuckets = buckets };
      head = λ k b. none;
      key_next = λ k i. none;
      auto_inc = 0;
      auto_key = 0;
      auto_key_type = 0;
    }
