-- ===== src/Registry.antt =====
-- The table registry of fm_create.cc: the list of shares, their open counts, and the open handles.
-- `THR_LOCK_fastmem` covers each call. Shares and handles stand in memory under an address; memory that
-- is free holds `none`. The list that `share_next` links is the list of its addresses, and so is
-- `open_list`. What the allocators answer is a parameter of a call.
pub mod Handles
pub mod Buckets
pub mod Wf
pub mod History
pub mod Fresh
pub mod Opens
pub mod Reach
pub mod Dropped
use fastmem_mariadb.Prelude.{
  ℕ, zero, suc, ◌+◌, ◌-◌, ◌*◌, ◌/◌, ◌%◌, ◌^◌, Bool, true, false, not, ◌&&◌, ◌||◌, Option, none,
  some, List, [], ◌∷◌, Run, diverges, ◌>>=◌, done, ◌==◌, ltb, if◌then◌else◌, update, remove,
}
use fastmem_mariadb.Core.{Share, KeyCore, KeyOps, init_share, u32_mod}
use fastmem_mariadb.Core.Clear.{clear}
use fastmem_mariadb.KeyDef.{KeyDef}
use fastmem_mariadb.Data.{Table, Info, no_flags}

abbrev pub Name : Type 0
Name = List ℕ

-- `!strcmp(a, b)`.
unfoldable pub same_name : Name → Name → Bool
same_name [] [] = true
same_name (x ∷ a) (y ∷ b) = x == y && same_name a b
same_name _ _ = false

-- `FM_SHARE`.
pub record Entry : Type 0 where
  pub name : Name
  pub table : Table
  pub max_key_length : ℕ
  pub open_count : ℕ
  pub delete_on_close : Bool
  pub internal : Bool
  pub open_list : List ℕ

-- `FM_INFO`, with the address of its share.
pub record File : Type 0 where
  pub share : ℕ
  pub mode : ℕ
  pub open_listed : Bool
  pub info : Info

pub record Registry : Type 0 where
  pub share_list : List ℕ
  pub shares : ℕ → Option Entry
  pub files : ℕ → Option File

-- The part of `FM_CREATE_INFO` that `fm_create` reads. `auto_increment` is the value last handed out.
pub record CreateInfo : Type 0 where
  pub keydef : ℕ → KeyDef
  pub keys : ℕ
  pub reclength : ℕ
  pub max_key_length : ℕ
  pub max_records : ℕ
  pub auto_increment : ℕ
  pub auto_key : ℕ
  pub auto_key_type : ℕ
  pub internal_table : Bool

unfoldable pub find_loop : (ℕ → Option Entry) → Name → List ℕ → Option ℕ
unfolding same_name
find_loop shares name [] = none
find_loop shares name (a ∷ rest_list) =
    let rest = find_loop shares name rest_list in
    elim (shares a) [ none ↦ rest | some e ↦ if same_name name e.name then some a else rest ]

-- `fm_find_named_share`.
unfoldable pub find_named_share : Registry → Name → Option ℕ
unfolding find_loop
find_named_share r name = find_loop r.shares name r.share_list

abbrev pub put : Registry → ℕ → Entry → Registry
put r a e = record r { shares = update r.shares a (some e) }

-- `fm_free`, with `fm_share_list_remove` for a share that is registered.
unfoldable pub free : Registry → ℕ → Entry → Registry
free r a e = record r {
  share_list = if e.internal then r.share_list else remove a r.share_list;
  shares = update r.shares a none;
}

-- `nbuckets= 1024; while (nbuckets < max_records / 4 && nbuckets < (1UL << 20)) nbuckets<<= 1`.
unfoldable pub grow_buckets : ℕ → ℕ → ℕ → ℕ
grow_buckets zero max_records n = n
grow_buckets (suc fuel) max_records n =
    let more = grow_buckets fuel max_records (n * 2) in
    if ltb n (max_records / 4) && ltb n (2 ^ 20) then more else n

unfoldable pub bucket_count : ℕ → ℕ
unfolding grow_buckets
bucket_count max_records = grow_buckets 11 max_records 1024

-- What the allocators grant to `fm_create`: the memory of the share, the chunk array of the core, and
-- the copy of the name. A core that has its chunk array is taken to get the arrays of its keys too.
pub record Grants : Type 0 where
  pub share : Option ℕ
  pub chunks : Bool
  pub name : Bool

-- The key callbacks of a new core are null until `fm_key_ops_init` sets them.
abbrev pub unset_ops : KeyOps
unset_ops = record {
  hash_rec = λ r. 0;
  hash_key = λ r. 0;
  cmp_rec_rec = λ a b. 0;
  cmp_rec_key = λ a b. 0;
  has_null_part = λ r. false;
}

-- The core of a new share. The limit of rows is narrowed to the 32 bits of `fm_u32`.
unfoldable pub new_core : CreateInfo → Share
unfolding bucket_count
new_core ci =
    let unset : KeyCore = record { ops = unset_ops; unique = false; nbuckets = 0 } in
    let core =
      init_share ci.reclength ci.keys (ci.max_records % u32_mod) (bucket_count ci.max_records)
        (λ k. unset) in
    record core {
      auto_key = ci.auto_key;
      auto_key_type = ci.auto_key_type;
      auto_inc = ci.auto_increment;
    }

unfoldable pub new_entry : Name → CreateInfo → ℕ → Entry
unfolding new_core
new_entry name ci now = record {
  name = name;
  table = record { core = new_core ci; keydef = ci.keydef; create_time = now };
  max_key_length = ci.max_key_length;
  open_count = 0;
  delete_on_close = ci.internal_table;
  internal = ci.internal_table;
  open_list = [];
}

-- The share with the name, if it is in use; one that nobody uses is freed.
unfoldable pub reuse : Registry → Name → Bool → Registry × Option ℕ
unfolding free
reuse r name internal =
    let found = find_named_share r name in
    if internal then (r, none) else elim found [
      | none ↦ (r, none)
      | some a ↦ elim (r.shares a) [
        | none ↦ (r, none)
        | some e ↦ if e.open_count == 0 then (free r a e, none) else (r, some a)
      ]
    ]

-- A new share, and its place in the list; `none` where an allocation fails and all is given back. Without
-- its chunk array a core has no key array either, and `fm_core_free_share` reads its keys through a null
-- pointer: there is no result then, unless it has no keys.
unfoldable pub add_new : Registry → Name → CreateInfo → ℕ → Grants → Run (Registry × Option ℕ)
add_new r name ci now g = elim g.share [
  | none ↦ done (r, none)
  | some a ↦
      let r' = put r a (new_entry name ci now) in
      let listed = if ci.internal_table then r.share_list else a ∷ r.share_list in
      if g.chunks
      then (if g.name then done (record r' { share_list = listed }, some a) else done (r, none))
      else (if ci.keys == 0 then done (r, none) else diverges)
]

-- `++share->open_count`.
unfoldable pub pin : Registry → ℕ → Registry
pin r a = elim (r.shares a) [
  | none ↦ r
  | some e ↦ put r a (record e { open_count = e.open_count + 1 })
]

-- `fm_create`: the share, or `none` for the result 1, and `*created_new_share`.
unfoldable pub create :
    Registry → Name → CreateInfo → Bool → ℕ → Grants → Run (Registry × Option ℕ × Bool)
unfolding reuse add_new pin
create r name ci pin_share now g =
    let (r1, found) = reuse r name ci.internal_table in
    let pins = not ci.internal_table && pin_share in
    elim found [
      | some a ↦ done (if pins then pin r1 a else r1, some a, false)
      | none ↦ add_new r1 name ci now g >>= λ (r2, made). elim made [
        | none ↦ done (r2, none, true)
        | some a ↦ done (if pins then pin r2 a else r2, some a, true)
      ]
    ]
