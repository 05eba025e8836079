-- ===== src/Core/Blocks.antt =====
-- The memory of a share: which blocks `fm_core_init_share` and `fm_core_grow_chunk` ask for, and which
-- `fm_core_free_share` gives back. A block is the number of the request that was granted; requests may
-- be refused in any order.
pub mod Frees
pub mod Balance
use fastmem_mariadb.Prelude.{
  ℕ, zero, suc, ◌+◌, Bool, true, false, Option, none, some, List, [], ◌∷◌, ◌++◌, Run, done,
  diverges, ◌>>=◌, ◌==◌, if◌then◌else◌, has, remove,
}

-- The blocks in use, and the number of the next request.
pub record Heap : Type 0 where
  pub live : List ℕ
  pub next : ℕ

-- `ops.alloc`, by which requests it grants.
unfoldable pub alloc : (ℕ → Bool) → Heap → Heap × Option ℕ
alloc grants h =
    let b = h.next in
    if grants b
    then (record { live = b ∷ h.live; next = b + 1 }, some b)
    else (record { live = h.live; next = b + 1 }, none)

-- `ops.dealloc`, which has no result where the block is not in use.
unfoldable pub dealloc : Heap → ℕ → Run Heap
dealloc h b = if has b h.live then done (record h { live = remove b h.live }) else diverges

-- `if (p) dealloc(p)`.
unfoldable pub dealloc_any : Heap → Option ℕ → Run Heap
unfolding dealloc
dealloc_any h none = done h
dealloc_any h (some b) = dealloc h b

-- Gives back a list of blocks in order.
unfoldable pub dealloc_all : Heap → List ℕ → Run Heap
unfolding dealloc
dealloc_all h [] = done h
dealloc_all h (b ∷ bs) = do h' ← dealloc h b; dealloc_all h' bs

-- `FM_CHUNK`: the slots, and where the share has keys, the array `key_next` and its cells.
pub record Chunk : Type 0 where
  pub slots : ℕ
  pub key_next : Option (ℕ × List ℕ)

-- The pointers of a share. Each key has its array `head` and its array `locks`.
pub record Blocks : Type 0 where
  pub chunks : Option ℕ
  pub chunk_list : List Chunk
  pub keydef : Option ℕ
  pub keys : List (Option ℕ × Option ℕ)

unfoldable pub alloc_keys : (ℕ → Bool) → ℕ → Heap → Heap × List (Option ℕ × Option ℕ)
unfolding alloc
alloc_keys grants zero h = (h, [])
alloc_keys grants (suc n) h =
    let (h1, head) = alloc grants h in
    let (h2, locks) = alloc grants h1 in
    let (h3, rest) = alloc_keys grants n h2 in (h3, (head, locks) ∷ rest)

abbrev pub no_keys : Option ℕ → Blocks
no_keys c = record { chunks = c; chunk_list = []; keydef = none; keys = [] }

-- The part behind the chunk array `c`, with what the next requests would give.
abbrev pub init_behind :
    ℕ → Option ℕ → Heap → Option ℕ → Heap → Heap × List (Option ℕ × Option ℕ) → Heap × Blocks
init_behind keys none h1 kd h2 (h3, ks) = (h1, no_keys none)
init_behind zero (some x) h1 kd h2 (h3, ks) = (h1, no_keys (some x))
init_behind (suc n) (some x) h1 none h2 (h3, ks) = (h2, no_keys (some x))
init_behind (suc n) (some x) h1 (some y) h2 (h3, ks) =
    (h3, record { chunks = some x; chunk_list = []; keydef = some y; keys = ks })

-- `fm_core_init_share` for `keys` keys.
unfoldable pub init_blocks : (ℕ → Bool) → ℕ → Heap → Heap × Blocks
unfolding alloc alloc_keys
init_blocks grants keys h =
    let (h1, c) = alloc grants h in
    let (h2, kd) = alloc grants h1 in init_behind keys c h1 kd h2 (alloc_keys grants keys h2)

-- One cell, and those behind it where it was granted.
abbrev pub cell_behind : Option ℕ → Heap → Heap × List ℕ × Bool → Heap × List ℕ × Bool
cell_behind none h1 rest = (h1, [], false)
cell_behind (some x) h1 (h2, cs, all) = (h2, x ∷ cs, all)

-- The cells of the keys in a new chunk, up to one that is refused; whether all were granted.
unfoldable pub alloc_cells : (ℕ → Bool) → ℕ → Heap → Heap × List ℕ × Bool
unfolding alloc
alloc_cells grants zero h = (h, [], true)
alloc_cells grants (suc n) h =
    let (h1, c) = alloc grants h in cell_behind c h1 (alloc_cells grants n h1)

abbrev pub add_chunk : Blocks → Chunk → Blocks
add_chunk b c = record b { chunk_list = b.chunk_list ++ c ∷ [] }

-- The part behind the cells of a new chunk: where one was refused, all is given back.
unfoldable pub grow_keyed : Blocks → ℕ → ℕ → Heap × List ℕ × Bool → Run (Heap × Blocks)
unfolding dealloc dealloc_all
grow_keyed b x y (h3, cells, true) =
    done (h3, add_chunk b (record { slots = x; key_next = some (y, cells) }))
grow_keyed b x y (h3, cells, false) = do
  a ← dealloc_all h3 cells
  a' ← dealloc a y
  a'' ← dealloc a' x
  done (a'', b)

-- The part behind the slots `s`, with what the next requests would give.
unfoldable pub grow_behind :
    ℕ → Blocks → Option ℕ → Heap → Option ℕ → Heap → Heap × List ℕ × Bool → Run (Heap × Blocks)
unfolding grow_keyed
grow_behind keys b none h1 kn h2 cells = done (h1, b)
grow_behind zero b (some x) h1 kn h2 cells =
    done (h1, add_chunk b (record { slots = x; key_next = none }))
grow_behind (suc n) b (some x) h1 none h2 cells = do h' ← dealloc h2 x; done (h', b)
grow_behind (suc n) b (some x) h1 (some y) h2 cells = grow_keyed b x y cells

-- `fm_core_grow_chunk` below the limit of chunks. It writes the address of the slots into the chunk
-- array, and has no result where the share has none.
unfoldable pub grow_blocks : (ℕ → Bool) → ℕ → Heap → Blocks → Run (Heap × Blocks)
unfolding alloc alloc_cells grow_behind
grow_blocks grants keys h b =
    let (h1, s) = alloc grants h in
    let (h2, kn) = alloc grants h1 in
    let cells = alloc_cells grants keys h2 in
    elim b.chunks [ none ↦ diverges | some c ↦ grow_behind keys b s h1 kn h2 cells ]

-- `n` chunks, or fewer where memory is refused.
unfoldable pub grow_times : (ℕ → Bool) → ℕ → ℕ → Heap → Blocks → Run (Heap × Blocks)
unfolding grow_blocks
grow_times grants keys zero h b = done (h, b)
grow_times grants keys (suc n) h b = do
  (h', b') ← grow_blocks grants keys h b
  grow_times grants keys n h' b'

unfoldable pub free_chunk : Heap → Chunk → Run Heap
unfolding dealloc dealloc_all
free_chunk h c = dealloc h c.slots >>= λ h1. elim c.key_next [
  | none ↦ done h1
  | some (y, cells) ↦ (do h2 ← dealloc_all h1 cells; dealloc h2 y)
]

unfoldable pub free_chunks : Heap → List Chunk → Run Heap
unfolding free_chunk
free_chunks h [] = done h
free_chunks h (c ∷ cs) = do h' ← free_chunk h c; free_chunks h' cs

unfoldable pub free_keys : Heap → List (Option ℕ × Option ℕ) → Run Heap
unfolding dealloc_any
free_keys h [] = done h
free_keys h ((head, locks) ∷ ks) = do
  h1 ← dealloc_any h head
  h2 ← dealloc_any h1 locks
  free_keys h2 ks

-- `fm_core_free_share`, which reads the key array where there are keys.
unfoldable pub free_share : ℕ → Heap → Blocks → Run Heap
unfolding free_chunks free_keys dealloc_any
free_share keys h b = do
  h1 ← free_chunks h b.chunk_list
  h2 ← dealloc_any h1 b.chunks
  let at_keys = free_keys h2 b.keys
  h3 ← (elim b.keydef [ none ↦ if keys == 0 then done h2 else diverges | some y ↦ at_keys ])
  dealloc_any h3 b.keydef
