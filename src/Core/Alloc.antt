-- ===== src/Core/Alloc.antt =====
-- Slot allocation of fm_core.h: `fm_core_grow_chunk`, `fm_core_alloc_slot`, `fm_core_free_slot`.
pub mod Gives
use fastmem_mariadb.Prelude.{
  ℕ, zero, suc, ◌+◌, ◌-◌, ◌/◌, ◌%◌, Bool, true, not, ◌&&◌, Option, none, some, ◌==◌, ltb, leb,
  if◌then◌else◌,
}
use fastmem_mariadb.Core.{
  Share, Status, err_ok, err_full, err_nomem, Bytes, fresh_slot, set_slot, slot_count, chunk_size,
}

-- The allocator `ops.alloc` in one call of `fm_core_grow_chunk`: whether it grants the n-th request,
-- and what the memory of a slot's image holds when it is granted.
pub record Memory : Type 0 where
  pub grants : ℕ → Bool
  pub garbage : ℕ → Bytes

-- The requests 2, 3, … for the cells of each key are all granted.
unfoldable pub grants_cells : Memory → ℕ → Bool
grants_cells mem zero = true
grants_cells mem (suc n) = mem.grants (n + 2) && grants_cells mem n

-- On a refused request all that was allocated is given back, and the share is as before.
unfoldable pub grow_chunk : Memory → Share → Share × Status
unfolding grants_cells
grow_chunk mem s =
    let k = s.chunk_cnt in
    if leb s.chunk_cap k
    then (s, err_full)
    else if not (mem.grants 0)
    then (s, err_nomem)
    else if ltb 0 s.keys && not (mem.grants 1 && grants_cells mem s.keys)
    then (s, err_nomem)
    else (
      record s {
        slot = λ i. if i / chunk_size == k then fresh_slot (mem.garbage i) else s.slot i;
        key_next = λ kk i. if i / chunk_size == k then none else s.key_next kk i;
        chunk_cnt = k + 1;
      },
      err_ok,
    )

-- Pushes slot `idx` on the freelist.
unfoldable pub free_slot : Share → ℕ → Share
free_slot s idx =
    let s' = set_slot s idx (record (s.slot idx) { free_next = s.free_head }) in
    record s' { free_head = some idx }

-- Pushes the slots `lo + n - 1` down to `lo`.
unfoldable pub push_down : ℕ → ℕ → Share → Share
push_down zero lo s = s
push_down (suc n) lo s = push_down n lo (free_slot s (lo + n))

-- Grows the table by the chunk of the slots from `total` on. All but the first go to the freelist.
unfoldable pub alloc_grown : Memory → Share → ℕ → Share × Option ℕ
alloc_grown mem s total =
    let end =
      if ltb s.max_records (total + chunk_size) then s.max_records else total + chunk_size in
    let (s', rc) = grow_chunk mem s in
    elim rc [ err_ok ↦ (push_down (end - (total + 1)) (total + 1) s', some total) | _ ↦ (s', none) ]

-- The part behind an empty freelist.
unfoldable pub alloc_fresh : Memory → Share → Share × Option ℕ
unfolding alloc_grown
alloc_fresh mem s =
    let total = slot_count s in
    if leb s.max_records total
    then (s, none)
    else if total % chunk_size == 0
    then alloc_grown mem s total
    else (s, some total)

-- Pops a free slot; `none` is `FM_NULL_SLOT`.
unfoldable pub alloc_slot : Memory → Share → Share × Option ℕ
alloc_slot mem s = elim s.free_head [
  | some idx ↦ (record s { free_head = (s.slot idx).free_next }, some idx)
  | none ↦ alloc_fresh mem s
]
