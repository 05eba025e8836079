-- ===== src/Core/Lookup.antt =====
-- Reads of fm_core.h, as one thread runs them alone: the row copy, the scan, the point lookups and
-- the duplicate check.
use fastmem_mariadb.Prelude.{
  ℕ, zero, suc, ◌+◌, ◌-◌, ◌%◌, Bool, true, false, not, ◌&&◌, ◌||◌, Option, none, some, Run, done,
  diverges, ◌>>=◌, ◌==◌, if◌then◌else◌,
}
use fastmem_mariadb.Core.{
  Share, KeyCore, Status, err_ok, err_dup_key, Bytes, is_active, bucket, slot_count,
}
use fastmem_mariadb.Core.Chain.{walk}

-- `FM_ERR_OK` with the copied image, or `FM_ERR_DELETED`.
pub data ReadResult : Type 0 where
  row : Bytes → ReadResult
  gone : ReadResult

-- Where no writer is at work, an odd counter stays odd and the loop does not end.
unfoldable pub read_row : Share → ℕ → Bool → ℕ → Run ReadResult
read_row s idx check_gen expect_gen =
    let sl = s.slot idx in
    if not (is_active sl.state) || check_gen && not (sl.gen == expect_gen)
    then done gone
    else if sl.seq % 2 == 1
    then diverges
    else done (row sl.image)

-- The scan visits the slots from `pos` on, `n` at most. The result is the new `*pos`, and the row or
-- `none` for `FM_ERR_EOF`.
unfoldable pub scan_loop : ℕ → Share → ℕ → Run (ℕ × Option Bytes)
scan_loop zero s pos = done (pos, none)
scan_loop (suc n) s pos =
    read_row s pos false 0
    >>= elim [ row buf ↦ done (pos + 1, some buf) | gone ↦ scan_loop n s (pos + 1) ]

unfoldable pub scan_next : Share → ℕ → Run (ℕ × Option Bytes)
scan_next s pos = scan_loop (slot_count s - pos) s pos

-- The test of one chain node in `fm_core_find`.
unfoldable pub visit_key : Share → ℕ → Bytes → ℕ → Run (Option (ℕ × Bytes))
visit_key s key packed h = read_row s h false 0 >>= elim [
  | gone ↦ done none
  | row buf ↦ done (if (s.keydef key).ops.cmp_rec_key buf packed == 0 then some (h, buf) else none)
]

unfoldable pub packed_bucket : KeyCore → Bytes → ℕ
packed_bucket kc packed = bucket kc (kc.ops.hash_key packed)

-- The slot and its row, or `none` for `FM_ERR_NOT_FOUND`.
unfoldable pub find : Share → ℕ → Bytes → Run (Option (ℕ × Bytes))
find s key packed =
    let b = packed_bucket (s.keydef key) packed in
    walk (slot_count s + 1) (s.key_next key) (visit_key s key packed) (s.head key b)

-- The loop of `fm_core_find_next`, with its flag `after_cur`.
unfoldable pub next_loop : ℕ → Share → ℕ → Bytes → ℕ → Bool → Option ℕ → Run (Option (ℕ × Bytes))
next_loop zero s key packed cur after_cur h = diverges
next_loop (suc f) s key packed cur after_cur none = done none
next_loop (suc f) s key packed cur after_cur (some h) =
    let rest = next_loop f s key packed cur after_cur (s.key_next key h) in
    let seen = next_loop f s key packed cur true (s.key_next key h) in
    let look = visit_key s key packed h >>= elim [ some r ↦ done (some r) | none ↦ rest ] in
    if h == cur then seen else if after_cur then look else rest

unfoldable pub find_next : Share → ℕ → Bytes → ℕ → Run (Option (ℕ × Bytes))
find_next s key packed cur =
    let b = packed_bucket (s.keydef key) packed in
    next_loop (slot_count s + 1) s key packed cur false (s.head key b)

-- The test of one chain node in `fm_core_dup_check`.
unfoldable pub visit_rec : Share → ℕ → Bytes → ℕ → Run (Option ℕ)
visit_rec s k rec h = read_row s h false 0 >>= elim [
  | gone ↦ done none
  | row buf ↦ done (if (s.keydef k).ops.cmp_rec_rec buf rec == 0 then some h else none)
]

-- The key asks for a check of this record.
unfoldable pub checks_dup : KeyCore → Bytes → Bool
checks_dup kc rec = kc.unique && not (kc.ops.has_null_part rec)

unfoldable pub dup_check : Share → ℕ → ℕ → Bytes → Run Status
unfolding checks_dup
dup_check s k b rec =
    let found = walk (slot_count s + 1) (s.key_next k) (visit_rec s k rec) (s.head k b) in
    if checks_dup (s.keydef k) rec
    then (found >>= elim [ some h ↦ done err_dup_key | none ↦ done err_ok ])
    else done err_ok
