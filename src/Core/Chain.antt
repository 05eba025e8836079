-- ===== src/Core/Chain.antt =====
-- Hash chains: the walks of fm_core.h along `head` and `key_next`, `fm_core_chain_unlink` and
-- `fm_core_chain_link`. A walk runs on fuel; the callers give it `slot_count s + 1` rounds, one more
-- than the slots that a chain without a cycle can hold.
pub mod Laws
use fastmem_mariadb.Prelude.{
  ℕ, zero, suc, ◌+◌, Bool, true, false, not, Option, none, some, List, [], ◌∷◌, Run, done, diverges,
  ◌>>=◌, ◌==◌, if◌then◌else◌, update, has, ◌≡◌,
}
use fastmem_mariadb.Core.{Share, Status, err_ok, err_not_found, slot_count}

-- The head of one bucket and the cells behind the slots, for one key.
pub record Cells : Type 0 where
  pub first : Option ℕ
  pub next : ℕ → Option ℕ

-- The pointer `fm_i32 *link`: to the head, or to the cell behind a slot.
pub data Link : Type 0 where
  to_first : Link
  to_next : ℕ → Link

abbrev pub read_link : Cells → Link → Option ℕ
read_link c to_first = c.first
read_link c (to_next j) = c.next j

unfoldable pub write_link : Cells → Link → Option ℕ → Cells
write_link c to_first v = record c { first = v }
write_link c (to_next j) v = record c { next = update c.next j v }

-- The `while` of `fm_core_chain_unlink`.
unfoldable pub unlink_loop : ℕ → Cells → Link → ℕ → Run (Cells × Status)
unlink_loop zero c link idx = diverges
unlink_loop (suc f) c link idx = elim (read_link c link) [
  | none ↦ done (c, err_not_found)
  | some h ↦
      let rest = unlink_loop f c (to_next h) idx in
      if h == idx then done (write_link c link (c.next idx), err_ok) else rest
]

abbrev pub cells : Share → ℕ → ℕ → Cells
cells s k b = record { first = s.head k b; next = s.key_next k }

abbrev pub set_cells : Share → ℕ → ℕ → Cells → Share
set_cells s k b c = record s {
  head = update s.head k (update (s.head k) b c.first);
  key_next = update s.key_next k c.next;
}

-- Takes slot `idx` out of bucket `b` of key `k`.
unfoldable pub chain_unlink : Share → ℕ → ℕ → ℕ → Run (Share × Status)
chain_unlink s k b idx = do
  (c, rc) ← unlink_loop (slot_count s + 1) (cells s k b) to_first idx
  done (set_cells s k b c, rc)

-- Puts slot `idx` at the head of bucket `b` of key `k`.
unfoldable pub chain_link : Share → ℕ → ℕ → ℕ → Share
chain_link s k b idx =
    let s' = record s { key_next = update s.key_next k (update (s.key_next k) idx (s.head k b)) } in
    record s' { head = update s'.head k (update (s'.head k) b (some idx)) }

-- A walk that stops at the first slot for which `visit` has a result.
unfoldable pub walk {ℓ} :
    {A : Type ℓ} → ℕ → (ℕ → Option ℕ) → (ℕ → Run (Option A)) → Option ℕ → Run (Option A)
walk zero next visit h = diverges
walk (suc f) next visit h = elim h [
  | none ↦ done none
  | some i ↦ visit i >>= elim [ some a ↦ done (some a) | none ↦ walk f next visit (next i) ]
]

-- What a walk does over the list of the slots of a chain.
unfoldable pub first_of_list {ℓ} : {A : Type ℓ} → (ℕ → Run (Option A)) → List ℕ → Run (Option A)
first_of_list visit [] = done none
first_of_list visit (i ∷ xs) =
    visit i >>= elim [ some a ↦ done (some a) | none ↦ first_of_list visit xs ]

-- From `h` the cells lead through the slots `xs`, in order, to `FM_NULL_SLOT`.
abbrev pub Linked : (ℕ → Option ℕ) → Option ℕ → List ℕ → Type 0
Linked next h [] = h ≡ none
Linked next h (x ∷ xs) = (h ≡ some x) × Linked next (next x) xs

abbrev pub same_link : Link → Link → Bool
same_link to_first to_first = true
same_link (to_next i) (to_next j) = i == j
same_link _ _ = false

-- The link lies in none of the slots `xs`.
abbrev pub is_off : Link → List ℕ → Bool
is_off to_first xs = true
is_off (to_next j) xs = not (has j xs)
