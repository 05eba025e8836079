-- ===== src/Core/Wf/Walks/Next.antt =====
-- The exact-key scan: `fm_core_find` followed by calls of `fm_core_find_next`.
use fastmem_mariadb.Prelude.{
  ℕ, zero, suc, ◌+◌, ◌<◌, ◌≡◌, refl, ap, ◌∙◌, true, false, ◌&&◌, Option, none, some, List, [], ◌∷◌,
  Run, done, diverges, Returns, ◌>>=◌, ◌==◌, if◌then◌else◌, inl, inr, Bool-cases, ==_refl,
  Option-cases, has, length, Distinct, arith,
}
use fastmem_mariadb.Core.{Share, Bytes, bucket, key_bucket, slot_count}
use fastmem_mariadb.Core.Chain.{Linked}
use fastmem_mariadb.Core.Lookup.{packed_bucket, visit_key, find, next_loop, find_next}
use fastmem_mariadb.Core.Wf.{LawfulKey, Wf, active_at, place_of}
use fastmem_mariadb.Core.Wf.Chains.{length-chain}
use fastmem_mariadb.Core.Wf.Walks.{IsQuiet, Wf-IsQuiet, walk-first_some, first_some}
use fastmem_mariadb.Core.Wf.Walks.Find.{key_result, visit_key_lem, has_key}

-- The members of a list behind `cur`.
unfoldable pub behind : ℕ → List ℕ → List ℕ
behind cur [] = []
behind cur (x ∷ xs) = if x == cur then xs else behind cur xs

module _ {s : Share} (q : IsQuiet s) (k : ℕ) (packed : Bytes) (cur : ℕ) where
  next_loop-on :
      (f : ℕ) (h : Option ℕ) (xs : List ℕ)
      → Linked (s.key_next k) h xs
      → length xs < f
      → has cur xs ≡ false
      → next_loop f s k packed cur true h ≡ done (first_some (key_result s k packed) xs)
  unfolding next_loop first_some
  next_loop-on zero h xs l fuel off = absurd (omega arith)
  next_loop-on (suc f) h [] l fuel off = rw l
  next_loop-on (suc f) h (x ∷ xs) (e, l) fuel off =
      let miss : (x == cur) ≡ false = ground arith in
      let ih = next_loop-on f (s.key_next k x) xs l (omega arith) (ground arith) in
      elim (Option-cases (key_result s k packed x)) [
        | inl n ↦ rw (e, next_loop, miss, visit_key_lem q k packed x, n, first_some) ih
        | inr (a, p) ↦ rw (e, next_loop, miss, visit_key_lem q k packed x, p, first_some)
      ]

  pub next_loop-behind :
      (f : ℕ) (h : Option ℕ) (xs : List ℕ)
      → Linked (s.key_next k) h xs
      → Distinct xs
      → length xs < f
      → next_loop f s k packed cur false h
        ≡ done (first_some (key_result s k packed) (behind cur xs))
  unfolding next_loop behind first_some
  next_loop-behind zero h xs l d fuel = absurd (omega arith)
  next_loop-behind (suc f) h [] l d fuel = rw l
  next_loop-behind (suc f) h (x ∷ xs) (e, l) d fuel = elim (Bool-cases (x == cur)) [
    | inl hit ↦
        rw (e, next_loop, hit)
          (next_loop-on f (s.key_next k x) xs l (omega arith) (ground (arith, d)))
    | inr miss ↦
        rw (e, next_loop, miss) (next_loop-behind f (s.key_next k x) xs l d.1 (omega arith))
  ]

-- The slots of a list that hold a row with the key.
unfoldable pub with_key : Share → ℕ → Bytes → List ℕ → List ℕ
with_key s k packed [] = []
with_key s k packed (x ∷ xs) =
    let rest = with_key s k packed xs in if has_key s k packed x then x ∷ rest else rest

has-with_key :
    (s : Share) (k : ℕ) (packed : Bytes) (i : ℕ) (xs : List ℕ)
    → has i (with_key s k packed xs) ≡ (has i xs && has_key s k packed i)
unfolding with_key
has-with_key s k packed i [] = refl
has-with_key s k packed i (x ∷ xs) = elim (Bool-cases (i == x)) [
  | inl same ↦ let p : i ≡ x = ground arith in rw p (ground (arith, has-with_key s k packed x xs))
  | inr other ↦ ground (arith, has-with_key s k packed i xs)
]

with_key-Distinct :
    (s : Share) (k : ℕ) (packed : Bytes) (xs : List ℕ)
    → Distinct xs
    → Distinct (with_key s k packed xs)
unfolding with_key
with_key-Distinct s k packed [] d = d
with_key-Distinct s k packed (x ∷ xs) d =
    ground (arith, with_key-Distinct s k packed xs, has-with_key s k packed x xs)

-- A caller that reads every row with a key: it calls `fm_core_find`, then `fm_core_find_next` behind
-- each row that it got, until there is no further row. The result is the slots.
unfoldable pub key_scan : ℕ → Share → ℕ → Bytes → Option (ℕ × Bytes) → Run (List ℕ)
key_scan f s k packed none = done []
key_scan zero s k packed (some r) = diverges
key_scan (suc f) s k packed (some (h, buf)) = do
  r ← find_next s k packed h
  rest ← key_scan f s k packed r
  done (h ∷ rest)

unfoldable pub rows_with_key : Share → ℕ → Bytes → Run (List ℕ)
rows_with_key s k packed = do r ← find s k packed; key_scan (slot_count s + 1) s k packed r

module _ (s : Share) (k : ℕ) (packed : Bytes) where
  key_scan-with_key :
      (f : ℕ) (xs : List ℕ)
      → Distinct xs
      → length xs < f
      → ((h : ℕ)
          → has h xs ≡ true
          → find_next s k packed h ≡ done (first_some (key_result s k packed) (behind h xs)))
      → key_scan f s k packed (first_some (key_result s k packed) xs)
        ≡ done (with_key s k packed xs)
  unfolding key_scan with_key first_some behind
  key_scan-with_key f [] d fuel nexts = refl
  key_scan-with_key zero (x ∷ xs) d fuel nexts = absurd (omega arith)
  key_scan-with_key (suc f) (x ∷ xs) d fuel nexts =
      let later : (h : ℕ)
          → has h xs ≡ true
          → find_next s k packed h ≡ done (first_some (key_result s k packed) (behind h xs)) =
        λ h m.
          let miss : (x == h) ≡ false = ground arith in
          nexts h (ground arith) ∙ rw (behind, miss) refl in
      let at : find_next s k packed x ≡ done (first_some (key_result s k packed) xs) =
        nexts x (ground arith) ∙ rw (behind, ==_refl x) refl in
      elim (Bool-cases (has_key s k packed x)) [
        | inl y ↦
            rw (
              first_some,
              y,
              key_scan,
              at,
              key_scan-with_key f xs d.1 (omega arith) later,
              with_key,
            )
        | inr n ↦
            rw (first_some, n, with_key) (key_scan-with_key (suc f) xs d.1 (omega arith) later)
      ]

-- The slots, each once, that hold a row with the key.
abbrev pub ExactlyWithKey : Share → ℕ → Bytes → List ℕ → Type 0
ExactlyWithKey s k packed xs = Distinct xs × ((i : ℕ) → has i xs ≡ has_key s k packed i)

module _ (s : Share) (k : ℕ) (packed : Bytes) (w : Wf s) (lt : k < s.keys) where
  pub find_next-behind :
      (cur : ℕ)
      → find_next s k packed cur
        ≡ done (
            first_some
              (key_result s k packed)
              (behind cur ((w.chains k lt).chain (packed_bucket (s.keydef k) packed))))
  unfolding find_next
  find_next-behind cur =
      let c = w.chains k lt in
      let q = Wf-IsQuiet w in
      let b = packed_bucket (s.keydef k) packed in
      next_loop-behind q k packed cur (slot_count s + 1) (s.head k b) (c.chain b) (c.linked b)
        (c.distinct b) (omega (arith, length-chain c (slot_count s) b q.below))

  in_chain :
      LawfulKey (s.keydef k).ops
      → (i : ℕ) → has_key s k packed i ≡ true
      → has i ((w.chains k lt).chain (packed_bucket (s.keydef k) packed)) ≡ true
  unfolding packed_bucket key_bucket
  in_chain law i y =
      let c = w.chains k lt in
      let same = law.hash-rec_key (s.slot i).image packed (ground arith) in
      ground (arith, c.members (packed_bucket (s.keydef k) packed) i, ap (bucket (s.keydef k)) same)

-- A scan with a lawful key in a well-formed table, by one `find` and then a `find_next` behind each row that
-- it got, ends: it has visited every row with the key, each once, and no other row.
pub rows_with_key-ExactlyWithKey :
    (s : Share) (k : ℕ) (packed : Bytes)
    → Wf s
    → k < s.keys
    → LawfulKey (s.keydef k).ops
    → Returns (rows_with_key s k packed) (ExactlyWithKey s k packed)
unfolding rows_with_key find
rows_with_key-ExactlyWithKey s k packed w lt law =
    let c = w.chains k lt in
    let q = Wf-IsQuiet w in
    let b = packed_bucket (s.keydef k) packed in
    let xs = c.chain b in
    let start =
      walk-first_some q k c (visit_key s k packed) (key_result s k packed) b
        (visit_key_lem q k packed) in
    (
      with_key s k packed xs,
      rw start (
          key_scan-with_key s k packed (slot_count s + 1) xs (c.distinct b)
            (omega (arith, length-chain c (slot_count s) b q.below))
            (λ h m. find_next-behind s k packed w lt h)),
      (
        with_key-Distinct s k packed xs (c.distinct b),
        λ i. ground (arith, has-with_key s k packed i xs, in_chain s k packed w lt law i),
      ),
    )

behind-off : (cur : ℕ) (xs : List ℕ) → has cur xs ≡ false → behind cur xs ≡ []
unfolding behind
behind-off cur [] off = refl
behind-off cur (x ∷ xs) off = ground (arith, behind-off cur xs)

-- Behind a slot that holds no row any more, or whose row is now in another bucket than the key's, `find_next`
-- ends with no row, whatever rows with the key the well-formed table has.
pub find_next-none :
    (s : Share) (k : ℕ) (packed : Bytes) (cur : ℕ)
    → Wf s
    → k < s.keys
    → (active_at s cur && place_of s k cur == packed_bucket (s.keydef k) packed) ≡ false
    → find_next s k packed cur ≡ done none
unfolding first_some
find_next-none s k packed cur w lt gone_cur =
    let b = packed_bucket (s.keydef k) packed in
    let c = w.chains k lt in
    find_next-behind s k packed w lt cur
    ∙ rw (behind-off cur (c.chain b) (c.members b cur ∙ gone_cur)) refl
