-- ===== src/Core/Blocks/Frees.antt =====
-- What giving blocks back leaves in use.
use fastmem_mariadb.Prelude.{
  ℕ, ◌+◌, ◌≡◌, ◌≢◌, ◌<◌, ◌⊎◌, refl, ap, Bool, true, Option, none, some, List, [], ◌∷◌, ◌++◌,
  Returns, ◌==◌, if◌then◌else◌, has, remove, inl, inr, arith,
}
use fastmem_mariadb.Core.Blocks.{
  Heap, alloc, dealloc, dealloc_any, dealloc_all, Chunk, Blocks, free_chunk, free_chunks, free_keys,
  free_share,
}

-- How often a block is in a list.
unfoldable pub count : ℕ → List ℕ → ℕ
count i [] = 0
count i (x ∷ xs) = (if i == x then 1 else 0) + count i xs

count-remove :
    (i b : ℕ) (xs : List ℕ)
    → has b xs ≡ true
    → count i xs ≡ (if i == b then 1 else 0) + count i (remove b xs)
unfolding count
count-remove i b [] m = absurd (ground arith)
count-remove i b (x ∷ xs) m = ground (arith, count-remove i b xs)

has-count : (b : ℕ) (xs : List ℕ) → 0 < count b xs → has b xs ≡ true
unfolding count
has-count b [] c = absurd (omega arith)
has-count b (x ∷ xs) c = ground (arith, has-count b xs)

-- The blocks in use are `held` and those of `base`.
abbrev pub Holds : (ℕ → ℕ) → (ℕ → ℕ) → Heap → Type 0
Holds base held h = (i : ℕ) → count i h.live ≡ held i + base i

abbrev pub one : ℕ → ℕ → ℕ
one b i = if i == b then 1 else 0

abbrev pub any : Option ℕ → ℕ → ℕ
any none i = 0
any (some b) i = one b i

pub alloc-Holds :
    (grants : ℕ → Bool) (base held : ℕ → ℕ) (h : Heap)
    → Holds base held h
    → Holds base (λ i. any (alloc grants h).1 i + held i) (alloc grants h).0
unfolding alloc count
alloc-Holds grants base held h e = λ i. ground (arith, e i)

pub dealloc-Holds :
    (base held : ℕ → ℕ) (b : ℕ) (h : Heap)
    → Holds base (λ i. one b i + held i) h
    → Returns (dealloc h b) (Holds base held)
unfolding dealloc
dealloc-Holds base held b h e =
    let there : has b h.live ≡ true = has-count b h.live (ground (arith, e b)) in
    (
      record h { live = remove b h.live },
      rw there refl,
      λ i. omega (arith, e i, count-remove i b h.live there),
    )

dealloc_any-Holds :
    (base held : ℕ → ℕ) (b : Option ℕ) (h : Heap)
    → Holds base (λ i. any b i + held i) h
    → Returns (dealloc_any h b) (Holds base held)
unfolding dealloc_any
dealloc_any-Holds base held none h e = (h, refl, λ i. omega (arith, e i))
dealloc_any-Holds base held (some b) h e = dealloc-Holds base held b h e

pub dealloc_all-Holds :
    (base held : ℕ → ℕ) (bs : List ℕ) (h : Heap)
    → Holds base (λ i. count i bs + held i) h
    → Returns (dealloc_all h bs) (Holds base held)
unfolding dealloc_all count
dealloc_all-Holds base held [] h e = (h, refl, λ i. omega (arith, e i))
dealloc_all-Holds base held (b ∷ bs) h e =
    let (h1, run, e1) =
      dealloc-Holds base (λ i. count i bs + held i) b h (λ i. omega (arith, e i)) in
    let (h2, run', e2) = dealloc_all-Holds base held bs h1 e1 in (h2, rw run run', e2)

abbrev pub in_key_next : Option (ℕ × List ℕ) → ℕ → ℕ
in_key_next none i = 0
in_key_next (some (y, cells)) i = count i cells + one y i

abbrev pub in_chunk : Chunk → ℕ → ℕ
in_chunk c i = one c.slots i + in_key_next c.key_next i

abbrev pub in_chunks : List Chunk → ℕ → ℕ
in_chunks [] i = 0
in_chunks (c ∷ cs) i = in_chunk c i + in_chunks cs i

abbrev pub in_keys : List (Option ℕ × Option ℕ) → ℕ → ℕ
in_keys [] i = 0
in_keys ((head, locks) ∷ ks) i = any head i + any locks i + in_keys ks i

-- The blocks of a share.
abbrev pub in_share : Blocks → ℕ → ℕ
in_share b i = in_chunks b.chunk_list i + any b.chunks i + in_keys b.keys i + any b.keydef i

pub in_chunks-append :
    (cs : List Chunk) (c : Chunk) (i : ℕ)
    → in_chunks (cs ++ c ∷ []) i ≡ in_chunks cs i + in_chunk c i
in_chunks-append [] c i = omega arith
in_chunks-append (x ∷ cs) c i = omega (arith, in_chunks-append cs c i)

free_chunk-Holds :
    (base held : ℕ → ℕ) (x : ℕ) (kn : Option (ℕ × List ℕ)) (h : Heap)
    → Holds base (λ i. one x i + in_key_next kn i + held i) h
    → Returns (free_chunk h (record { slots = x; key_next = kn })) (Holds base held)
unfolding free_chunk
free_chunk-Holds base held x none h e =
    let (h1, run, e1) = dealloc-Holds base held x h (λ i. omega (arith, e i)) in
    (h1, rw run refl, e1)
free_chunk-Holds base held x (some (y, cells)) h e =
    let (h1, run1, e1) =
      dealloc-Holds base (λ i. count i cells + (one y i + held i)) x h (λ i. omega (arith, e i)) in
    let (h2, run2, e2) = dealloc_all-Holds base (λ i. one y i + held i) cells h1 e1 in
    let (h3, run3, e3) = dealloc-Holds base held y h2 e2 in (h3, rw run1 (rw run2 run3), e3)

free_chunks-Holds :
    (base held : ℕ → ℕ) (cs : List Chunk) (h : Heap)
    → Holds base (λ i. in_chunks cs i + held i) h
    → Returns (free_chunks h cs) (Holds base held)
unfolding free_chunks
free_chunks-Holds base held [] h e = (h, refl, λ i. omega (arith, e i))
free_chunks-Holds base held (c ∷ cs) h e =
    let (h1, run, e1) =
      free_chunk-Holds base (λ i. in_chunks cs i + held i) c.slots c.key_next h
        (λ i. omega (arith, e i)) in
    let (h2, run', e2) = free_chunks-Holds base held cs h1 e1 in (h2, rw run run', e2)

free_keys-Holds :
    (base held : ℕ → ℕ) (ks : List (Option ℕ × Option ℕ)) (h : Heap)
    → Holds base (λ i. in_keys ks i + held i) h
    → Returns (free_keys h ks) (Holds base held)
unfolding free_keys
free_keys-Holds base held [] h e = (h, refl, λ i. omega (arith, e i))
free_keys-Holds base held ((head, locks) ∷ ks) h e =
    let (h1, run1, e1) =
      dealloc_any-Holds base (λ i. any locks i + (in_keys ks i + held i)) head h
        (λ i. omega (arith, e i)) in
    let (h2, run2, e2) = dealloc_any-Holds base (λ i. in_keys ks i + held i) locks h1 e1 in
    let (h3, run3, e3) = free_keys-Holds base held ks h2 e2 in (h3, rw run1 (rw run2 run3), e3)

-- A share that has its key array, or no keys.
abbrev pub HasKeys : ℕ → Blocks → Type 0
HasKeys keys b = (keys ≡ 0) ⊎ (b.keydef ≢ none)

abbrev pub nothing : ℕ → ℕ
nothing i = 0

pub free_share-Holds :
    (keys : ℕ) (base : ℕ → ℕ) (h : Heap) (chunks : Option ℕ) (cs : List Chunk) (keydef : Option ℕ)
    (ks : List (Option ℕ × Option ℕ))
    → Holds base
        (in_share (record { chunks = chunks; chunk_list = cs; keydef = keydef; keys = ks }))
        h
    → HasKeys keys (record { chunks = chunks; chunk_list = cs; keydef = keydef; keys = ks })
    → ((keydef ≡ none) → ks ≡ [])
    → Returns
        (free_share keys h
          (record { chunks = chunks; chunk_list = cs; keydef = keydef; keys = ks }))
        (Holds base nothing)
unfolding free_share dealloc_any
free_share-Holds keys base h chunks cs none ks e (inr ne) empty = absurd (ne refl)
free_share-Holds keys base h chunks cs none ks e (inl z) empty =
    let no_keys : (i : ℕ) → in_keys ks i ≡ 0 = λ i. ap (λ l. in_keys l i) (empty refl) in
    let (h1, run1, e1) =
      free_chunks-Holds base (any chunks) cs h (λ i. omega (arith, e i, no_keys i)) in
    let (h2, run2, e2) = dealloc_any-Holds base nothing chunks h1 (λ i. omega (arith, e1 i)) in
    (h2, rw run1 (rw run2 (rw z refl)), e2)
free_share-Holds keys base h chunks cs (some y) ks e has_keys empty =
    let (h1, run1, e1) =
      free_chunks-Holds base (λ i. any chunks i + (in_keys ks i + one y i)) cs h
        (λ i. omega (arith, e i)) in
    let (h2, run2, e2) = dealloc_any-Holds base (λ i. in_keys ks i + one y i) chunks h1 e1 in
    let (h3, run3, e3) = free_keys-Holds base (one y) ks h2 e2 in
    let (h4, run4, e4) = dealloc-Holds base nothing y h3 (λ i. omega (arith, e3 i)) in
    (h4, rw run1 (rw run2 (rw run3 run4)), e4)
