-- ===== src/Core/Blocks/Balance.antt =====
-- A share gives back the blocks that it was granted, and no other.
use fastmem_mariadb.Prelude.{
  ℕ, zero, suc, ◌+◌, ◌≡◌, ◌≢◌, ◌⊎◌, refl, sym, ◌∙◌, Bool, true, false, Option, none, some, List, [],
  Run, Returns, ◌>>=◌, inl, inr, Option-cases, arith,
}
use fastmem_mariadb.Core.Blocks.{
  Heap, alloc, Blocks, alloc_keys, init_behind, init_blocks, cell_behind, alloc_cells, grow_keyed,
  grow_behind, grow_blocks, grow_times, free_share,
}
use fastmem_mariadb.Core.Blocks.Frees.{
  count, Holds, one, any, alloc-Holds, dealloc-Holds, dealloc_all-Holds, in_keys, in_share,
  in_chunks-append, HasKeys, nothing, free_share-Holds,
}

alloc_keys-Holds :
    (grants : ℕ → Bool) (base held : ℕ → ℕ) (n : ℕ) (h : Heap)
    → Holds base held h
    → Holds base (λ i. in_keys (alloc_keys grants n h).1 i + held i) (alloc_keys grants n h).0
unfolding alloc_keys
alloc_keys-Holds grants base held zero h e = λ i. omega (arith, e i)
alloc_keys-Holds grants base held (suc n) h e =
    let (h1, head) = alloc grants h in
    let (h2, locks) = alloc grants h1 in
    let e1 = alloc-Holds grants base held h e in
    let e2 = alloc-Holds grants base (λ i. any head i + held i) h1 e1 in
    let e3 = alloc_keys-Holds grants base (λ i. any locks i + (any head i + held i)) n h2 e2 in
    λ i. omega (arith, e3 i)

cell_behind-Holds :
    (base held : ℕ → ℕ) (c : Option ℕ) (h1 : Heap) (rest : Heap × List ℕ × Bool)
    → Holds base (λ i. any c i + held i) h1
    → Holds base (λ i. count i rest.1 + (any c i + held i)) rest.0
    → Holds base (λ i. count i (cell_behind c h1 rest).1 + held i) (cell_behind c h1 rest).0
unfolding count
cell_behind-Holds base held none h1 rest e e' = λ i. omega (arith, e i)
cell_behind-Holds base held (some x) h1 (h2, cs, all) e e' = λ i. omega (arith, e' i)

alloc_cells-Holds :
    (grants : ℕ → Bool) (base held : ℕ → ℕ) (n : ℕ) (h : Heap)
    → Holds base held h
    → Holds base (λ i. count i (alloc_cells grants n h).1 + held i) (alloc_cells grants n h).0
unfolding alloc_cells count
alloc_cells-Holds grants base held zero h e = λ i. omega (arith, e i)
alloc_cells-Holds grants base held (suc n) h e =
    let (h1, c) = alloc grants h in
    let e1 = alloc-Holds grants base held h e in
    cell_behind-Holds base held c h1 (alloc_cells grants n h1) e1
      (alloc_cells-Holds grants base (λ i. any c i + held i) n h1 e1)

init_behind-Holds :
    (base : ℕ → ℕ) (keys : ℕ) (c : Option ℕ) (h1 : Heap) (kd : Option ℕ) (h2 : Heap)
    (rest : Heap × List (Option ℕ × Option ℕ))
    → Holds base (λ i. any c i + nothing i) h1
    → Holds base (λ i. any kd i + (any c i + nothing i)) h2
    → Holds base (λ i. in_keys rest.1 i + (any kd i + (any c i + nothing i))) rest.0
    → (let r = init_behind keys c h1 kd h2 rest in Holds base (in_share r.1) r.0)
init_behind-Holds base keys none h1 kd h2 (h3, ks) e1 e2 e3 = λ i. omega (arith, e1 i)
init_behind-Holds base zero (some x) h1 kd h2 (h3, ks) e1 e2 e3 = λ i. omega (arith, e1 i)
init_behind-Holds base (suc n) (some x) h1 none h2 (h3, ks) e1 e2 e3 = λ i. omega (arith, e2 i)
init_behind-Holds base (suc n) (some x) h1 (some y) h2 (h3, ks) e1 e2 e3 = λ i. omega (arith, e3 i)

init_blocks-Holds :
    (grants : ℕ → Bool) (base : ℕ → ℕ) (keys : ℕ) (h : Heap)
    → Holds base nothing h
    → Holds base (in_share (init_blocks grants keys h).1) (init_blocks grants keys h).0
unfolding init_blocks
init_blocks-Holds grants base keys h e =
    let (h1, c) = alloc grants h in
    let (h2, kd) = alloc grants h1 in
    let e1 = alloc-Holds grants base nothing h e in
    let e2 = alloc-Holds grants base (λ i. any c i + nothing i) h1 e1 in
    let e3 = alloc_keys-Holds grants base (λ i. any kd i + (any c i + nothing i)) keys h2 e2 in
    init_behind-Holds base keys c h1 kd h2 (alloc_keys grants keys h2) e1 e2 e3

-- A growth changes the list of chunks at most, and what is held is what the share has.
abbrev Grown : (ℕ → ℕ) → Blocks → Heap × Blocks → Type 0
Grown base b (h', b') =
    Holds base (in_share b') h'
    × (b'.chunks ≡ b.chunks)
    × (b'.keydef ≡ b.keydef)
    × (b'.keys ≡ b.keys)

grow_keyed-Holds :
    (base : ℕ → ℕ) (b : Blocks) (x y : ℕ) (h3 : Heap) (cells : List ℕ) (all : Bool)
    → Holds base (λ i. count i cells + (one y i + (one x i + in_share b i))) h3
    → Returns (grow_keyed b x y (h3, cells, all)) (Grown base b)
unfolding grow_keyed
grow_keyed-Holds base b x y h3 cells true e = (
  _,
  refl,
  (
    λ i. omega (
      arith,
      e i,
      in_chunks-append b.chunk_list (record { slots = x; key_next = some (y, cells) }) i,
    ),
    refl,
    refl,
    refl,
  ),
)
grow_keyed-Holds base b x y h3 cells false e =
    let (a, run1, e1) =
      dealloc_all-Holds base (λ i. one y i + (one x i + in_share b i)) cells h3 e in
    let (a', run2, e2) = dealloc-Holds base (λ i. one x i + in_share b i) y a e1 in
    let (a'', run3, e3) = dealloc-Holds base (in_share b) x a' e2 in
    ((a'', b), rw run1 (rw run2 (rw run3 refl)), (e3, refl, refl, refl))

grow_behind-Holds :
    (base : ℕ → ℕ) (keys : ℕ) (b : Blocks) (s : Option ℕ) (h1 : Heap) (kn : Option ℕ) (h2 : Heap)
    (rest : Heap × List ℕ × Bool)
    → Holds base (λ i. any s i + in_share b i) h1
    → Holds base (λ i. any kn i + (any s i + in_share b i)) h2
    → Holds base (λ i. count i rest.1 + (any kn i + (any s i + in_share b i))) rest.0
    → Returns (grow_behind keys b s h1 kn h2 rest) (Grown base b)
unfolding grow_behind
grow_behind-Holds base keys b none h1 kn h2 rest e1 e2 e3 =
    (_, refl, (λ i. omega (arith, e1 i), refl, refl, refl))
grow_behind-Holds base zero b (some x) h1 kn h2 rest e1 e2 e3 = (
  _,
  refl,
  (
    λ i.
        omega
          (arith, e1 i, in_chunks-append b.chunk_list (record { slots = x; key_next = none }) i),
    refl,
    refl,
    refl,
  ),
)
grow_behind-Holds base (suc n) b (some x) h1 none h2 rest e1 e2 e3 =
    let (h', run, e') = dealloc-Holds base (in_share b) x h2 (λ i. omega (arith, e2 i)) in
    ((h', b), rw run refl, (e', refl, refl, refl))
grow_behind-Holds base (suc n) b (some x) h1 (some y) h2 (h3, cells, all) e1 e2 e3 =
    grow_keyed-Holds base b x y h3 cells all e3

grow_blocks-Holds :
    (grants : ℕ → Bool) (base : ℕ → ℕ) (keys : ℕ) (h : Heap) (b : Blocks)
    → b.chunks ≢ none
    → Holds base (in_share b) h
    → Returns (grow_blocks grants keys h b) (Grown base b)
unfolding grow_blocks
grow_blocks-Holds grants base keys h b has_chunks e =
    let (h1, s) = alloc grants h in
    let (h2, kn) = alloc grants h1 in
    let e1 = alloc-Holds grants base (in_share b) h e in
    let e2 = alloc-Holds grants base (λ i. any s i + in_share b i) h1 e1 in
    let e3 = alloc_cells-Holds grants base (λ i. any kn i + (any s i + in_share b i)) keys h2 e2 in
    elim (Option-cases b.chunks) [
      | inl refused ↦ absurd (has_chunks refused)
      | inr (c, granted) ↦
          let (r, run, g) =
            grow_behind-Holds base keys b s h1 kn h2 (alloc_cells grants keys h2) e1 e2 e3 in
          (r, rw (granted, grow_blocks) run, g)
    ]

-- `n` growths of a share that has its chunk array, or none.
abbrev pub GrowsWith : ℕ → Blocks → Type 0
GrowsWith n b = (n ≡ 0) ⊎ (b.chunks ≢ none)

grow_times-Holds :
    (n : ℕ) (grants : ℕ → Bool) (base : ℕ → ℕ) (keys : ℕ) (h : Heap) (b : Blocks)
    → GrowsWith n b
    → Holds base (in_share b) h
    → Returns (grow_times grants keys n h b) (Grown base b)
unfolding grow_times
grow_times-Holds zero grants base keys h b ok e = ((h, b), refl, (e, refl, refl, refl))
grow_times-Holds (suc n) grants base keys h b (inl z) e = absurd (omega (arith, z))
grow_times-Holds (suc n) grants base keys h b (inr has_chunks) e =
    let ((h1, b1), run, (e1, chunks, same, same')) =
      grow_blocks-Holds grants base keys h b has_chunks e in
    let (r, run', (e2, chunks', still, still')) =
      grow_times-Holds n grants base keys h1 b1 (inr (λ z. has_chunks (sym chunks ∙ z))) e1 in
    (r, rw run run', (e2, chunks' ∙ chunks, still ∙ same, still' ∙ same'))

init_behind-empty :
    (keys : ℕ) (c : Option ℕ) (h1 : Heap) (kd : Option ℕ) (h2 : Heap)
    (rest : Heap × List (Option ℕ × Option ℕ))
    → (init_behind keys c h1 kd h2 rest).1.keydef ≡ none
    → (init_behind keys c h1 kd h2 rest).1.keys ≡ []
init_behind-empty keys none h1 kd h2 (h3, ks) e = refl
init_behind-empty zero (some x) h1 kd h2 (h3, ks) e = refl
init_behind-empty (suc n) (some x) h1 none h2 (h3, ks) e = refl
init_behind-empty (suc n) (some x) h1 (some y) h2 (h3, ks) e = absurd (ground (arith, e))

init_blocks-empty :
    (grants : ℕ → Bool) (keys : ℕ) (h : Heap)
    → (init_blocks grants keys h).1.keydef ≡ none
    → (init_blocks grants keys h).1.keys ≡ []
unfolding init_blocks
init_blocks-empty grants keys h =
    let (h1, c) = alloc grants h in
    let (h2, kd) = alloc grants h1 in init_behind-empty keys c h1 kd h2 (alloc_keys grants keys h2)

-- A share from its start to its end, with `n` growths between.
unfoldable pub lifetime : (ℕ → Bool) → ℕ → ℕ → Heap → Run Heap
lifetime grants keys n h = do
  let (h0, b0) = init_blocks grants keys h
  (h', b) ← grow_times grants keys n h0 b0
  free_share keys h' b

-- Where a share that is set up has its chunk array or is not grown, and has its key array or no keys, then to set it
-- up, grow it any number of times and free it ends, never gives back a block that is not in use, and leaves
-- exactly the blocks in use that were in use before, each as often, whichever other requests the allocator
-- refuses.
pub lifetime_balanced :
    (grants : ℕ → Bool) (keys n : ℕ) (h : Heap)
    → HasKeys keys (init_blocks grants keys h).1
    → GrowsWith n (init_blocks grants keys h).1
    → Returns (lifetime grants keys n h) (λ h'. (i : ℕ) → count i h'.live ≡ count i h.live)
unfolding lifetime
lifetime_balanced grants keys n h has_keys grows =
    let base : ℕ → ℕ = λ i. count i h.live in
    let (h0, b0) = init_blocks grants keys h in
    let e0 = init_blocks-Holds grants base keys h (λ i. omega arith) in
    let ((h1, b), run, (e1, _, same, same')) = grow_times-Holds n grants base keys h0 b0 grows e0 in
    let kept : HasKeys keys b = elim has_keys [
      | inl z ↦ inl z
      | inr ne ↦ inr (λ e. ne (sym same ∙ e))
    ] in
    let (h2, run', e2) =
      free_share-Holds keys base h1 b.chunks b.chunk_list b.keydef b.keys e1 kept
        (λ e. same' ∙ init_blocks-empty grants keys h (sym same ∙ e)) in
    (h2, rw run run', λ i. omega (arith, e2 i))
