-- ===== src/Tests/Blocks.antt =====
-- The blocks of a share with one key, where the seventh request is refused.
use fastmem_mariadb.Prelude.{ℕ, ◌≡◌, Bool, not, ◌==◌, inr, [], ◌∷◌, Returns, arith}
use fastmem_mariadb.Core.Blocks.{Heap, init_blocks, alloc, alloc_keys}
use fastmem_mariadb.Core.Blocks.Frees.{count, HasKeys}
use fastmem_mariadb.Core.Blocks.Balance.{GrowsWith, lifetime, lifetime_balanced}

abbrev all_but_six : ℕ → Bool
all_but_six n = not (n == 6)

abbrev some_use : Heap
some_use = record { live = 100 ∷ []; next = 0 }

keyed : HasKeys 1 (init_blocks all_but_six 1 some_use).1
unfolding init_blocks alloc alloc_keys
keyed = inr (λ e. ground arith)

growing : GrowsWith 2 (init_blocks all_but_six 1 some_use).1
unfolding init_blocks alloc alloc_keys
growing = inr (λ e. ground arith)

lifetime_balanced_example :
    Returns
      (lifetime all_but_six 1 2 some_use)
      (λ h. (i : ℕ) → count i h.live ≡ count i some_use.live)
lifetime_balanced_example = lifetime_balanced all_but_six 1 2 some_use keyed growing
