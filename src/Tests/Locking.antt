-- ===== src/Tests/Locking.antt =====
-- Threads with locks: a key change under the row lock, an insert and lookups, and a clear.
use fastmem_mariadb.Prelude.{
  ℕ, suc, ◌+◌, ◌≤◌, ◌<◌, ◌≡◌, ◌≢◌, ◌==◌, if◌then◌else◌, List, [], ◌∷◌, arith,
}
use fastmem_mariadb.Core.{init_share, u32_mod}
use fastmem_mariadb.Core.Locking.{
  Part, alone, under_row, lookup, insert, linked, update_held, System, init, Step, Reach, start,
}
use fastmem_mariadb.Core.Locking.Progress.{NoClear}
use fastmem_mariadb.Core.Locking.Finish.{Runs, Reach-finishes}
use fastmem_mariadb.Core.Locking.Stuck.{delete_and_clear, clear_may_deadlock}
use fastmem_mariadb.Tests.Table.{s0, rec_a, rec_b}

abbrev two_threads : ℕ → List Part
two_threads i =
    if i == 0
    then under_row 0 (update_held rec_a rec_b ∷ []) ∷ []
    else if i == 1
    then alone (lookup 0 rec_a ∷ insert rec_b linked ∷ []) ∷ []
    else []

two_threads-NoClear : NoClear 2 two_threads
two_threads-NoClear i = (ground arith, λ le. ground arith)

buckets_s0 : (k : ℕ) → 0 < (s0.keydef k).nbuckets
unfolding init_share
buckets_s0 k = omega arith

narrow_s0 : (k : ℕ) → (s0.keydef k).nbuckets ≤ u32_mod
unfolding init_share
narrow_s0 k = omega arith

Reach-finishes_example :
    (u : System) × Runs (init s0 two_threads) u × ((i : ℕ) → (u.thread i).todo ≡ [])
Reach-finishes_example =
    Reach-finishes s0 2 two_threads buckets_s0 narrow_s0 two_threads-NoClear (init s0 two_threads)
      start

clear_may_deadlock_example :
    (v : System) × Reach s0 (delete_and_clear 1 rec_a (1 + suc 2)) v
    × ((v.thread 0).todo ≢ [])
    × ((v.thread 1).todo ≢ [])
    × ((t : System) → Step v t → ⊥)
clear_may_deadlock_example = clear_may_deadlock s0 1 2 rec_a
