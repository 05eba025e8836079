-- ===== src/Tests/AutoInc.antt =====
-- Two threads on the auto-increment counter: both load it, one reserves three values, and the other
-- starts again.
use fastmem_mariadb.Prelude.{◌<◌, ◌≡◌, refl, some, [], ◌∷◌, arith}
use fastmem_mariadb.Core.{u64_mod}
use fastmem_mariadb.Core.AutoInc.{reserve_round, aligned_first, align_up, sub64}
use fastmem_mariadb.Core.AutoInc.Threads.{
  granted, System, start_reserve, load, swapped, retried, pick, Reach, start, later,
}
use fastmem_mariadb.Core.AutoInc.Threads.Apart.{NoneTwice, Reach-NoneTwice}

round_at_0 : reserve_round 0 1 2 3 ≡ some (1, 5)
unfolding reserve_round aligned_first align_up sub64
round_at_0 = refl

round_at_5 : reserve_round 5 1 2 1 ≡ some (7, 7)
unfolding reserve_round aligned_first align_up sub64
round_at_5 = refl

is_small_1 : 1 < u64_mod
is_small_1 = omega arith

is_small_2 : 2 < u64_mod
is_small_2 = omega arith

is_small_3 : 3 < u64_mod
is_small_3 = omega arith

raced : (s : System) × Reach 0 s × (s.events ≡ granted 7 7 2 1 ∷ granted 1 5 2 3 ∷ [])
unfolding reserve_round aligned_first align_up sub64
raced =
    let a1 = later start (pick 0 (start_reserve 1 2 3 is_small_1 is_small_2 is_small_3)) in
    let b1 = later a1 (pick 1 (start_reserve 1 2 1 is_small_1 is_small_2 is_small_1)) in
    let a2 = later b1 (pick 0 (load 0 refl)) in
    let b2 = later a2 (pick 1 (load 0 refl)) in
    let a3 = later b2 (pick 0 (swapped round_at_0 refl)) in
    let b3 = later a3 (pick 1 (retried {first = 1} {last = 1} refl)) in
    let b4 = later b3 (pick 1 (load 5 refl)) in
    let b5 = later b4 (pick 1 (swapped round_at_5 refl)) in (_, b5, refl)

Reach-NoneTwice_example : NoneTwice raced.0.events
Reach-NoneTwice_example = Reach-NoneTwice (omega arith) raced.1
