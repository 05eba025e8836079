-- ===== src/Core/Chain/Laws.antt =====
-- What walking, unlinking and linking do to a chain that runs through a known list of slots.
use mathlib.Core.Path.{subst}
use fastmem_mariadb.Prelude.{
  ℕ, zero, suc, ◌<◌, true, false, Option, none, some, List, [], ◌∷◌, Run, Returns, done, ◌==◌,
  if◌then◌else◌, has, Distinct, remove, length, ◌≡◌, refl, inl, inr, Bool-cases, arith, ◌>>=◌, ◌∙◌,
}
use fastmem_mariadb.Core.{Status, err_ok, err_not_found}
use fastmem_mariadb.Core.Chain.{
  Cells, Link, to_first, to_next, read_link, write_link, unlink_loop, walk, first_of_list, Linked,
  same_link, is_off,
}

pub Linked-frame :
    (f g : ℕ → Option ℕ) (h : Option ℕ) (xs : List ℕ)
    → Linked f h xs
    → ((j : ℕ) → has j xs ≡ true → g j ≡ f j)
    → Linked g h xs
Linked-frame f g h [] l same = l
Linked-frame f g h (x ∷ xs) (e, l) same = (
  e,
  Linked-frame f g (g x) xs (let p : g x ≡ f x = same x (ground arith) in rw p l)
      (λ j m. same j (ground arith)),
)

-- With a round for each slot and one more, a walk visits exactly the slots of the chain.
pub walk-first_of_list {ℓ} :
    {A : Type ℓ} (f : ℕ) (next : ℕ → Option ℕ) (visit : ℕ → Run (Option A)) (h : Option ℕ)
    (xs : List ℕ)
    → Linked next h xs
    → length xs < f
    → walk f next visit h ≡ first_of_list visit xs
unfolding walk first_of_list
walk-first_of_list zero next visit h xs l fuel = absurd (omega arith)
walk-first_of_list (suc f) next visit h [] l fuel = rw l
walk-first_of_list (suc f) next visit h (x ∷ xs) (e, l) fuel =
    let ih = walk-first_of_list f next visit (next x) xs l (omega arith) in
    rw (e, walk) (λ i. visit x >>= elim [ some a ↦ done (some a) | none ↦ ih i ])

-- `r` is what is left of the cells `c` when `idx` is taken out of the chain `xs` behind `link`.
pub record Unlinked (c : Cells) (link : Link) (idx : ℕ) (xs : List ℕ) (r : Cells × Status)
    : Type 0 where
  pub chain : Linked r.0.next (read_link r.0 link) (remove idx xs)
  pub status : r.1 ≡ (if has idx xs then err_ok else err_not_found)
  pub frame :
      (m : Link) → same_link m link ≡ false → is_off m xs ≡ true → read_link r.0 m ≡ read_link c m

read-write_self : (c : Cells) (l : Link) (v : Option ℕ) → read_link (write_link c l v) l ≡ v
unfolding write_link
read-write_self c to_first v = refl
read-write_self c (to_next j) v = ground arith

read-write_ne :
    (c : Cells) (l m : Link) (v : Option ℕ)
    → same_link m l ≡ false
    → read_link (write_link c l v) m ≡ read_link c m
unfolding write_link
read-write_ne c to_first to_first v e = cc
read-write_ne c to_first (to_next i) v e = refl
read-write_ne c (to_next j) to_first v e = refl
read-write_ne c (to_next j) (to_next i) v e = ground arith

next-write_off :
    (c : Cells) (l : Link) (v : Option ℕ) (xs : List ℕ) (j : ℕ)
    → is_off l xs ≡ true
    → has j xs ≡ true
    → (write_link c l v).next j ≡ c.next j
unfolding write_link
next-write_off c to_first v xs j off m = refl
next-write_off c (to_next i) v xs j off m = ground arith

same_link_of_off :
    (m : Link) (x : ℕ) (xs : List ℕ)
    → is_off m (x ∷ xs) ≡ true
    → (same_link m (to_next x) ≡ false) × (is_off m xs ≡ true)
same_link_of_off to_first x xs off = (refl, refl)
same_link_of_off (to_next j) x xs off = ground arith

pub unlink_loop-Unlinked :
    (f : ℕ) (c : Cells) (link : Link) (idx : ℕ) (xs : List ℕ)
    → Linked c.next (read_link c link) xs
    → Distinct xs
    → is_off link xs ≡ true
    → length xs < f
    → Returns (unlink_loop f c link idx) (Unlinked c link idx xs)
unfolding unlink_loop
unlink_loop-Unlinked zero c link idx xs l d off fuel = absurd (omega arith)
unlink_loop-Unlinked (suc f) c link idx [] l d off fuel = (
  (c, err_not_found),
  rw (l, unlink_loop),
  record { chain = l; status = refl; frame = λ m n o. refl },
)
unlink_loop-Unlinked (suc f) c link idx (x ∷ xs) (e, l) d off fuel = elim (Bool-cases (x == idx)) [
  | inl hit ↦
      let c' = write_link c link (c.next idx) in
      let p : x ≡ idx = ground arith in
      let keep =
        Linked-frame c.next c'.next (c.next x) xs l
          (λ j m. next-write_off c link (c.next idx) xs j (same_link_of_off link x xs off).1 m) in
      (
        (c', err_ok),
        rw (e, unlink_loop, hit),
        record {
          chain =
              rw (hit, read-write_self c link (c.next idx))
                (subst (λ k. Linked c'.next (c.next k) xs) p keep);
          status = ground arith;
          frame = λ m n o. read-write_ne c link m (c.next idx) n;
        },
      )
  | inr miss ↦
      let (r, run, u) =
        unlink_loop-Unlinked f c (to_next x) idx xs l d.1 (ground arith) (omega arith) in
      let off' = same_link_of_off link x xs off in
      (
        r,
        rw (e, unlink_loop, miss) run,
        record {
          chain = rw miss (u.frame link off'.0 off'.1 ∙ e, u.chain);
          status = rw (u.status) (ground arith);
          frame = λ m n o. let o' = same_link_of_off m x xs o in u.frame m o'.0 o'.1;
        },
      )
]
