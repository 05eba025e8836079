-- ===== src/Registry/Dropped.antt =====
-- What becomes of a table that is dropped while it is open.
use fastmem_mariadb.Prelude.{
  ℕ, ◌-◌, ◌<◌, ◌≡◌, refl, sym, ap, ◌∙◌, true, not, ◌&&◌, none, some, List, [], ◌∷◌, ◌==◌,
  if◌then◌else◌, Option-cases, inl, inr, ==→eq, ==_refl, length, has, Distinct, remove, has-remove,
  remove-Distinct, arith,
}
use fastmem_mariadb.Registry.{Entry, File, Registry, put, free}
use fastmem_mariadb.Registry.Handles.{try_free, drop_table, close}
use fastmem_mariadb.Registry.Wf.{RegWf, uses, length-remove-has}
use fastmem_mariadb.Registry.History.{close-RegWf, drop_table-RegWf}
use fastmem_mariadb.Registry.Reach.{Reach, Reach-RegWf, open_handle_live}

pub same_length :
    (xs ys : List ℕ)
    → Distinct xs
    → Distinct ys
    → ((i : ℕ) → has i xs ≡ has i ys)
    → length xs ≡ length ys
same_length [] [] dx dy same = refl
same_length [] (y ∷ ys) dx dy same = absurd (ground (arith, same y, ==_refl y))
same_length (x ∷ xs) ys dx dy same =
    let mine : has x ys ≡ true = ground (arith, same x, ==_refl x) in
    omega (
      arith,
      length-remove-has x ys mine,
      same_length xs (remove x ys) (ground arith) (remove-Distinct x ys dy)
          (λ i. ground (arith, same i, has-remove i x ys dy, ==→eq i x)),
    )

unfoldable pub close_all : Registry → List ℕ → Registry
close_all r [] = r
close_all r (f ∷ fs) = close_all (close r f) fs

module _ {r : Registry} {pins : ℕ → ℕ} (w : RegWf r pins) (a f : ℕ) (e : Entry) (file : File)
    (here : r.shares a ≡ some e) (open_f : r.files f ≡ some file) (at_a : file.share ≡ a)
    (dropped : e.delete_on_close ≡ true) where
  close-last : e.open_count ≡ 1 → (close r f).shares a ≡ none
  unfolding close free
  close-last one = ground (arith, here, open_f, at_a, dropped, one)

  close-more :
      1 < e.open_count
      → (e' : Entry) × ((close r f).shares a ≡ some e') × (e'.delete_on_close ≡ true)
  unfolding close
  close-more many = (
    record e {
      open_list = if file.open_listed then remove f e.open_list else e.open_list;
      open_count = e.open_count - 1;
    },
    ground (arith, here, open_f, at_a, dropped, many),
    dropped,
  )

  close-uses : (i : ℕ) → uses (close r f) a i ≡ (not (i == f) && uses r a i)
  unfolding close free
  close-uses i = ground (arith, here, open_f, at_a, dropped, ==→eq i f)

uses-open :
    (r : Registry) (a f : ℕ)
    → uses r a f ≡ true
    → (file : File) × (r.files f ≡ some file) × (file.share ≡ a)
uses-open r a f used = elim (Option-cases (r.files f)) [
  | inl gone ↦ absurd (ground (arith, gone))
  | inr (file, open_f) ↦ (file, open_f, ==→eq file.share a (ground (arith, open_f)))
]

counted-open :
    {r : Registry} {pins : ℕ → ℕ}
    → RegWf r pins
    → (a : ℕ) (fs : List ℕ) (e : Entry) → r.shares a ≡ some e
    → pins a ≡ 0
    → Distinct fs
    → ((i : ℕ) → has i fs ≡ uses r a i)
    → e.open_count ≡ length fs
counted-open w a fs e here unpinned distinct all_of =
    let users =
      same_length fs (w.users a) distinct (w.distinct a) (λ i. all_of i ∙ sym (w.members a i)) in
    omega (arith, w.counted a e here, users)

-- All the open handles of a share that is to be deleted are closed, in any order.
pub close_all-freed :
    (f : ℕ) (fs : List ℕ) (r : Registry) {pins : ℕ → ℕ}
    → RegWf r pins
    → (a : ℕ) (e : Entry) → r.shares a ≡ some e
    → e.delete_on_close ≡ true
    → pins a ≡ 0
    → Distinct (f ∷ fs)
    → ((i : ℕ) → has i (f ∷ fs) ≡ uses r a i)
    → (close_all r (f ∷ fs)).shares a ≡ none
unfolding close_all
close_all-freed f [] r w a e here dropped unpinned distinct all_of =
    let (file, open_f, at_a) = uses-open r a f (ground (arith, sym (all_of f), ==_refl f)) in
    let count = counted-open w a (f ∷ []) e here unpinned distinct all_of in
    close-last w a f e file here open_f at_a dropped count
close_all-freed f (g ∷ gs) r w a e here dropped unpinned distinct all_of =
    let (file, open_f, at_a) = uses-open r a f (ground (arith, sym (all_of f), ==_refl f)) in
    let count = counted-open w a (f ∷ g ∷ gs) e here unpinned distinct all_of in
    let (e', here', dropped') = close-more w a f e file here open_f at_a dropped (omega arith) in
    close_all-freed g gs (close r f) (close-RegWf w f) a e' here' dropped' unpinned (ground arith)
      (λ i. ground (arith, all_of i, close-uses w a f e file here open_f at_a dropped i, ==→eq i f))

-- Where a table is dropped through an open handle and then its open handles are closed, in any order, the
-- share is freed at the end. No caller of `fm_create` holds a pin on it.
pub drop_table-close_all :
    {r : Registry} {pins : ℕ → ℕ}
    → Reach r pins
    → (f : ℕ) (file : File) (fs : List ℕ) → r.files f ≡ some file
    → pins file.share ≡ 0
    → Distinct (f ∷ fs)
    → ((i : ℕ) → has i (f ∷ fs) ≡ uses r file.share i)
    → (close_all (drop_table r f) (f ∷ fs)).shares file.share ≡ none
unfolding drop_table try_free
drop_table-close_all {r} h f file fs open_f unpinned distinct all_of =
    let (e, here, pos) = open_handle_live h f file open_f in
    let e' : Entry = record e { delete_on_close = true } in
    let dropped : drop_table r f ≡ put r file.share e' = ground (arith, open_f, here) in
    close_all-freed f fs (drop_table r f) (drop_table-RegWf (Reach-RegWf h) f) file.share e'
      (ground (arith, dropped, ==_refl file.share)) refl unpinned distinct
      (λ i. all_of i ∙ ap (λ x. uses x file.share i) (sym dropped))
