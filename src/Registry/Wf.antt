-- ===== src/Registry/Wf.antt =====
-- When the registry is well formed, and what the changes of one share do to that.
use mathlib.Core.Path.{subst}
use fastmem_mariadb.Prelude.{
  ℕ, suc, ◌+◌, ◌≡◌, refl, sym, ap, Bool, true, false, not, Option, none, some, List, [], ◌∷◌, ◌==◌,
  if◌then◌else◌, update, remove, has, Distinct, length, has-remove, remove-Distinct, Bool-cases,
  inl, inr, ==→eq, arith,
}
use fastmem_mariadb.Registry.{Entry, File, Registry, put, free}

abbrev pub is_live : Registry → ℕ → Bool
is_live r a = elim (r.shares a) [ none ↦ false | some e ↦ true ]

-- The share is registered where it is live.
abbrev pub is_named : Option Entry → Bool
is_named none = false
is_named (some e) = not e.internal

abbrev pub file_uses : Option File → ℕ → Bool
file_uses none a = false
file_uses (some f) a = f.share == a

-- Handle `i` is open on the share `a`.
abbrev pub uses : Registry → ℕ → ℕ → Bool
uses r a i = file_uses (r.files i) a

-- `pins a` callers of `fm_create` have a pin on the share `a` that they have not given back. The open
-- count of a share is the number of its open handles and its pins, so a share with either is live; the
-- list has exactly the live shares that are not internal.
pub record RegWf (r : Registry) (pins : ℕ → ℕ) : Type 0 where
  pub users : ℕ → List ℕ
  pub distinct : (a : ℕ) → Distinct (users a)
  pub members : (a i : ℕ) → has i (users a) ≡ uses r a i
  pub counted : (a : ℕ) (e : Entry) → r.shares a ≡ some e → e.open_count ≡ length (users a) + pins a
  pub unused : (a : ℕ) → is_live r a ≡ false → (users a ≡ []) × (pins a ≡ 0)
  pub listed : (a : ℕ) → has a r.share_list ≡ is_named (r.shares a)
  pub listed_once : Distinct r.share_list

pub length-remove-has :
    (a : ℕ) (xs : List ℕ) → has a xs ≡ true → length xs ≡ suc (length (remove a xs))
length-remove-has a [] h = cc
length-remove-has a (x ∷ xs) h = ground (arith, length-remove-has a xs)

nil_of_length : (xs : List ℕ) → length xs ≡ 0 → xs ≡ []
nil_of_length [] e = refl
nil_of_length (x ∷ xs) e = absurd (omega arith)

module _ {r : Registry} {pins : ℕ → ℕ} (w : RegWf r pins) (a : ℕ) (e : Entry)
    (here : r.shares a ≡ some e) where
  -- The entry changes, and with it the pins.
  pub put-RegWf :
      (e' : Entry) (pins' : ℕ → ℕ)
      → e'.internal ≡ e.internal
      → e'.open_count ≡ length (w.users a) + pins' a
      → ((b : ℕ) → (b == a) ≡ false → pins' b ≡ pins b)
      → RegWf (put r a e') pins'
  put-RegWf e' pins' same count other = record {
    users = w.users;
    distinct = w.distinct;
    members = w.members;
    counted = λ b x at_b. ground (arith, w.counted b x, other b, count);
    unused = λ b off. ground (arith, w.unused b, other b);
    listed = λ b. ground (arith, w.listed b);
    listed_once = w.listed_once;
  }

  -- A share that is not in use is freed.
  pub free-RegWf : e.open_count ≡ 0 → RegWf (free r a e) pins
  unfolding free
  free-RegWf zero_count = record {
    users = w.users;
    distinct = w.distinct;
    members = w.members;
    counted = λ b x at_b. ground (arith, w.counted b x);
    unused = λ b off. elim (Bool-cases (b == a)) [
      | inl eq ↦
          let none_left : (w.users a ≡ []) × (pins a ≡ 0) = (
            nil_of_length (w.users a) (omega (arith, w.counted a e here)),
            omega (arith, w.counted a e here),
          ) in
          subst (λ c. (w.users c ≡ []) × (pins c ≡ 0)) (sym (==→eq b a eq)) none_left
      | inr ne ↦ w.unused b (ground (arith, ne))
    ];
    listed = λ b. ground (arith, w.listed b, has-remove b a r.share_list w.listed_once, w.listed a);
    listed_once = ground (arith, remove-Distinct a r.share_list w.listed_once, w.listed_once);
  }

  -- A handle is opened at the free address `f`.
  pub opened-RegWf :
      (f : ℕ) (file : File) (e' : Entry) (pins' : ℕ → ℕ)
      → r.files f ≡ none
      → file.share ≡ a
      → e'.internal ≡ e.internal
      → e'.open_count ≡ length (w.users a) + 1 + pins' a
      → ((b : ℕ) → (b == a) ≡ false → pins' b ≡ pins b)
      → RegWf (record (put r a e') { files = update r.files f (some file) }) pins'
  opened-RegWf f file e' pins' fresh at_a same count other = record {
    users = λ b. if b == a then f ∷ w.users a else w.users b;
    distinct = λ b. ground (arith, w.distinct b, w.distinct a, w.members a f);
    members = λ b i. ground (arith, w.members b i, w.members a i);
    counted = λ b x at_b. ground (arith, w.counted b x, other b, count);
    unused = λ b off. ground (arith, w.unused b, other b);
    listed = λ b. ground (arith, w.listed b);
    listed_once = w.listed_once;
  }

  -- A handle on the share is closed.
  pub closed-RegWf :
      (f : ℕ) (file : File) (e' : Entry)
      → r.files f ≡ some file
      → file.share ≡ a
      → e'.internal ≡ e.internal
      → e'.open_count + 1 ≡ e.open_count
      → RegWf (record (put r a e') { files = update r.files f none }) pins
  closed-RegWf f file e' was at_a same count =
      let mine : has f (w.users a) ≡ true = ground (arith, w.members a f) in
      record {
        users = λ b. if b == a then remove f (w.users a) else w.users b;
        distinct = λ b. ground (arith, w.distinct b, remove-Distinct f (w.users a) (w.distinct a));
        members = λ b i. ground (
          arith,
          w.members b i,
          w.members a i,
          has-remove i f (w.users a) (w.distinct a),
          w.members b f,
        );
        counted = λ b x at_b.
            ground (
              arith,
              w.counted b x,
              w.counted a e here,
              length-remove-has f (w.users a) mine,
              count,
            );
        unused = λ b off. ground (arith, w.unused b);
        listed = λ b. ground (arith, w.listed b);
        listed_once = w.listed_once;
      }

-- A share is added at a free address.
pub added-RegWf :
    {r : Registry} {pins : ℕ → ℕ} (w : RegWf r pins) (a : ℕ) (e : Entry)
    → r.shares a ≡ none
    → e.open_count ≡ 0
    → RegWf
        (record (put r a e) { share_list = if e.internal then r.share_list else a ∷ r.share_list })
        pins
added-RegWf {r} {pins} w a e fresh zero_count =
    let none_yet : (w.users a ≡ []) × (pins a ≡ 0) = w.unused a (ground (arith, fresh)) in
    let not_listed : has a r.share_list ≡ false = ground (arith, w.listed a) in
    record {
      users = w.users;
      distinct = w.distinct;
      members = w.members;
      counted = λ b x at_b.
          ground (arith, w.counted b x, ap (λ (l : List ℕ). length l) none_yet.0, ==→eq b a);
      unused = λ b off. ground (arith, w.unused b);
      listed = λ b. ground (arith, w.listed b, w.listed a);
      listed_once = ground (arith, w.listed_once, not_listed);
    }
