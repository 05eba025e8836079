-- ===== src/Registry/Fresh.antt =====
-- Which memory `fm_create` and `fm_release_share` leave free, and when `fm_create` ends.
use mathlib.Core.Path.{subst}
use fastmem_mariadb.Prelude.{
  ℕ, ◌+◌, ◌≡◌, ◌≢◌, ◌⊎◌, refl, sym, ◌∙◌, Bool, true, false, not, ◌&&◌, Option, none, some, ◌∷◌,
  ◌==◌, if◌then◌else◌, done, IfDone, IfDone-bind, Bool-cases, Option-cases, inl, inr, ==_refl,
  arith,
}
use fastmem_mariadb.Registry.{
  Name, Entry, Registry, CreateInfo, Grants, reuse, add_new, pin, create, free, new_entry, put,
}
use fastmem_mariadb.Registry.Handles.{release_share}

-- No share is in memory that was free, but at `a`.
abbrev pub OthersFree : Registry → Option ℕ → Registry → Type 0
OthersFree r made r' =
    (i : ℕ) → ((a : ℕ) → made ≡ some a → (i == a) ≡ false) → r.shares i ≡ none → r'.shares i ≡ none

-- What `fm_create` makes of the registry: which share, whether it is new, and its open count then.
pub record Newly (r : Registry) (internal pins : Bool) (r' : Registry) (made : Option ℕ)
    (new : Bool) : Type 0 where
  pub files : r'.files ≡ r.files
  pub others : OthersFree r made r'
  pub count :
      (a : ℕ)
      → made ≡ some a
      → new ≡ true
      → (e : Entry) × (r'.shares a ≡ some e) × (e.open_count ≡ (if pins then 1 else 0))
  pub found : (a : ℕ) → made ≡ some a → new ≡ false → r.shares a ≢ none
  pub own : internal ≡ true → new ≡ true

abbrev pub NewlyOf : Registry → Bool → Bool → Registry × Option ℕ × Bool → Type 0
NewlyOf r internal pins (r', made, new) = Newly r internal pins r' made new

reuse-free :
    (r : Registry) (name : Name) (internal : Bool) (i : ℕ)
    → r.shares i ≡ none
    → (reuse r name internal).0.shares i ≡ none
unfolding reuse free
reuse-free r name internal i off = ground arith

reuse-files :
    (r : Registry) (name : Name) (internal : Bool) → (reuse r name internal).0.files ≡ r.files
unfolding reuse free
reuse-files r name internal = ground arith

reuse-found :
    (r : Registry) (name : Name) (internal : Bool) (a : ℕ)
    → (reuse r name internal).1 ≡ some a
    → (internal ≡ false) × (r.shares a ≢ none)
unfolding reuse
reuse-found r name internal a e = (ground arith, λ off. ground arith)

-- What `add_new` makes of the registry.
pub record Added (r : Registry) (r' : Registry) (made : Option ℕ) : Type 0 where
  pub files : r'.files ≡ r.files
  pub others : OthersFree r made r'
  pub count : (a : ℕ) → made ≡ some a → (e : Entry) × (r'.shares a ≡ some e) × (e.open_count ≡ 0)

abbrev AddedOf : Registry → Registry × Option ℕ → Type 0
AddedOf r (r', made) = Added r r' made

nothing-Added : (r : Registry) → Added r r none
nothing-Added r = record { files = refl; others = λ i ne off. off; count = λ a e. cc }

add_new-Added :
    (r : Registry) (name : Name) (ci : CreateInfo) (now : ℕ) (g : Grants)
    → IfDone (add_new r name ci now g) (AddedOf r)
unfolding add_new new_entry
add_new-Added r name ci now g = elim (Option-cases g.share) [
  | inl refused ↦ rw (refused, add_new) (nothing-Added r)
  | inr (b, granted) ↦ elim (Bool-cases g.chunks) [
    | inl some_chunks ↦ elim (Bool-cases g.name) [
      | inl named ↦
          rw (granted, add_new)
            (rw some_chunks (
              rw named (record {
                files = refl;
                others = λ i ne off. ground (arith, ne b refl);
                count = λ a eq. (new_entry name ci now, ground (arith, eq, ==_refl a), refl);
              })))
      | inr fail ↦ rw (granted, add_new) (rw some_chunks (rw fail (nothing-Added r)))
    ]
    | inr no_chunks ↦ elim (Bool-cases (ci.keys == 0)) [
      | inl keyless ↦ rw (granted, add_new) (rw no_chunks (rw keyless (nothing-Added r)))
      | inr keyed ↦ rw (granted, add_new) (rw no_chunks (rw keyed tt))
    ]
  ]
]

pinned_count :
    (p : Bool) (r : Registry) (a : ℕ) (e : Entry)
    → r.shares a ≡ some e
    → e.open_count ≡ 0
    → (e' : Entry) × ((if p then pin r a else r).shares a ≡ some e')
      × (e'.open_count ≡ (if p then 1 else 0))
unfolding pin
pinned_count true r a e here zero_count = (
  record e { open_count = e.open_count + 1 },
  ground (arith, ==_refl a),
  omega (arith, zero_count),
)
pinned_count false r a e here zero_count = (e, here, zero_count)

pinned_free :
    (p : Bool) (r : Registry) (a i : ℕ)
    → (i == a) ≡ false
    → r.shares i ≡ none
    → (if p then pin r a else r).shares i ≡ none
unfolding pin
pinned_free p r a i ne off = ground arith

pinned_files : (p : Bool) (r : Registry) (a : ℕ) → (if p then pin r a else r).files ≡ r.files
unfolding pin
pinned_files p r a = ground arith

found_here :
    (r : Registry) (name : Name) (internal p : Bool) (a : ℕ)
    → (reuse r name internal).1 ≡ some a
    → (let r1 = (reuse r name internal).0 in
        Newly r internal p (if p then pin r1 a else r1) (some a) false)
found_here r name internal p a e =
    let r1 = (reuse r name internal).0 in
    let (shared, live) = reuse-found r name internal a e in
    record {
      files = pinned_files p r1 a ∙ reuse-files r name internal;
      others = λ i ne off. pinned_free p r1 a i (ne a refl) (reuse-free r name internal i off);
      count = λ b eq bad. absurd (ground (arith, bad));
      found = λ b eq _. ground (arith, eq, live);
      own = λ on. absurd (ground (arith, on, shared));
    }

made_here :
    (r : Registry) (name : Name) (internal p : Bool) (made : Registry × Option ℕ)
    → AddedOf (reuse r name internal).0 made
    → IfDone
        (elim made.1 [
          | none ↦ done (made.0, none, true)
          | some a ↦ done (if p then pin made.0 a else made.0, some a, true)
        ])
        (NewlyOf r internal p)
made_here r name internal p (r2, none) h = record {
  files = h.files ∙ reuse-files r name internal;
  others = λ i ne off. h.others i ne (reuse-free r name internal i off);
  count = λ a eq _. cc;
  found = λ a eq. cc;
  own = λ on. refl;
}
made_here r name internal p (r2, some a) h = record {
  files = pinned_files p r2 a ∙ h.files ∙ reuse-files r name internal;
  others = λ i ne off.
      pinned_free p r2 a i (ne a refl) (h.others i ne (reuse-free r name internal i off));
  count = λ b eq _.
      let (e, here, zero_count) = h.count b eq in
      let same : a ≡ b = ground (arith, eq) in
      subst
        (λ x.
          (e' : Entry) × ((if p then pin r2 x else r2).shares b ≡ some e')
          × (e'.open_count ≡ (if p then 1 else 0)))
        (sym same) (pinned_count p r2 b e here zero_count);
  found = λ b eq bad. absurd (ground (arith, bad));
  own = λ on. refl;
}

-- What `fm_create` leaves behind, where it ends.
pub create-Newly :
    (r : Registry) (name : Name) (ci : CreateInfo) (p : Bool) (now : ℕ) (g : Grants)
    → IfDone (create r name ci p now g) (NewlyOf r ci.internal_table (not ci.internal_table && p))
unfolding create
create-Newly r name ci p now g =
    let pins = not ci.internal_table && p in
    let r1 = (reuse r name ci.internal_table).0 in
    elim (Option-cases (reuse r name ci.internal_table).1) [
      | inr (a, found) ↦ rw (found, create) (found_here r name ci.internal_table pins a found)
      | inl missing ↦
          rw (missing, create)
            (IfDone-bind (AddedOf r1) (NewlyOf r ci.internal_table pins) (add_new r1 name ci now g)
              _ (add_new-Added r1 name ci now g) (made_here r name ci.internal_table pins))
    ]

-- The chunk array of a share that has keys is granted.
abbrev pub Chunked : ℕ → Grants → Type 0
Chunked keys g = (g.chunks ≡ true) ⊎ (keys ≡ 0)

add_new-ends :
    (r : Registry) (name : Name) (ci : CreateInfo) (now : ℕ) (g : Grants)
    → Chunked ci.keys g
    → (v : Registry × Option ℕ) × (add_new r name ci now g ≡ done v)
unfolding add_new
add_new-ends r name ci now g ok = elim (Option-cases g.share) [
  | inl refused ↦ ((r, none), rw (refused, add_new) refl)
  | inr (b, granted) ↦ elim (Bool-cases g.chunks) [
    | inl some_chunks ↦ elim (Bool-cases g.name) [
      | inl named ↦
          let listed = if ci.internal_table then r.share_list else b ∷ r.share_list in
          let r' = record (put r b (new_entry name ci now)) { share_list = listed } in
          ((r', some b), rw (granted, add_new) (rw some_chunks (rw named refl)))
      | inr fail ↦ ((r, none), rw (granted, add_new) (rw some_chunks (rw fail refl)))
    ]
    | inr no_chunks ↦
        let keyless : (ci.keys == 0) ≡ true = elim ok [
          | inl has_chunks ↦ absurd (ground (arith, has_chunks, no_chunks))
          | inr z ↦ ground (arith, z)
        ] in
        ((r, none), rw (granted, add_new) (rw no_chunks (rw keyless refl)))
  ]
]

with_pin-ends :
    (p : Bool) (made : Registry × Option ℕ)
    → (v : Registry × Option ℕ × Bool) × (elim made.1 [
      | none ↦ done (made.0, none, true)
      | some a ↦ done (if p then pin made.0 a else made.0, some a, true)
    ]
        ≡ done v)
with_pin-ends p (r, none) = (_, refl)
with_pin-ends p (r, some a) = (_, refl)

-- `fm_create` ends where the chunk array of a share that has keys is granted.
pub create-ends :
    (r : Registry) (name : Name) (ci : CreateInfo) (p : Bool) (now : ℕ) (g : Grants)
    → Chunked ci.keys g
    → (v : Registry × Option ℕ × Bool) × (create r name ci p now g ≡ done v)
unfolding create
create-ends r name ci p now g ok =
    let pins = not ci.internal_table && p in
    let r1 = (reuse r name ci.internal_table).0 in
    elim (Option-cases (reuse r name ci.internal_table).1) [
      | inr (a, found) ↦ ((if pins then pin r1 a else r1, some a, false), rw (found, create) refl)
      | inl missing ↦
          let (made, run) = add_new-ends r1 name ci now g ok in
          let (v, run') = with_pin-ends pins made in (v, rw (missing, create) (rw run run'))
    ]

-- A share that nobody uses but the caller is freed.
pub release-gone :
    (r : Registry) (a : ℕ) (internal : Bool) (e : Entry)
    → r.shares a ≡ some e
    → e.open_count ≡ (if not internal && true then 1 else 0)
    → (release_share r a internal).shares a ≡ none
unfolding release_share free
release-gone r a true e here count = ground (arith, here, ==_refl a)
release-gone r a false e here count = ground (arith, here, count, ==_refl a)

pub release-free :
    (r : Registry) (a i : ℕ) (internal : Bool)
    → (i == a) ≡ false
    → r.shares i ≡ none
    → (release_share r a internal).shares i ≡ none
unfolding release_share free
release-free r a i internal ne off = ground arith
