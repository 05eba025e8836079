-- ===== src/Registry/Opens.antt =====
-- fm_create, the calls that open a handle, and fm_release_share keep the registry well formed.
use fastmem_mariadb.Prelude.{
  ℕ, ◌+◌, ◌-◌, ◌<◌, ◌≡◌, refl, Bool, true, false, not, ◌&&◌, Option, none, some, ◌∷◌, ◌==◌,
  if◌then◌else◌, done, IfDone, IfDone-bind, update, Bool-cases, Option-cases, inl, inr, ==→eq,
  ==_refl, arith,
}
use fastmem_mariadb.Registry.{
  Name, Entry, File, Registry, CreateInfo, Grants, find_named_share, new_entry, reuse, add_new, pin,
  create,
}
use fastmem_mariadb.Registry.Handles.{
  new_info, open_from_share_locked, register, unpin, open_from_share, open_and_register,
  open_by_name, release_share,
}
use fastmem_mariadb.Registry.Wf.{RegWf, put-RegWf, free-RegWf, opened-RegWf, added-RegWf}
use fastmem_mariadb.Registry.History.{pin-RegWf, reuse-RegWf}

-- The pins after a call of `fm_create` with the result.
abbrev pub pins_after : (ℕ → ℕ) → Option ℕ → Bool → ℕ → ℕ
pins_after pins none b = pins
pins_after pins (some a) true = update pins a (pins a + 1)
pins_after pins (some a) false = pins

-- The memory that is granted for a share is free.
abbrev pub GrantsFree : Registry → Grants → Type 0
GrantsFree r g = (a : ℕ) → g.share ≡ some a → r.shares a ≡ none

-- A registry that is well formed with the share that was made.
abbrev Made : (ℕ → ℕ) → Registry × Option ℕ → Type 0
Made pins (r', made) =
    RegWf r' pins × ((a : ℕ) → made ≡ some a → ((e : Entry) × (r'.shares a ≡ some e)))

module _ {r : Registry} {pins : ℕ → ℕ} (w : RegWf r pins) where
  add_new-RegWf :
      (name : Name) (ci : CreateInfo) (now : ℕ) (g : Grants)
      → GrantsFree r g
      → IfDone (add_new r name ci now g) (Made pins)
  unfolding add_new new_entry
  add_new-RegWf name ci now g fresh = elim (Option-cases g.share) [
    | inl refused ↦ rw (refused, add_new) (w, λ a e. cc)
    | inr (b, granted) ↦ elim (Bool-cases g.chunks) [
      | inl some_chunks ↦ elim (Bool-cases g.name) [
        | inl named ↦
            rw (granted, add_new)
              (rw some_chunks (
                rw named (
                  added-RegWf w b (new_entry name ci now) (fresh b granted) refl,
                  λ a eq. (new_entry name ci now, ground (arith, eq, ==_refl a)),
                )))
        | inr fail ↦ rw (granted, add_new) (rw some_chunks (rw fail (w, λ a e. cc)))
      ]
      | inr no_chunks ↦ elim (Bool-cases (ci.keys == 0)) [
        | inl keyless ↦ rw (granted, add_new) (rw no_chunks (rw keyless (w, λ a e. cc)))
        | inr keyed ↦ rw (granted, add_new) (rw no_chunks (rw keyed tt))
      ]
    ]
  ]

  relisted-RegWf :
      (f : ℕ) (file file' : File)
      → r.files f ≡ some file
      → file'.share ≡ file.share
      → RegWf (record r { files = update r.files f (some file') }) pins
  relisted-RegWf f file file' open_f same = record {
    users = w.users;
    distinct = w.distinct;
    members = λ b i. ground (arith, w.members b i);
    counted = w.counted;
    unused = w.unused;
    listed = w.listed;
    listed_once = w.listed_once;
  }

  pub unpin-RegWf : (a : ℕ) → 0 < pins a → RegWf (unpin r a) (update pins a (pins a - 1))
  unfolding unpin
  unpin-RegWf a pinned = elim (Option-cases (r.shares a)) [
    | inl gone ↦ absurd (omega (arith, (w.unused a (ground (arith, gone))).1))
    | inr (e, here) ↦
        rw (here, unpin)
          (put-RegWf w a e here (record e { open_count = e.open_count - 1 })
            (update pins a (pins a - 1)) refl (ground (arith, w.counted a e here))
            (λ b ne. ground (arith, ne)))
  ]

  pub open_from_share-RegWf :
      (a mode : ℕ) (check : Bool) (mem : Option ℕ)
      → ((f : ℕ) → mem ≡ some f → r.files f ≡ none)
      → RegWf (open_from_share r a mode check mem).0 pins
  unfolding open_from_share open_from_share_locked
  open_from_share-RegWf a mode check mem fresh = elim (Option-cases (r.shares a)) [
    | inl gone ↦ rw (gone, open_from_share) w
    | inr (e, here) ↦ elim (Option-cases mem) [
      | inl refused ↦ rw (here, open_from_share) (rw refused w)
      | inr (f, granted) ↦
          let file : File = record {
            share = a;
            mode = mode;
            open_listed = false;
            info = new_info check;
          } in
          rw (here, open_from_share)
            (rw granted (
              opened-RegWf w a e here f file (record e { open_count = e.open_count + 1 }) pins
                (fresh f granted) refl refl (omega (arith, w.counted a e here)) (λ b ne. refl)))
    ]
  ]

pub register-RegWf :
    {r : Registry} {pins : ℕ → ℕ} → RegWf r pins → (a f : ℕ) → RegWf (register r a f) pins
unfolding register
register-RegWf {r} {pins} w a f = elim (Option-cases (r.shares a)) [
  | inl gone ↦ rw (gone, register) w
  | inr (e, here) ↦ elim (Option-cases (r.files f)) [
    | inl gone ↦ rw (here, register) (rw gone w)
    | inr (file, open_f) ↦
        let e' : Entry = record e { open_list = f ∷ e.open_list } in
        let w' = put-RegWf w a e here e' pins refl (w.counted a e here) (λ b ne. refl) in
        rw (here, register)
          (rw open_f (relisted-RegWf w' f file (record file { open_listed = true }) open_f refl))
  ]
]

pinned :
    {r : Registry} {pins : ℕ → ℕ}
    → RegWf r pins
    → (a : ℕ) (e : Entry) (p : Bool) → r.shares a ≡ some e
    → RegWf (if p then pin r a else r) (pins_after pins (some a) p)
pinned w a e true here = pin-RegWf w a e here
pinned w a e false here = w

-- `fm_create` with the pins behind it.
abbrev pub Created : (ℕ → ℕ) → Bool → Registry × Option ℕ × Bool → Type 0
Created pins p (r', made, new) = RegWf r' (pins_after pins made p)

add_pin-Created :
    (pins : ℕ → ℕ) (p : Bool) (made : Registry × Option ℕ)
    → Made pins made
    → IfDone
        (elim made.1 [
          | none ↦ done (made.0, none, true)
          | some a ↦ done (if p then pin made.0 a else made.0, some a, true)
        ])
        (Created pins p)
add_pin-Created pins p (r, none) (w, live) = w
add_pin-Created pins p (r, some a) (w, live) = let (e, here) = live a refl in pinned w a e p here

module _ {r : Registry} {pins : ℕ → ℕ} (w : RegWf r pins) where
  pub create-RegWf :
      (name : Name) (ci : CreateInfo) (p : Bool) (now : ℕ) (g : Grants)
      → GrantsFree (reuse r name ci.internal_table).0 g
      → IfDone (create r name ci p now g) (Created pins (not ci.internal_table && p))
  unfolding create
  create-RegWf name ci p now g fresh =
      let (w1, found_live) = reuse-RegWf w name ci.internal_table in
      let pins_it = not ci.internal_table && p in
      elim (Option-cases (reuse r name ci.internal_table).1) [
        | inr (a, found) ↦
            let (e, here, _) = found_live a found in rw (found, create) (pinned w1 a e pins_it here)
        | inl missing ↦
            let r1 = (reuse r name ci.internal_table).0 in
            rw (missing, create)
              (IfDone-bind (Made pins) (Created pins pins_it) (add_new r1 name ci now g) _
                (add_new-RegWf w1 name ci now g fresh) (add_pin-Created pins pins_it))
      ]

  pub open_and_register-RegWf :
      (a mode : ℕ) (check : Bool) (mem : Option ℕ)
      → ((f : ℕ) → mem ≡ some f → r.files f ≡ none)
      → 0 < pins a
      → RegWf
          (open_and_register r a mode check mem).0
          (elim (open_and_register r a mode check mem).1 [
            | none ↦ pins
            | some f ↦ update pins a (pins a - 1)
          ])
  unfolding open_and_register
  open_and_register-RegWf a mode check mem fresh positive =
      let w' = open_from_share-RegWf w a mode check mem fresh in
      elim (Option-cases (open_from_share r a mode check mem).1) [
        | inl refused ↦ rw (refused, open_and_register) w'
        | inr (f, opened) ↦
            rw (opened, open_and_register) (unpin-RegWf (register-RegWf w' a f) a positive)
      ]

  pub open_by_name-RegWf :
      (name : Name) (mode : ℕ) (check : Bool) (mem : Option ℕ)
      → ((f : ℕ) → mem ≡ some f → r.files f ≡ none)
      → RegWf (open_by_name r name mode check mem).0 pins
  unfolding open_by_name
  open_by_name-RegWf name mode check mem fresh = elim (Option-cases (find_named_share r name)) [
    | inl missing ↦ rw (missing, open_by_name) w
    | inr (a, found) ↦
        let w' = open_from_share-RegWf w a mode check mem fresh in
        elim (Option-cases (open_from_share r a mode check mem).1) [
          | inl refused ↦ rw (found, open_by_name) (rw refused w')
          | inr (f, opened) ↦ rw (found, open_by_name) (rw opened (register-RegWf w' a f))
        ]
  ]

  -- A pin is given back.
  pub release-RegWf :
      (a : ℕ) → 0 < pins a → RegWf (release_share r a false) (update pins a (pins a - 1))
  unfolding release_share
  release-RegWf a positive = elim (Option-cases (r.shares a)) [
    | inl gone ↦ absurd (omega (arith, (w.unused a (ground (arith, gone))).1))
    | inr (e, here) ↦
        let e' : Entry = record e { open_count = e.open_count - 1 } in
        let w' =
          put-RegWf w a e here e' (update pins a (pins a - 1)) refl
            (ground (arith, w.counted a e here)) (λ b ne. ground (arith, ne)) in
        rw (here, release_share)
          (elim (Bool-cases (e'.open_count == 0)) [
            | inl z ↦ rw z (free-RegWf w' a e' (ground arith) (==→eq e'.open_count 0 z))
            | inr nz ↦ rw nz w'
          ])
  ]

  -- An internal share that was never opened is freed.
  pub release_internal-RegWf :
      (a : ℕ) (e : Entry)
      → r.shares a ≡ some e
      → e.open_count ≡ 0
      → RegWf (release_share r a true) pins
  unfolding release_share
  release_internal-RegWf a e here zero_count =
      rw (here, release_share) (free-RegWf w a e here zero_count)
