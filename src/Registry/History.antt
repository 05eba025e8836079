-- ===== src/Registry/History.antt =====
-- Sequences of calls of fm_create.cc, as the handler makes them.
use mathlib.Core.Path.{subst}
use fastmem_mariadb.Prelude.{
  ℕ, ◌+◌, ◌-◌, ◌≡◌, refl, ap, Bool, true, false, ◌&&◌, Option, none, some, List, [], ◌∷◌, ◌==◌,
  if◌then◌else◌, update, remove, has, ◌<◌, Bool-cases, Option-cases, inl, inr, ==→eq, arith,
}
use fastmem_mariadb.Registry.{
  Name, same_name, Entry, File, Registry, find_loop, find_named_share, put, free, reuse, pin,
}
use fastmem_mariadb.Registry.Handles.{close, try_free, delete_table, drop_table, rename}
use fastmem_mariadb.Registry.Wf.{RegWf, put-RegWf, free-RegWf, closed-RegWf, length-remove-has}

-- A share that is found by its name is live, and not internal.
pub find_loop-live :
    (shares : ℕ → Option Entry) (name : Name) (l : List ℕ) (a : ℕ)
    → find_loop shares name l ≡ some a
    → (has a l ≡ true) × ((e : Entry) × (shares a ≡ some e))
unfolding find_loop
find_loop-live shares name [] a e = cc
find_loop-live shares name (b ∷ l) a e = elim (Option-cases (shares b)) [
  | inl gone ↦
      let (h, x) = find_loop-live shares name l a (ground (arith, gone)) in (ground arith, x)
  | inr (eb, at_b) ↦ elim (Bool-cases (same_name name eb.name)) [
    | inl yes_name ↦
        let same : b ≡ a = ground (arith, at_b, yes_name) in
        (ground arith, subst (λ c. (e : Entry) × (shares c ≡ some e)) same (eb, at_b))
    | inr other ↦
        let (h, x) = find_loop-live shares name l a (ground (arith, at_b, other)) in
        (ground arith, x)
  ]
]

module _ {r : Registry} {pins : ℕ → ℕ} (w : RegWf r pins) where
  pub try_free-RegWf : (a : ℕ) (e : Entry) → r.shares a ≡ some e → RegWf (try_free r a e) pins
  unfolding try_free
  try_free-RegWf a e here = elim (Bool-cases (e.open_count == 0)) [
    | inl z ↦ rw z (free-RegWf w a e here (==→eq e.open_count 0 z))
    | inr nz ↦ rw nz (
        put-RegWf w a e here (record e { delete_on_close = true }) pins refl (w.counted a e here)
          (λ b ne. refl))
  ]

  closed :
      (f : ℕ) (file : File) (e : Entry)
      → r.files f ≡ some file
      → r.shares file.share ≡ some e
      → 0 < e.open_count
      → (let listed = if file.open_listed then remove f e.open_list else e.open_list in
          let e' : Entry = record e { open_list = listed; open_count = e.open_count - 1 } in
          let r' : Registry = record (put r file.share e') { files = update r.files f none } in
          RegWf
            (if e'.open_count == 0 && e.delete_on_close then free r' file.share e' else r')
            pins)
  closed f file e open_f here pos =
      let listed = if file.open_listed then remove f e.open_list else e.open_list in
      let e' : Entry = record e { open_list = listed; open_count = e.open_count - 1 } in
      let r' : Registry = record (put r file.share e') { files = update r.files f none } in
      let w' : RegWf r' pins =
        closed-RegWf w file.share e here f file e' open_f refl refl (omega arith) in
      elim (Bool-cases (e'.open_count == 0 && e.delete_on_close)) [
        | inl z ↦ rw z (free-RegWf w' file.share e' (ground arith) (ground (arith, z)))
        | inr nz ↦ rw nz w'
      ]

  pub delete_table-RegWf : (name : Name) → RegWf (delete_table r name).0 pins
  unfolding delete_table
  delete_table-RegWf name = elim (Option-cases (find_named_share r name)) [
    | inl missing ↦ rw (missing, delete_table) w
    | inr (a, found) ↦ elim (Option-cases (r.shares a)) [
      | inl gone ↦ rw (found, delete_table) (rw gone w)
      | inr (e, here) ↦ rw (found, delete_table) (rw here (try_free-RegWf a e here))
    ]
  ]

  pub rename-RegWf :
      (old_name new_name : Name) (granted : Bool)
      → RegWf (rename r old_name new_name granted).0 pins
  unfolding rename
  rename-RegWf old_name new_name granted = elim (Option-cases (find_named_share r old_name)) [
    | inl missing ↦ rw (missing, rename) w
    | inr (a, found) ↦ elim (Option-cases (r.shares a)) [
      | inl gone ↦ rw (found, rename) (rw gone w)
      | inr (e, here) ↦
          let renamed =
            put-RegWf w a e here (record e { name = new_name }) pins refl (w.counted a e here)
              (λ b ne. refl) in
          rw (found, rename)
            (rw here (elim (Bool-cases granted) [ inl g ↦ rw g renamed | inr g ↦ rw g w ]))
    ]
  ]

  pub drop_table-RegWf : (f : ℕ) → RegWf (drop_table r f) pins
  unfolding drop_table
  drop_table-RegWf f = elim (Option-cases (r.files f)) [
    | inl gone ↦ rw (gone, drop_table) w
    | inr (file, open_f) ↦ elim (Option-cases (r.shares file.share)) [
      | inl gone ↦ rw (open_f, drop_table) (rw gone w)
      | inr (e, here) ↦ rw (open_f, drop_table) (rw here (try_free-RegWf file.share e here))
    ]
  ]

  -- The share of an open handle has not been freed.
  pub file-live :
      (f : ℕ) (file : File)
      → r.files f ≡ some file
      → (e : Entry) × (r.shares file.share ≡ some e) × (0 < e.open_count)
  file-live f file open_f =
      let mine : has f (w.users file.share) ≡ true = ground (arith, w.members file.share f) in
      elim (Option-cases (r.shares file.share)) [
        | inl gone ↦
            let (nil, _) = w.unused file.share (ground (arith, gone)) in
            absurd (ground (arith, ap (has f) nil))
        | inr (e, here) ↦ (
          e,
          here,
          omega (arith, w.counted file.share e here, length-remove-has f (w.users file.share) mine),
        )
      ]

  pub close-RegWf : (f : ℕ) → RegWf (close r f) pins
  unfolding close
  close-RegWf f = elim (Option-cases (r.files f)) [
    | inl gone ↦ rw (gone, close) w
    | inr (file, open_f) ↦
        let (e, here, pos) = file-live f file open_f in
        rw (open_f, close) (rw here (closed f file e open_f here pos))
  ]

  pub pin-RegWf :
      (a : ℕ) (e : Entry) → r.shares a ≡ some e → RegWf (pin r a) (update pins a (pins a + 1))
  unfolding pin
  pin-RegWf a e here =
      rw (here, pin)
        (put-RegWf w a e here (record e { open_count = e.open_count + 1 })
          (update pins a (pins a + 1)) refl (ground (arith, w.counted a e here))
          (λ b ne. ground (arith, ne)))

  -- What `reuse` leaves: a share that is in use, or none.
  pub reuse-RegWf :
      (name : Name) (internal : Bool)
      → RegWf (reuse r name internal).0 pins
        × ((a : ℕ)
            → (reuse r name internal).1 ≡ some a
            → ((e : Entry) × ((reuse r name internal).0.shares a ≡ some e) × (internal ≡ false)))
  unfolding reuse
  reuse-RegWf name internal = elim (Bool-cases internal) [
    | inl i ↦ rw i (w, λ a e. cc)
    | inr i ↦ elim (Option-cases (find_named_share r name)) [
      | inl missing ↦ rw i (rw (missing, reuse) (w, λ a e. cc))
      | inr (a, found) ↦ elim (Option-cases (r.shares a)) [
        | inl gone ↦ rw i (rw (found, reuse) (rw gone (w, λ b e. cc)))
        | inr (e, here) ↦ rw i (
            rw (found, reuse)
              (rw here (elim (Bool-cases (e.open_count == 0)) [
                | inl z ↦ rw z (free-RegWf w a e here (==→eq e.open_count 0 z), λ b eq. cc)
                | inr nz ↦ rw nz (w, λ b eq. (e, ground (arith, eq, here), refl))
              ])))
      ]
    ]
  ]
