-- ===== src/Registry/Handles.antt =====
-- The open handles of fm_create.cc: opening, closing, and the calls by name that drop, rename or clear a
-- table.
use fastmem_mariadb.Prelude.{
  ℕ, ◌+◌, ◌-◌, ◌^◌, Bool, true, false, ◌&&◌, Option, none, some, [], ◌∷◌, Run, ◌>>=◌, done, ◌==◌,
  if◌then◌else◌, update, remove,
}
use fastmem_mariadb.Core.Clear.{clear}
use fastmem_mariadb.Data.{Table, Info, no_flags}
use fastmem_mariadb.Registry.{Name, Entry, File, Registry, find_named_share, put, free}

-- The handle as `fm_open_from_share_locked` fills it. In a debug build `check` is true. An `errkey` of
-- −1 is its bit pattern.
abbrev pub new_info : Bool → Info
new_info check = record {
  current_slot = none;
  current_gen = 0;
  current_hash_slot = none;
  lastinx = none;
  errkey = 2 ^ 32 - 1;
  update = no_flags;
  read_check = check;
  scan_pos = 0;
  lastkey = [];
  lastkey_len = 0;
}

-- `fm_open_from_share_locked`, at the address `f` for the handle.
unfoldable pub open_from_share_locked : Registry → ℕ → Entry → ℕ → Bool → ℕ → Registry
open_from_share_locked r a e mode check f =
    let file : File = record {
      share = a;
      mode = mode;
      open_listed = false;
      info = new_info check;
    } in
    let r' = put r a (record e { open_count = e.open_count + 1 }) in
    record r' { files = update r.files f (some file) }

-- `info->next_open= share->open_list; share->open_list= info; info->open_listed= true`.
unfoldable pub register : Registry → ℕ → ℕ → Registry
register r a f = elim (r.shares a) [
  | none ↦ r
  | some e ↦ elim (r.files f) [
    | none ↦ r
    | some file ↦
        let r' = put r a (record e { open_list = f ∷ e.open_list }) in
        let file' : File = record file { open_listed = true } in
        record r' { files = update r.files f (some file') }
  ]
]

-- `share->open_count--`.
unfoldable pub unpin : Registry → ℕ → Registry
unpin r a = elim (r.shares a) [
  | none ↦ r
  | some e ↦ put r a (record e { open_count = e.open_count - 1 })
]

-- `fm_open_from_share`; the handle's memory is `none` where it is refused.
unfoldable pub open_from_share : Registry → ℕ → ℕ → Bool → Option ℕ → Registry × Option ℕ
unfolding open_from_share_locked
open_from_share r a mode check mem = elim (r.shares a) [
  | none ↦ (r, none)
  | some e ↦ elim mem [
    | none ↦ (r, none)
    | some f ↦ (open_from_share_locked r a e mode check f, some f)
  ]
]

-- `fm_open_from_share_and_register`.
unfoldable pub open_and_register : Registry → ℕ → ℕ → Bool → Option ℕ → Registry × Option ℕ
unfolding open_from_share register unpin
open_and_register r a mode check mem =
    let (r', opened) = open_from_share r a mode check mem in
    elim opened [ none ↦ (r', none) | some f ↦ (unpin (register r' a f) a, some f) ]

-- `fm_open`; `none` in the second place is the error `ENOENT`, or memory that is refused.
unfoldable pub open_by_name : Registry → Name → ℕ → Bool → Option ℕ → Registry × Option ℕ
unfolding open_from_share register
open_by_name r name mode check mem = elim (find_named_share r name) [
  | none ↦ (r, none)
  | some a ↦
      let (r', opened) = open_from_share r a mode check mem in
      elim opened [ none ↦ (r', none) | some f ↦ (register r' a f, some f) ]
]

-- `fm_close`.
unfoldable pub close : Registry → ℕ → Registry
unfolding free
close r f = elim (r.files f) [
  | none ↦ r
  | some file ↦ elim (r.shares file.share) [
    | none ↦ r
    | some e ↦
        let listed = if file.open_listed then remove f e.open_list else e.open_list in
        let e' : Entry = record e { open_list = listed; open_count = e.open_count - 1 } in
        let r' : Registry = record (put r file.share e') { files = update r.files f none } in
        if e'.open_count == 0 && e.delete_on_close then free r' file.share e' else r'
  ]
]

-- `fm_release_share`.
unfoldable pub release_share : Registry → ℕ → Bool → Registry
unfolding free
release_share r a internal_table = elim (r.shares a) [
  | none ↦ r
  | some e ↦
      let e' : Entry = record e { open_count = e.open_count - 1 } in
      let r' = put r a e' in
      if internal_table then free r a e else if e'.open_count == 0 then free r' a e' else r'
]

-- `fm_try_free`.
unfoldable pub try_free : Registry → ℕ → Entry → Registry
unfolding free
try_free r a e =
    if e.open_count == 0 then free r a e else put r a (record e { delete_on_close = true })

-- `fm_delete_table`: false is the error `ENOENT`.
unfoldable pub delete_table : Registry → Name → Registry × Bool
unfolding try_free
delete_table r name = elim (find_named_share r name) [
  | none ↦ (r, false)
  | some a ↦ elim (r.shares a) [ none ↦ (r, false) | some e ↦ (try_free r a e, true) ]
]

-- `fm_drop_table`.
unfoldable pub drop_table : Registry → ℕ → Registry
unfolding try_free
drop_table r f = elim (r.files f) [
  | none ↦ r
  | some file ↦ elim (r.shares file.share) [ none ↦ r | some e ↦ try_free r file.share e ]
]

-- `fm_rename`; `granted` is whether the copy of the new name is allocated. False is an error.
unfoldable pub rename : Registry → Name → Name → Bool → Registry × Bool
rename r old_name new_name granted = elim (find_named_share r old_name) [
  | none ↦ (r, true)
  | some a ↦ elim (r.shares a) [
    | none ↦ (r, true)
    | some e ↦ if granted then (put r a (record e { name = new_name }), true) else (r, false)
  ]
]

-- `fm_clear`.
unfoldable pub clear_file : Table → Info → Run (Table × Info)
clear_file t info = do
  core ← clear t.core
  done (
    record t { core = core },
    record info {
      current_slot = none;
      current_hash_slot = none;
      lastinx = none;
      update = no_flags;
    },
  )
