-- ===== src/Handler/Tables.antt =====
-- The calls of ha_fastmem.cc that create, open and drop a table, on the registry.
pub mod Opens
use fastmem_mariadb.Prelude.{
  ℕ, ◌-◌, Bool, true, false, ◌||◌, Option, none, some, Run, diverges, done, ◌>>=◌, ◌==◌,
  if◌then◌else◌,
}
use fastmem_mariadb.KeyDef.{Charset}
use fastmem_mariadb.Hash.{Server}
use fastmem_mariadb.Hash.Callbacks.{key_ops_init}
use fastmem_mariadb.Prepare.{KeyTypes, SqlTable, prepared, prepare_create_info}
use fastmem_mariadb.Registry.{
  Name, Entry, Registry, CreateInfo, Grants, find_named_share, put, create,
}
use fastmem_mariadb.Registry.Handles.{
  open_from_share, open_and_register, open_by_name, close, release_share, delete_table,
}

-- `fm_key_ops_init(file->s)`.
unfoldable pub init_ops : Server → Registry → ℕ → Registry
init_ops sv r a = elim (r.shares a) [
  | none ↦ r
  | some e ↦ put r a (record e { table = key_ops_init sv e.table })
]

-- What the allocators grant to `open`: the handle of `fm_open`, the buffer of the key definitions, what
-- `fm_create` asks for, and the handle of a share that was created.
pub record OpenGrants : Type 0 where
  pub named : Option ℕ
  pub keydefs : Bool
  pub made : Grants
  pub handle : Option ℕ

-- The part of `open` behind `fm_create`.
unfoldable pub open_created :
    Server → Registry → ℕ → ℕ → Bool → Bool → Option ℕ → Registry × Option ℕ
unfolding init_ops
open_created sv r a mode check internal mem =
    let (r', opened) =
      if internal
      then open_from_share r a mode check mem
      else open_and_register r a mode check mem in
    elim opened [ none ↦ (release_share r' a internal, none) | some f ↦ (init_ops sv r' a, some f) ]

-- The part of `open` for a table that has no share, which ends where `fm_create` does.
unfoldable pub open_new :
    KeyTypes
    → Charset
    → Server
    → Registry
    → SqlTable
    → Name
    → ℕ
    → Bool
    → Bool
    → ℕ
    → OpenGrants
    → Run (Registry × Option ℕ)
unfolding open_created
open_new ha bin sv r t name mode check internal now g =
    elim (prepare_create_info ha bin t internal g.keydefs) [
      | prepared ci ↦ create r name ci true now g.made >>= λ (r', made, created). elim made [
        | none ↦ done (r', none)
        | some a ↦ done (open_created sv r' a mode check internal g.handle)
      ]
      | _ ↦ done (r, none)
    ]

-- `open`, with the address of the handle where it succeeds. Where the share is there and the memory of
-- the handle is refused, the source goes on with a null pointer, and there is no result; neither is
-- there where `fm_create` has none.
unfoldable pub open_table :
    KeyTypes
    → Charset
    → Server
    → Registry
    → SqlTable
    → Name
    → ℕ
    → Bool
    → Bool
    → ℕ
    → OpenGrants
    → Run (Registry × Option ℕ)
unfolding open_new init_ops
open_table ha bin sv r t name mode check internal now g =
    let fresh = open_new ha bin sv r t name mode check internal now g in
    let (r', opened) = open_by_name r name mode check g.named in
    if internal then fresh else elim (find_named_share r name) [
      | none ↦ fresh
      | some a ↦ elim opened [ none ↦ diverges | some f ↦ done (init_ops sv r' a, some f) ]
    ]

-- `create`, with `auto_increment_value` of the server's `HA_CREATE_INFO`; false is an error.
unfoldable pub create_table :
    KeyTypes
    → Charset
    → Registry
    → SqlTable
    → Name
    → ℕ
    → Bool
    → ℕ
    → OpenGrants
    → Run (Registry × Bool)
create_table ha bin r t name value internal now g =
    elim (prepare_create_info ha bin t internal g.keydefs) [
      | prepared ci ↦
          let next = if value == 0 then 0 else value - 1 in
          create r name (record ci { auto_increment = next }) false now g.made
          >>= λ (r', made, created). done (r', elim made [ none ↦ false | some a ↦ true ])
      | _ ↦ done (r, false)
    ]

-- `drop_table`, which closes the handle.
unfoldable pub drop_handler_table : Registry → ℕ → Registry
drop_handler_table r f = elim (r.files f) [
  | none ↦ r
  | some file ↦ elim (r.shares file.share) [
    | none ↦ close r f
    | some e ↦ close (put r file.share (record e { delete_on_close = true })) f
  ]
]
