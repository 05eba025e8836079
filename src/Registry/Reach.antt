-- ===== src/Registry/Reach.antt =====
-- The registry under any sequence of the calls of fm_create.cc that the handler makes.
use fastmem_mariadb.Prelude.{
  ℕ, ◌-◌, ◌<◌, ◌≡◌, refl, Bool, true, false, not, ◌&&◌, Option, none, some, [], done, IfDone-at,
  update, arith,
}
use fastmem_mariadb.Registry.{Name, Entry, File, Registry, CreateInfo, Grants, reuse, create}
use fastmem_mariadb.Registry.Handles.{
  open_from_share, open_and_register, open_by_name, close, release_share, delete_table, drop_table,
  rename,
}
use fastmem_mariadb.Registry.Wf.{RegWf}
use fastmem_mariadb.Registry.History.{
  file-live, close-RegWf, delete_table-RegWf, drop_table-RegWf, rename-RegWf,
}
use fastmem_mariadb.Registry.Opens.{
  pins_after, GrantsFree, Created, create-RegWf, open_from_share-RegWf, open_and_register-RegWf,
  open_by_name-RegWf, release-RegWf, release_internal-RegWf,
}

-- The memory that is granted for a handle is free.
abbrev pub MemFree : Registry → Option ℕ → Type 0
MemFree r mem = (f : ℕ) → mem ≡ some f → r.files f ≡ none

-- The calls that end, under any state of `pins`, the pins that the callers of `fm_create` hold. A pin is given
-- back at most once, by `fm_open_from_share_and_register` or `fm_release_share`. An allocator grants
-- free memory only.
pub data Step : Registry → (ℕ → ℕ) → Registry → (ℕ → ℕ) → Type 0 where
  created :
      {r r' : Registry} {pins : ℕ → ℕ} (name : Name) (ci : CreateInfo) (p : Bool) (now : ℕ)
      (g : Grants) (made : Option ℕ) (new : Bool)
      → GrantsFree (reuse r name ci.internal_table).0 g
      → create r name ci p now g ≡ done (r', made, new)
      → Step r pins r' (pins_after pins made (not ci.internal_table && p))
  opened_share :
      {r : Registry} {pins : ℕ → ℕ} (a mode : ℕ) (check : Bool) (mem : Option ℕ)
      → MemFree r mem
      → Step r pins (open_from_share r a mode check mem).0 pins
  opened_pinned :
      {r : Registry} {pins : ℕ → ℕ} (a mode : ℕ) (check : Bool) (mem : Option ℕ)
      → MemFree r mem
      → 0 < pins a
      → Step r pins
          (open_and_register r a mode check mem).0
          (elim (open_and_register r a mode check mem).1 [
            | none ↦ pins
            | some f ↦ update pins a (pins a - 1)
          ])
  opened_name :
      {r : Registry} {pins : ℕ → ℕ} (name : Name) (mode : ℕ) (check : Bool) (mem : Option ℕ)
      → MemFree r mem
      → Step r pins (open_by_name r name mode check mem).0 pins
  closed : {r : Registry} {pins : ℕ → ℕ} (f : ℕ) → Step r pins (close r f) pins
  released :
      {r : Registry} {pins : ℕ → ℕ} (a : ℕ)
      → 0 < pins a
      → Step r pins (release_share r a false) (update pins a (pins a - 1))
  released_internal :
      {r : Registry} {pins : ℕ → ℕ} (a : ℕ) (e : Entry)
      → r.shares a ≡ some e
      → e.open_count ≡ 0
      → Step r pins (release_share r a true) pins
  deleted : {r : Registry} {pins : ℕ → ℕ} (name : Name) → Step r pins (delete_table r name).0 pins
  dropped : {r : Registry} {pins : ℕ → ℕ} (f : ℕ) → Step r pins (drop_table r f) pins
  renamed :
      {r : Registry} {pins : ℕ → ℕ} (old_name new_name : Name) (granted : Bool)
      → Step r pins (rename r old_name new_name granted).0 pins

-- Before the first call.
abbrev pub no_tables : Registry
no_tables = record { share_list = []; shares = λ a. none; files = λ f. none }

pub data Reach : Registry → (ℕ → ℕ) → Type 0 where
  start : Reach no_tables (λ a. 0)
  then_step :
      {r r' : Registry} {pins pins' : ℕ → ℕ} → Reach r pins → Step r pins r' pins' → Reach r' pins'

Step-RegWf :
    {r r' : Registry} {pins pins' : ℕ → ℕ} → Step r pins r' pins' → RegWf r pins → RegWf r' pins'
Step-RegWf {r} {r'} {pins} (created name ci p now g made new fresh run) w =
    IfDone-at (Created pins (not ci.internal_table && p)) (create r name ci p now g) (r', made, new)
      (create-RegWf w name ci p now g fresh) run
Step-RegWf (opened_share a mode check mem fresh) w = open_from_share-RegWf w a mode check mem fresh
Step-RegWf (opened_pinned a mode check mem fresh pos) w =
    open_and_register-RegWf w a mode check mem fresh pos
Step-RegWf (opened_name name mode check mem fresh) w =
    open_by_name-RegWf w name mode check mem fresh
Step-RegWf (closed f) w = close-RegWf w f
Step-RegWf (released a pos) w = release-RegWf w a pos
Step-RegWf (released_internal a e here zero_count) w = release_internal-RegWf w a e here zero_count
Step-RegWf (deleted name) w = delete_table-RegWf w name
Step-RegWf (dropped f) w = drop_table-RegWf w f
Step-RegWf (renamed old_name new_name granted) w = rename-RegWf w old_name new_name granted

-- After any calls of creating, opening, closing, releasing, deleting, dropping and renaming that end, from an
-- empty registry: the open count of a share is the number of its open handles and of the pins on it; memory
-- that holds no share has neither handles nor pins; and the list has each share that is not internal once,
-- and nothing else. A pin is given back at most once, only a share with the open count 0 is released as
-- internal, and an allocator grants free memory.
pub Reach-RegWf : {r : Registry} {pins : ℕ → ℕ} → Reach r pins → RegWf r pins
Reach-RegWf start = record {
  users = λ a. [];
  distinct = λ a. ground arith;
  members = λ a i. refl;
  counted = λ a e eq. cc;
  unused = λ a off. (refl, refl);
  listed = λ a. refl;
  listed_once = ground arith;
}
Reach-RegWf (then_step h step) = Step-RegWf step (Reach-RegWf h)

-- After any calls of creating, opening, closing, releasing, deleting, dropping and renaming that end, from an
-- empty registry, the share of an open handle is still allocated and its open count is not 0, so no call on a
-- handle uses a share that is freed. A pin is given back at most once, only a share with the open count 0 is
-- released as internal, and an allocator grants free memory.
pub open_handle_live :
    {r : Registry} {pins : ℕ → ℕ}
    → Reach r pins
    → (f : ℕ) (file : File) → r.files f ≡ some file
    → (e : Entry) × (r.shares file.share ≡ some e) × (0 < e.open_count)
open_handle_live h f file open_f = file-live (Reach-RegWf h) f file open_f
