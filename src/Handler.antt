-- ===== src/Handler.antt =====
-- ha_fastmem.cc: the handler's row lock. A write statement takes the lock `wlock` of a row when it
-- reads the row and keeps it until the row is written, the lock moves to another row, or the
-- statement ends. Other threads work between the lookup of a row and the moment its lock is taken,
-- and between two calls of the handler: what they do to the table is the parameter `others`.
pub mod Reads
pub mod Writes
pub mod Locked
pub mod Tables
pub mod Unique
pub mod Estimates
pub mod Server
use fastmem_mariadb.Prelude.{
  ℕ, Bool, true, false, not, ◌&&◌, Option, none, some, Run, done, ◌>>=◌, ◌==◌, if◌then◌else◌,
}
use fastmem_mariadb.Core.{Share, Bytes, lock_slot, unlock_slot}
use fastmem_mariadb.Data.{Table, Info, HaCode, reset}

-- The members of `ha_fastmem` that the row lock uses. `locked_slot` is −1 where no lock is held.
pub record Handler : Type 0 where
  pub file : Info
  pub write_stmt : Bool
  pub row_locked : Bool
  pub locked_slot : Option ℕ

abbrev pub same_slot : Option ℕ → Option ℕ → Bool
same_slot none none = true
same_slot (some i) (some j) = i == j
same_slot _ _ = false

abbrev pub with_core : Table → Share → Table
with_core t core = record t { core = core }

-- `unlock_current_row`.
unfoldable pub unlock_current_row : Table → Handler → Table × Handler
unlock_current_row t h =
    let released : Handler = record h { row_locked = false; locked_slot = none } in
    let core : Share = elim h.locked_slot [ none ↦ t.core | some i ↦ unlock_slot t.core i ] in
    if h.row_locked then (with_core t core, released) else (t, h)

-- The lock of row `idx`, which is not held yet.
unfoldable pub take_lock : Table → Handler → ℕ → Run (Table × Handler)
take_lock t h idx = do
  core ← lock_slot t.core idx
  done (with_core t core, record h { row_locked = true; locked_slot = some idx })

-- `lock_current_row`.
unfoldable pub lock_current_row : Table → Handler → Run (Table × Handler)
unfolding unlock_current_row take_lock
lock_current_row t h = elim h.file.current_slot [
  | none ↦ done (t, h)
  | some idx ↦
      let (t', h') = unlock_current_row t h in
      let moved = take_lock t' h' idx in
      if h.row_locked && same_slot h.locked_slot (some idx) then done (t, h) else moved
]

-- `reset`, at the end of a statement.
unfoldable pub reset_handler : Table → Handler → Table × Handler
unfolding unlock_current_row reset
reset_handler t h =
    let (t', h') = unlock_current_row t h in (t', record h' { file = reset h'.file })

-- The argument of `external_lock`: `F_WRLCK`, `F_UNLCK`, or another one.
pub data LockType : Type 0 where
  write_lock unlock other_lock : LockType

-- `external_lock`, which only follows what kind of statement is running.
unfoldable pub external_lock : Table → Handler → LockType → Table × Handler
unfolding unlock_current_row
external_lock t h write_lock = (t, record h { write_stmt = true })
external_lock t h unlock = unlock_current_row t (record h { write_stmt = false })
external_lock t h other_lock = (t, h)
