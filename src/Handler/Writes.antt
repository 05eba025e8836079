-- ===== src/Handler/Writes.antt =====
-- The writes of the handler: each needs the row lock, and releases it.
pub mod Commits
pub mod Deletes
use fastmem_mariadb.Prelude.{
  Bool, true, false, not, ◌&&◌, none, some, Run, done, ◌>>=◌, if◌then◌else◌,
}
use fastmem_mariadb.Core.{Bytes}
use fastmem_mariadb.Data.{HaCode, ha_record_changed, Table, Info}
use fastmem_mariadb.Data.AutoValue.{Readers}
use fastmem_mariadb.Data.Write.{WriteOutcome, update_locked, delete_locked}
use fastmem_mariadb.Handler.{Handler, same_slot, unlock_current_row, lock_current_row}

abbrev pub HandlerOutcome : Type 0
HandlerOutcome = Table × Handler × HaCode

-- `row_locked && locked_slot == file->current_slot`.
abbrev pub holds_lock : Handler → Bool
holds_lock h = h.row_locked && same_slot h.locked_slot h.file.current_slot

abbrev pub has_row : Handler → Bool
has_row h = elim h.file.current_slot [ none ↦ false | some i ↦ true ]

-- A write under the lock; the lock is released behind it.
unfoldable pub write_and_unlock :
    (Table → Info → Run WriteOutcome) → Table → Handler → Run HandlerOutcome
unfolding unlock_current_row
write_and_unlock work t h = do
  (t', info, code) ← work t h.file
  let (t'', h') = unlock_current_row t' (record h { file = info })
  done (t'', h', code)

-- The write behind the test that the lock is held, and the refusal where it is not.
unfoldable pub write_or_refuse :
    (Table → Info → Run WriteOutcome) → Table → Handler → Run HandlerOutcome
unfolding write_and_unlock
write_or_refuse work t h =
    let (t', h') = unlock_current_row t h in
    let go = write_and_unlock work t h in
    if holds_lock h then go else done (t', h', ha_record_changed)

-- `update_row` and `delete_row`, which differ in the call of fm_data.cc that they make.
unfoldable pub locked_write :
    (Table → Info → Run WriteOutcome) → Table → Handler → Run HandlerOutcome
unfolding write_or_refuse
locked_write work t h =
    let late = lock_current_row t h >>= λ (t', h'). write_or_refuse work t' h' in
    if h.write_stmt && holds_lock h
    then write_and_unlock work t h
    else if h.write_stmt && has_row h && not h.row_locked
    then late
    else write_or_refuse work t h

-- `update_row`.
unfoldable pub update_handler_row : Readers → Table → Handler → Bytes → Bytes → Run HandlerOutcome
unfolding locked_write
update_handler_row rd t h old_data new_data =
    locked_write (λ t' info. update_locked rd t' info old_data new_data) t h

-- `delete_row`.
unfoldable pub delete_handler_row : Table → Handler → Bytes → Run HandlerOutcome
unfolding locked_write
delete_handler_row t h buf = locked_write (λ t' info. delete_locked t' info buf) t h
