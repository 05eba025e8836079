-- ===== src/Handler/Reads.antt =====
-- The reads of the handler. In a write statement each of them takes the row lock and reads the row
-- again under it.
pub mod UnderLock
pub mod Scans
pub mod Nexts
use fastmem_mariadb.Prelude.{ℕ, Bool, Option, none, some, Run, done, ◌>>=◌, if◌then◌else◌}
use fastmem_mariadb.Core.{err_ok, Bytes}
use fastmem_mariadb.Data.{
  HaCode, ha_ok, ha_end_of_file, ha_record_deleted, ha_key_not_found, ha_wrong_index, SlotRef,
  Table,
}
use fastmem_mariadb.Data.Read.{
  ReadOutcome, reread_locked, rrnd, scan_init, scan, find_key, find_next_key,
}
use fastmem_mariadb.Handler.{Handler, unlock_current_row, lock_current_row}

-- What a read of the handler leaves: the image is there where the code is 0.
abbrev pub RowOutcome : Type 0
RowOutcome = Table × Handler × HaCode × Option Bytes

-- The part of a write statement behind the lock of the row; `lost` is the code for a row that has
-- gone.
unfoldable pub reread : HaCode → Table → Handler → Run RowOutcome
unfolding unlock_current_row
reread lost t h =
    let (t', h') = unlock_current_row t h in
    reread_locked t h.file >>= λ (info, rc, buf). elim rc [
      | err_ok ↦ done (t, record h { file = info }, ha_ok, buf)
      | _ ↦ done (t', h', lost, none)
    ]

unfoldable pub lock_and_reread : HaCode → Table → Handler → Run RowOutcome
unfolding reread lock_current_row
lock_and_reread lost t h = do (t', h') ← lock_current_row t h; reread lost t' h'

-- The part behind the lookup: `others` is what the other threads have done when the lock is asked for.
unfoldable pub after_read :
    HaCode → (Table → Table) → Table → Handler → ReadOutcome → Run RowOutcome
unfolding lock_and_reread
after_read lost others t h (info, ha_ok, buf) =
    let found : Handler = record h { file = info } in
    if h.write_stmt then lock_and_reread lost (others t) found else done (t, found, ha_ok, buf)
after_read lost others t h (info, code, buf) = done (t, record h { file = info }, code, buf)

-- `index_read_idx_map`; `index_read_map` and `index_read_last_map` are the same at `active_index`.
unfoldable pub index_read_idx_map : (Table → Table) → Table → Handler → ℕ → Bytes → Run RowOutcome
unfolding after_read
index_read_idx_map others t h index key =
    find_key t h.file index key >>= after_read ha_key_not_found others t h

-- The code of `index_next` behind the chain walk: the end of the rows with the key.
unfoldable pub end_of_key : ReadOutcome → ReadOutcome
end_of_key (info, ha_key_not_found, buf) =
    (info, if info.update.no_key then ha_key_not_found else ha_end_of_file, buf)
end_of_key r = r

-- `index_next`.
unfoldable pub index_next : (Table → Table) → Table → Handler → Run RowOutcome
unfolding after_read end_of_key
index_next others t h = elim h.file.lastinx [
  | none ↦ done (t, h, ha_wrong_index, none)
  | some inx ↦ find_next_key t h.file inx h.file.lastkey h.file.current_slot >>= λ r.
      after_read ha_key_not_found others t h (end_of_key r)
]

-- `rnd_init`.
unfoldable pub rnd_init : Table → Handler → Bool → Table × Handler
unfolding unlock_current_row
rnd_init t h is_scan =
    let (t', h') = unlock_current_row t h in
    if is_scan then (t', record h' { file = scan_init h'.file }) else (t, h)

-- `rnd_next`.
unfoldable pub rnd_next : (Table → Table) → Table → Handler → Run RowOutcome
unfolding after_read
rnd_next others t h = scan t h.file >>= after_read ha_record_deleted others t h

-- `rnd_pos`.
unfoldable pub rnd_pos : (Table → Table) → Table → Handler → SlotRef → Run RowOutcome
unfolding after_read
rnd_pos others t h ref = rrnd t h.file ref >>= after_read ha_record_deleted others t h
