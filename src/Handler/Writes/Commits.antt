-- ===== src/Handler/Writes/Commits.antt =====
-- `update_row` under the row lock, from the handler down to the core.
use fastmem_mariadb.Prelude.{
  ℕ, zero, suc, ◌%◌, ◌<◌, ◌≤◌, ◌≡◌, refl, ap, ◌∙◌, true, false, some, Run, done, Returns, ◌>>=◌,
  ◌==◌, if◌then◌else◌, arith,
}
use fastmem_mariadb.Core.{rest_of, Share, err_ok, err_dup_key, Bytes, max_changed_keys, unlock_slot}
use fastmem_mariadb.Core.Delete.{is_current}
use fastmem_mariadb.Core.AutoInc.{auto_inc_observe}
use fastmem_mariadb.Core.Lookup.{read_row}
use fastmem_mariadb.Core.Update.{UpdateResult, update_row_locked}
use fastmem_mariadb.Core.Update.Changes.{Updated, update_row_locked-Updated}
use fastmem_mariadb.Core.Wf.{Wf, LawfulKey, row_at}
use fastmem_mariadb.Core.Wf.Walks.Find.{Checked}
use fastmem_mariadb.Data.{Table, Info, HaCode, ha_ok, ha_found_dupp_key, same_bytes}
use fastmem_mariadb.Data.AutoValue.{Readers, update_auto_increment}
use fastmem_mariadb.Data.Write.{WriteOutcome, read_check, checked, after_update, update_locked}
use fastmem_mariadb.Handler.{Handler, unlock_current_row}
use fastmem_mariadb.Handler.Reads.UnderLock.{HeldRow}
use fastmem_mariadb.Handler.Writes.{write_and_unlock, locked_write, update_handler_row}

same_bytes_refl : (n : ℕ) (a : Bytes) → same_bytes n a a ≡ true
unfolding same_bytes
same_bytes_refl zero a = refl
same_bytes_refl (suc n) a = ground (arith, same_bytes_refl n (rest_of a))

-- The read check of the row that was read passes.
pub read_check-held :
    (t : Table) (info : Info) (idx : ℕ) (rec : Bytes)
    → (t.core.slot idx).seq % 2 ≡ 0
    → row_at t.core idx ≡ some rec
    → is_current (t.core.slot idx) info.current_gen ≡ true
    → read_check t info idx rec ≡ done ha_ok
unfolding read_check read_row row_at is_current
read_check-held t info idx rec even here now = ground (arith, same_bytes_refl t.core.reclength rec)

-- What the update of row `idx` leaves.
abbrev pub Committed : Table → ℕ → Bytes → HaCode → Table → Type 0
Committed t idx new_data ha_ok t' =
    (i : ℕ) → row_at t'.core i ≡ (if i == idx then some new_data else row_at t.core i)
Committed t idx new_data ha_found_dupp_key t' =
    ((i : ℕ) → row_at t'.core i ≡ row_at t.core i)
    × ((k : ℕ) × (k < t.core.keys) × Checked t.core k new_data err_dup_key)
Committed t idx new_data code t' = ⊥

after_update-Committed :
    (rd : Readers) (t : Table) (info : Info) (idx : ℕ) (old new_data : Bytes) (r : UpdateResult)
    → Updated t.core idx old new_data r
    → (let out = after_update rd t info new_data r in Committed t idx new_data out.2 out.0)
unfolding after_update update_auto_increment auto_inc_observe row_at
after_update-Committed rd t info idx old new_data (s', err_ok, ek) (e, c) =
    λ i. ground (arith, c.rows i)
after_update-Committed rd t info idx old new_data (s', err_dup_key, ek) (e, (k, ke, lt, df, ch)) =
    (λ i. ap (λ s. row_at s i) e, (k, lt, ch))
after_update-Committed rd t info idx old new_data (s', _, ek) u = absurd u

image_of : (s : Share) (i : ℕ) (rec : Bytes) → row_at s i ≡ some rec → (s.slot i).image ≡ rec
unfolding row_at
image_of s i rec e = ground arith

update_locked-Committed :
    (rd : Readers) (t : Table) (info : Info) (idx : ℕ) (old new_data : Bytes)
    → Wf t.core
    → t.core.keys ≤ max_changed_keys
    → ((k : ℕ) → LawfulKey (t.core.keydef k).ops)
    → info.current_slot ≡ some idx
    → row_at t.core idx ≡ some old
    → is_current (t.core.slot idx) info.current_gen ≡ true
    → Returns
        (update_locked rd t info old new_data)
        (λ (t', info', code). Committed t idx new_data code t')
unfolding update_locked checked
update_locked-Committed rd t info idx old new_data w few law here current now =
    let (r, run, u) =
      update_row_locked-Updated t.core idx info.current_gen old new_data w few law now
        (image_of t.core idx old current) in
    let work : ℕ → Run WriteOutcome = λ j.
      update_row_locked t.core j info.current_gen old new_data >>= λ r'.
      done (after_update rd t info new_data r') in
    let at_slot : update_locked rd t info old new_data ≡ checked t info old work (some idx) =
      ap (checked t info old work) here in
    let checks = read_check-held t info idx old (w.even idx) current now in
    (
      after_update rd t info new_data r,
      at_slot ∙ rw checks (rw run refl),
      after_update-Committed rd t info idx old new_data r u,
    )

pub unlock-rows :
    (t : Table) (h : Handler) (i : ℕ) → row_at (unlock_current_row t h).0.core i ≡ row_at t.core i
unfolding unlock_current_row unlock_slot row_at
unlock-rows t h i = ground arith

unlock-Committed :
    (t t' : Table) (h : Handler) (idx : ℕ) (new_data : Bytes) (code : HaCode)
    → Committed t idx new_data code t'
    → Committed t idx new_data code (unlock_current_row t' h).0
unlock-Committed t t' h idx new_data ha_ok c = λ i. unlock-rows t' h i ∙ c i
unlock-Committed t t' h idx new_data ha_found_dupp_key (c, k) = (λ i. unlock-rows t' h i ∙ c i, k)
unlock-Committed t t' h idx new_data _ c = absurd c

pub unlock-held :
    (t : Table) (h : Handler) (idx : ℕ)
    → h.row_locked ≡ true
    → h.locked_slot ≡ some idx
    → ((unlock_current_row t h).1.row_locked ≡ false)
      × (((unlock_current_row t h).0.core.slot idx).wlock ≡ false)
unfolding unlock_current_row unlock_slot
unlock-held t h idx on at_idx = (ground arith, ground arith)

-- In a write statement an update of the row whose lock the handler holds, with the current image of the
-- row as the old one, ends. It replaces exactly that row; or it reports a duplicate key, changes no row,
-- and some row has the new value of a key. The lock is released behind it. The table is well formed with
-- at most 64 lawful keys.
pub update_handler_row-Committed :
    (rd : Readers) (t : Table) (h : Handler) (old new_data : Bytes)
    → Wf t.core
    → t.core.keys ≤ max_changed_keys
    → ((k : ℕ) → LawfulKey (t.core.keydef k).ops)
    → h.write_stmt ≡ true
    → (held : HeldRow t h old)
    → Returns (update_handler_row rd t h old new_data) (λ (t', h', code).
      Committed t held.idx new_data code t'
      × (h'.row_locked ≡ false)
      × ((t'.core.slot held.idx).wlock ≡ false))
unfolding update_handler_row locked_write write_and_unlock
update_handler_row-Committed rd t h old new_data w few law stmt held =
    let ((t', info, code), run, c) =
      update_locked-Committed rd t h.file held.idx old new_data w few law held.here held.current
        held.gen in
    let done_by : Handler = record h { file = info } in
    let locked : (h.row_locked ≡ true) × (h.locked_slot ≡ some held.idx) =
      (ground (arith, held.holds), ground (arith, held.holds, held.here)) in
    let u = unlock_current_row t' done_by in
    (
      (u.0, u.1, code),
      simp (stmt, held.holds, run),
      (
        unlock-Committed t t' done_by held.idx new_data code c,
        (unlock-held t' done_by held.idx locked.0 locked.1).0,
        (unlock-held t' done_by held.idx locked.0 locked.1).1,
      ),
    )
