-- ===== src/Core/Gone.antt =====
-- Updates and deletes of a row that is not current: `FM_ERR_DELETED`, and the share as it was.
use fastmem_mariadb.Prelude.{
  ℕ, ◌≡◌, refl, ap, ◌∙◌, true, false, Option, none, some, done, Returns-at, arith,
}
use fastmem_mariadb.Core.{Share, Bytes, Status, err_deleted, unlock_slot}
use fastmem_mariadb.Core.Update.{UpdateResult, update_row_locked}
use fastmem_mariadb.Core.Update.Agrees.{with_lock, unlock-with_lock, lock_slot-free}
use fastmem_mariadb.Core.Delete.{is_current, delete_row, delete_row_locked, delete_under_lock}
use fastmem_mariadb.Core.Wf.{row_at}

pub current-row :
    (s : Share) (idx gen : ℕ) (old_rec : Bytes)
    → is_current (s.slot idx) gen ≡ true
    → (s.slot idx).image ≡ old_rec
    → row_at s idx ≡ some old_rec
unfolding is_current row_at
current-row s idx gen old_rec now old = ground (arith, ap (λ x. some x) old)

is_current-with_lock :
    (s : Share) (idx gen : ℕ)
    → is_current ((with_lock s idx).slot idx) gen ≡ is_current (s.slot idx) gen
unfolding is_current
is_current-with_lock s idx gen = ground arith

-- What an update and a delete report, and do, of a row that is not current.
pub update_row_locked-gone :
    (s s' : Share) (idx gen : ℕ) (old_rec new_rec : Bytes) (rc : Status) (errkey : Option ℕ)
    → is_current (s.slot idx) gen ≡ false
    → update_row_locked s idx gen old_rec new_rec ≡ done (s', rc, errkey)
    → (s' ≡ s) × (rc ≡ err_deleted) × (errkey ≡ none)
unfolding update_row_locked
update_row_locked-gone s s' idx gen old_rec new_rec rc errkey gone e =
    Returns-at {P = λ (r : UpdateResult). (r.0 ≡ s) × (r.1 ≡ err_deleted) × (r.2 ≡ none)}
      (update_row_locked s idx gen old_rec new_rec) (s', rc, errkey)
      ((s, err_deleted, none), rw gone refl, (refl, refl, refl)) e

pub delete_row_locked-gone :
    (s s' : Share) (idx gen : ℕ) (rc : Status)
    → is_current (s.slot idx) gen ≡ false
    → delete_row_locked s idx gen ≡ done (s', rc)
    → (s' ≡ s) × (rc ≡ err_deleted)
unfolding delete_row_locked
delete_row_locked-gone s s' idx gen rc gone e =
    Returns-at {P = λ (r : Share × Status). (r.0 ≡ s) × (r.1 ≡ err_deleted)}
      (delete_row_locked s idx gen) (s', rc) ((s, err_deleted), rw gone refl, (refl, refl)) e

pub delete_row-gone :
    (s s' : Share) (idx gen : ℕ) (rc : Status)
    → (s.slot idx).wlock ≡ false
    → is_current (s.slot idx) gen ≡ false
    → delete_row s idx gen ≡ done (s', rc)
    → (s' ≡ s) × (rc ≡ err_deleted)
unfolding delete_row delete_under_lock
delete_row-gone s s' idx gen rc free gone e =
    let still : is_current ((with_lock s idx).slot idx) gen ≡ false =
      is_current-with_lock s idx gen ∙ gone in
    Returns-at {P = λ (r : Share × Status). (r.0 ≡ s) × (r.1 ≡ err_deleted)} (delete_row s idx gen)
      (s', rc)
      (
        (unlock_slot (with_lock s idx) idx, err_deleted),
        rw (delete_row, lock_slot-free s idx free) (rw still refl),
        (unlock-with_lock s idx free, refl),
      )
      e
