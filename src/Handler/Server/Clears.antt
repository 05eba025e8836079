-- ===== src/Handler/Server/Clears.antt =====
-- `delete_all_rows`, and what `get_auto_increment` tells the server.
use fastmem_mariadb.Prelude.{ℕ, ◌-◌, ◌<◌, ◌≡◌, refl, ap, true, false, none, Returns}
use fastmem_mariadb.Core.{u64_mod}
use fastmem_mariadb.Core.AutoInc.{at_least_one, reserve_round, auto_inc_reserve}
use fastmem_mariadb.Core.Clear.Empties.{Cleared, clear-Cleared}
use fastmem_mariadb.Core.Wf.{Wf}
use fastmem_mariadb.Data.{Table, ha_ok}
use fastmem_mariadb.Data.AutoValue.{get_auto_increment}
use fastmem_mariadb.Registry.Handles.{clear_file}
use fastmem_mariadb.Handler.{Handler, with_core}
use fastmem_mariadb.Handler.Server.{delete_all_rows, get_handler_auto_increment}

-- On a well-formed table with no row locked, `delete_all_rows` ends with the code 0: the table is cleared
-- and the handle is at no row.
pub delete_all_rows-Cleared :
    (t : Table) (h : Handler)
    → Wf t.core
    → ((i : ℕ) → (t.core.slot i).wlock ≡ false)
    → ((k : ℕ) → 0 < (t.core.keydef k).nbuckets)
    → Returns
        (delete_all_rows t h)
        (λ (t', h', code). (code ≡ ha_ok) × Cleared t.core t'.core × (h'.file.current_slot ≡ none))
unfolding delete_all_rows clear_file
delete_all_rows-Cleared t h w unlocked buckets =
    let (s, run, cleared) = clear-Cleared t.core w unlocked buckets in
    rw run (_, refl, (refl, cleared, refl))

-- Where the counter has no room for the interval, the server gets the largest value, no reserved
-- values and an error, and the counter stays.
pub get_handler_auto_increment-overflow :
    (t : Table) (offset increment nb : ℕ)
    → reserve_round t.core.auto_inc (at_least_one offset) (at_least_one increment) (at_least_one nb)
      ≡ none
    → get_handler_auto_increment t offset increment nb ≡ (t, u64_mod - 1, 0, true)
unfolding get_handler_auto_increment get_auto_increment auto_inc_reserve
get_handler_auto_increment-overflow t offset increment nb over =
    let stays : (auto_inc_reserve t.core offset increment nb).0 ≡ t.core =
      rw (auto_inc_reserve, over) refl in
    rw (get_handler_auto_increment, get_auto_increment, auto_inc_reserve, over)
      (ap (λ c. (with_core t c, u64_mod - 1, 0, true)) stays)
