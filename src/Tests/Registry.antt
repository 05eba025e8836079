-- ===== src/Tests/Registry.antt =====
-- A table that is created, opened twice, dropped and closed.
use fastmem_mariadb.Prelude.{
  ℕ, ◌<◌, ◌≡◌, refl, true, false, none, some, [], ◌∷◌, done, update, Distinct, has, arith,
}
use fastmem_mariadb.Registry.{
  Name, same_name, Entry, File, Registry, CreateInfo, Grants, find_loop, find_named_share, reuse,
  add_new, pin, put, create, new_entry, bucket_count,
}
use fastmem_mariadb.Registry.Handles.{
  open_from_share_locked, register, unpin, open_from_share, open_and_register, open_by_name,
  drop_table, new_info,
}
use fastmem_mariadb.Registry.Buckets.{Sized, bucket_count-Sized}
use fastmem_mariadb.Registry.Wf.{RegWf, uses}
use fastmem_mariadb.Registry.Reach.{
  Reach, start, then_step, created, opened_pinned, opened_name, no_tables, Reach-RegWf,
  open_handle_live,
}
use fastmem_mariadb.Registry.Dropped.{close_all, drop_table-close_all}

abbrev ci : CreateInfo
ci = record {
  keydef = λ k. record { segs = []; nosame = true; null_part_key = false; length = 1 };
  keys = 1;
  reclength = 2;
  max_key_length = 1;
  max_records = 3;
  auto_increment = 0;
  auto_key = 0;
  auto_key_type = 0;
  internal_table = false;
}

abbrev pub name : Name
name = 116 ∷ []

abbrev pub grants : Grants
grants = record { share = some 7; chunks = true; name = true }

-- Created, with a pin.
abbrev r1 : Registry
r1 = pin (record (put no_tables 7 (new_entry name ci 5)) { share_list = 7 ∷ [] }) 7

created_r1 : create no_tables name ci true 5 grants ≡ done (r1, some 7, true)
unfolding create reuse add_new find_named_share find_loop
created_r1 = refl

-- Opened by the caller of `fm_create`.
abbrev r2 : Registry
r2 = (open_and_register r1 7 0 false (some 3)).0

-- Opened by its name.
abbrev r3 : Registry
r3 = (open_by_name r2 name 0 false (some 4)).0

abbrev pins1 : ℕ → ℕ
pins1 = update (λ a. 0) 7 1

abbrev pins2 : ℕ → ℕ
pins2 = update pins1 7 0

reach_r1 : Reach r1 pins1
unfolding create reuse add_new find_named_share find_loop pin
reach_r1 = then_step start (created name ci true 5 grants (some 7) true (λ a e. refl) created_r1)

reach_r2 : Reach r2 pins2
unfolding create reuse add_new find_named_share find_loop pin open_and_register open_from_share
    open_from_share_locked register unpin
reach_r2 = then_step reach_r1 (opened_pinned 7 0 false (some 3) (λ f e. refl) (omega arith))

reach_r3 : Reach r3 pins2
unfolding create reuse add_new find_named_share find_loop pin open_and_register open_from_share
    open_from_share_locked register unpin
reach_r3 = then_step reach_r2 (opened_name name 0 false (some 4) (λ f e. ground (arith, e)))

abbrev file4 : File
file4 = record { share = 7; mode = 0; open_listed = true; info = new_info false }

open_4 : r3.files 4 ≡ some file4
unfolding create reuse add_new find_named_share find_loop pin open_and_register open_from_share
    open_from_share_locked register unpin same_name open_by_name new_entry
open_4 = refl

all_opened : (i : ℕ) → has i (4 ∷ 3 ∷ []) ≡ uses r3 7 i
unfolding create reuse add_new find_named_share find_loop pin open_and_register open_from_share
    open_from_share_locked register unpin same_name open_by_name new_entry
all_opened i = ground arith

Reach-RegWf_example : RegWf r3 pins2
Reach-RegWf_example = Reach-RegWf reach_r3

open_handle_live_example : (e : Entry) × (r3.shares 7 ≡ some e) × (0 < e.open_count)
open_handle_live_example = open_handle_live reach_r3 4 file4 open_4

opened_once : Distinct (4 ∷ 3 ∷ [])
opened_once = ground arith

drop_table-close_all_example : (close_all (drop_table r3 4) (4 ∷ 3 ∷ [])).shares 7 ≡ none
drop_table-close_all_example =
    drop_table-close_all reach_r3 4 file4 (3 ∷ []) open_4 refl opened_once all_opened

bucket_count-Sized_example : Sized 9000 (bucket_count 9000)
bucket_count-Sized_example = bucket_count-Sized 9000
