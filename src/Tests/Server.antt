-- ===== src/Tests/Server.antt =====
-- write_row, positions and the keys of the standalone test.
use fastmem_mariadb.Prelude.{◌≡◌, refl, true, false, none, some, Returns, if◌then◌else◌}
use fastmem_mariadb.Core.Delete.{is_current}
use fastmem_mariadb.Data.{ha_ok, ha_record_deleted}
use fastmem_mariadb.Handler.{Handler}
use fastmem_mariadb.Handler.Reads.{rnd_pos}
use fastmem_mariadb.Handler.Server.{AutoIncrement, numbered_row, write_row, position}
use fastmem_mariadb.Handler.Server.WriteRow.{counted_to, RowWritten, write_row-RowWritten}
use fastmem_mariadb.Handler.Server.Positions.{rnd_pos-position}
use fastmem_mariadb.Tests.Table.{mem, s1, s1-Added, lawful_s1, rec_a, rec_b}
use fastmem_mariadb.Tests.Handler.{table_of, fresh_handler, at_key, readers}

-- The server puts the value 9 into the record and leaves the counter at it.
abbrev number_nine : AutoIncrement
number_nine t buf = (counted_to t 9, rec_b, none)

write_row-RowWritten_example :
    Returns
      (write_row readers mem number_nine true (table_of s1) fresh_handler rec_a)
      (RowWritten fresh_handler (numbered_row number_nine true (table_of s1) rec_a))
write_row-RowWritten_example =
    write_row-RowWritten readers mem number_nine true (table_of s1) fresh_handler rec_a
      (λ t buf. (9, refl)) s1-Added.wf lawful_s1

abbrev reader : Handler
reader = record { file = at_key; write_stmt = false; row_locked = false; locked_slot = none }

rnd_pos-position_example :
    Returns (rnd_pos (λ t. t) (table_of s1) reader (position reader)) (λ (t', h', code, buf).
      (t' ≡ table_of s1)
      × (if is_current (s1.slot 0) 0
          then ((code ≡ ha_ok) × (buf ≡ some (s1.slot 0).image))
          else ((code ≡ ha_record_deleted) × (buf ≡ none))))
rnd_pos-position_example =
    rnd_pos-position (λ t. t) (table_of s1) reader reader 0 s1-Added.wf refl refl
