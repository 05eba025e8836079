-- ===== src/Handler/Server/WriteRow.antt =====
-- `write_row`, with the server's choice of an auto-increment value.
use fastmem_mariadb.Prelude.{ℕ, ◌≡◌, refl, sym, Bool, true, false, Option, none, some, Returns}
use mathlib.Core.Path.{subst}
use fastmem_mariadb.Core.{Bytes}
use fastmem_mariadb.Core.Alloc.{Memory}
use fastmem_mariadb.Core.Wf.{Wf, LawfulKey}
use fastmem_mariadb.Data.{Table, HaCode}
use fastmem_mariadb.Data.AutoValue.{Readers}
use fastmem_mariadb.Data.Write.Stores.{Written, write-Written}
use fastmem_mariadb.Handler.{Handler, with_core}
use fastmem_mariadb.Handler.Writes.{HandlerOutcome}
use fastmem_mariadb.Handler.Server.{AutoIncrement, numbered_row, write_numbered, write_row}

-- The table with another value of the counter.
abbrev pub counted_to : Table → ℕ → Table
counted_to t value = with_core t (record t.core { auto_inc = value })

-- What is documented of the server's function: of the table it changes the counter at most.
abbrev pub OnlyCounts : AutoIncrement → Type 0
OnlyCounts auto = (t : Table) (buf : Bytes) → (value : ℕ) × ((auto t buf).0 ≡ counted_to t value)

counted_to-Wf : (t : Table) (value : ℕ) → Wf t.core → Wf (counted_to t value).core
counted_to-Wf t value w = record {
  base = record {
    bound = w.bound;
    bound_le = w.bound_le;
    unbounded = w.unbounded;
    chunks_le = w.chunks_le;
    cap_le = w.cap_le;
    active_lt = w.active_lt;
    frees = w.frees;
    counted = w.counted;
    even = w.even;
  };
  chains = w.chains;
}

-- An error of the server's function ends the call; else the outcome is that of `fm_write`.
abbrev pub RowWritten : Handler → Table × Bytes × Option HaCode → HandlerOutcome → Type 0
RowWritten h (t, buf, some error) (t', h', code) = (t' ≡ t) × (h' ≡ h) × (code ≡ error)
RowWritten h (t, buf, none) (t', h', code) =
    Written t h.file buf (t', h'.file, code) × (h' ≡ record h { file = h'.file })

write_numbered-RowWritten :
    (rd : Readers) (mem : Memory) (h : Handler) (x : Table × Bytes × Option HaCode)
    → Wf x.0.core
    → ((k : ℕ) → LawfulKey (x.0.core.keydef k).ops)
    → Returns (write_numbered rd mem h x) (RowWritten h x)
unfolding write_numbered
write_numbered-RowWritten rd mem h (t, buf, some error) w law = (_, refl, (refl, refl, refl))
write_numbered-RowWritten rd mem h (t, buf, none) w law =
    let ((t', info, code), run, post) = write-Written rd mem t h.file buf w law in
    ((t', record h { file = info }, code), rw run refl, (post, refl))

-- On a well-formed table with lawful keys `write_row` ends, whatever memory the allocator grants and whatever
-- value the server chooses, where the server's function changes the counter of the table at most. An error of that
-- function is returned, with nothing written. Else, for the record as the server left it: with the code 0 the row stands in
-- a slot that held none, no other row changes, the count goes up by one and the handle is at the row in its
-- generation; with HA_ERR_FOUND_DUPP_KEY all rows and the count are as before, some row has a key of the new
-- one, and only errkey of the handle changes, to 0; with HA_ERR_RECORD_FILE_FULL or HA_ERR_OUT_OF_MEM the table
-- and the handle are as before; no other code is returned.
pub write_row-RowWritten :
    (rd : Readers) (mem : Memory) (auto : AutoIncrement) (numbered : Bool) (t : Table) (h : Handler)
    (buf : Bytes)
    → OnlyCounts auto
    → Wf t.core
    → ((k : ℕ) → LawfulKey (t.core.keydef k).ops)
    → Returns
        (write_row rd mem auto numbered t h buf)
        (RowWritten h (numbered_row auto numbered t buf))
unfolding write_row
write_row-RowWritten rd mem auto true t h buf counts w law =
    let (value, e) = counts t buf in
    write_numbered-RowWritten rd mem h (auto t buf)
      (subst (λ (u : Table). Wf u.core) (sym e) (counted_to-Wf t value w))
      (subst (λ (u : Table). (k : ℕ) → LawfulKey (u.core.keydef k).ops) (sym e) law)
write_row-RowWritten rd mem auto false t h buf counts w law =
    write_numbered-RowWritten rd mem h (t, buf, none) w law
