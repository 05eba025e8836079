-- ===== src/Handler/Reads/Nexts.antt =====
-- `index_next` in a write statement, also behind a delete.
use fastmem_mariadb.Prelude.{
  ℕ, ◌<◌, ◌≡◌, refl, ap, Run, ◌∙◌, true, Option, none, some, done, Returns, inl, arith, ◌>>=◌,
}
use fastmem_mariadb.Core.{Bytes}
use fastmem_mariadb.Core.Lookup.{packed_bucket}
use fastmem_mariadb.Core.Wf.{Wf}
use fastmem_mariadb.Core.Wf.Walks.{first_some}
use fastmem_mariadb.Core.Wf.Walks.Find.{key_result}
use fastmem_mariadb.Core.Wf.Walks.Next.{behind, find_next-behind}
use fastmem_mariadb.Data.{Table, Info, ha_ok, ha_key_not_found, ha_end_of_file, ha_wrong_index}
use fastmem_mariadb.Data.Read.{ReadOutcome, next_after, find_next_key}
use fastmem_mariadb.Handler.{Handler}
use fastmem_mariadb.Handler.Locked.{OnlyMine}
use fastmem_mariadb.Handler.Reads.{RowOutcome, after_read, end_of_key, index_next}
use fastmem_mariadb.Handler.Writes.{delete_handler_row}
use fastmem_mariadb.Handler.Writes.Deletes.{delete_handler_row-AfterDelete}
use fastmem_mariadb.Handler.Reads.UnderLock.{HeldRow, ReadsHeld, Looked, after_read-ReadsHeld}

next_after-ends :
    (t : Table) (inx : ℕ) (key : Bytes) (cur : Option ℕ)
    → Wf t.core
    → inx < t.core.keys
    → (r : Option (ℕ × Bytes)) × (next_after t inx key cur ≡ done r)
unfolding next_after
next_after-ends t inx key none w lt = (none, refl)
next_after-ends t inx key (some c) w lt = (
  first_some (key_result t.core inx key)
      (behind c ((w.chains inx lt).chain (packed_bucket (t.core.keydef inx) key))),
  find_next-behind t.core inx key w lt c,
)

find_next_key-Looked :
    (t : Table) (info : Info) (inx : ℕ) (key : Bytes) (r : Option (ℕ × Bytes)) (c : Option ℕ)
    → next_after t inx key c ≡ done r
    → Returns (find_next_key t info inx key c) Looked
unfolding find_next_key
find_next_key-Looked t info inx key none c run = rw run (_, refl, refl)
find_next_key-Looked t info inx key (some (i, buf)) c run = rw run (_, refl, (i, refl))

end_of_key-Looked : (r : ReadOutcome) → Looked r → Looked (end_of_key r)
unfolding end_of_key
end_of_key-Looked (info, ha_key_not_found, buf) looked = ground arith
end_of_key-Looked (info, ha_ok, some buf) looked = looked
end_of_key-Looked (info, ha_ok, none) looked = looked
end_of_key-Looked (info, _, buf) looked = looked

-- What `index_next` does by the last index.
abbrev index_at : (Table → Table) → Table → Handler → Option ℕ → Run RowOutcome
index_at others t h none = done (t, h, ha_wrong_index, none)
index_at others t h (some inx) =
    find_next_key t h.file inx h.file.lastkey h.file.current_slot >>= λ r.
    after_read ha_key_not_found others t h (end_of_key r)

index_next-at :
    (others : Table → Table) (t : Table) (h : Handler) (i : ℕ) (out : ReadOutcome)
    → h.file.lastinx ≡ some i
    → find_next_key t h.file i h.file.lastkey h.file.current_slot ≡ done out
    → index_next others t h ≡ after_read ha_key_not_found others t h (end_of_key out)
unfolding index_next
index_next-at others t h i out e run =
    ap (index_at others t h) e
    ∙ ap
        (λ (r : Run ReadOutcome).
          r >>= λ r'. after_read ha_key_not_found others t h (end_of_key r'))
        run

index_next-Held :
    (others : Table → Table) (t : Table) (h : Handler) (inx : Option ℕ)
    → h.file.lastinx ≡ inx
    → Wf t.core
    → Wf (others t).core
    → ((i : ℕ) → inx ≡ some i → i < t.core.keys)
    → h.write_stmt ≡ true
    → OnlyMine t h
    → OnlyMine (others t) h
    → Returns (index_next others t h) ReadsHeld
unfolding index_next
index_next-Held others t h none e w w' lt stmt mine mine' =
    ((t, h, ha_wrong_index, none), ap (λ (o : Option ℕ). index_at others t h o) e, (refl, mine))
index_next-Held others t h (some i) e w w' lt stmt mine mine' =
    let (r, next) = next_after-ends t i h.file.lastkey h.file.current_slot w (lt i refl) in
    let (out, run, looked) =
      find_next_key-Looked t h.file i h.file.lastkey r h.file.current_slot next in
    let (res, run', post) =
      after_read-ReadsHeld ha_key_not_found others t h (end_of_key out) (inl refl)
        (end_of_key-Looked out looked) stmt mine mine' w' in
    (res, index_next-at others t h i out e run ∙ run', post)

-- In a write statement a step to the next row with a key ends. With the code 0 the handler holds the lock
-- of the row, and the image that it returns is that of the row now, in its current generation, whatever the
-- other threads did between the step and the lock; with another code there is no image. The handler's is
-- the only row lock taken then. The table is well formed before and behind the work of the other threads,
-- which leave no row locked but the handler's, and the last index, if there is one, is a key of it.
pub index_next-ReadsHeld :
    (others : Table → Table) (t : Table) (h : Handler)
    → Wf t.core
    → Wf (others t).core
    → ((i : ℕ) → h.file.lastinx ≡ some i → i < t.core.keys)
    → h.write_stmt ≡ true
    → OnlyMine t h
    → OnlyMine (others t) h
    → Returns (index_next others t h) ReadsHeld
index_next-ReadsHeld others t h = index_next-Held others t h h.file.lastinx refl

-- A handler on no row.
index_next-no_row :
    (others : Table → Table) (t : Table) (h : Handler) (inx : ℕ)
    → h.file.lastinx ≡ some inx
    → h.file.current_slot ≡ none
    → Returns
        (index_next others t h)
        (λ (t', h', code, buf). (code ≡ ha_end_of_file) × (buf ≡ none))
unfolding index_next find_next_key next_after end_of_key after_read
index_next-no_row others t h inx last off = rw (last, index_next, off) (_, refl, (refl, refl))

-- In a write statement, behind the delete of the row whose lock the handler holds and which a lookup with a key
-- has found, `index_next` ends with the code for the end of the rows and no row, whatever other rows have the
-- key. The table was well formed before the delete, and the old record is that of the row.
pub index_next-delete_handler_row :
    (others others' : Table → Table) (t : Table) (h : Handler) (buf : Bytes) (inx : ℕ)
    → Wf t.core
    → h.write_stmt ≡ true
    → (held : HeldRow t h buf) → h.file.lastinx ≡ some inx
    → Returns
        (delete_handler_row t h buf >>= λ (t', h', code). index_next others (others' t') h')
        (λ (t', h', code, rec). (code ≡ ha_end_of_file) × (rec ≡ none))
index_next-delete_handler_row others others' t h buf inx w stmt held last =
    let ((t', h', code), run, (ok, rows, gen, count, unlocked, free, off, same)) =
      delete_handler_row-AfterDelete t h buf w stmt held in
    let (res, run', post) = index_next-no_row others (others' t') h' inx (same ∙ last) off in
    (res, rw run run', post)
