-- ===== src/Lib.antt =====
-- FASTMEM, an in-memory storage engine for MariaDB.
--
-- The program. fm_core.h is the concurrency core: a table is a share with chunks of 4096 slots, a
-- freelist, and hash chains of slots for each key. fm_data.cc is the layer of open handles, which
-- remember the slot and the generation of the current row. ha_fastmem.cc is the handler that the
-- server calls; in a write statement it holds the lock of the current row from the read to the write.
-- fm_hash.cc supplies the callbacks of the keys, and fm_create.cc opens and creates shares.
--
-- The files.
-- - Core.antt: the structs and the inline helpers of fm_core.h. Its children hold the functions:
--   Core/Alloc (fm_core_grow_chunk, alloc_slot, free_slot), Core/Chain (chain_unlink, chain_link),
--   Core/Lookup (read_row, scan_next, find, find_next, dup_check), Core/Insert (insert_row),
--   Core/Update (update_row, update_row_locked) with its lockset in Core/Update/Locks, Core/Delete
--   (delete_row, delete_row_locked), Core/Clear (clear), Core/AutoInc (auto_inc_reserve,
--   auto_inc_observe). Core/Seqlock is one slot under any number of threads, Core/AutoInc/Threads the
--   auto-increment counter, and Core/Locking the row locks, the bucket locks and struct_mutex.
--   Core/Blocks is the memory of a share (init_share, grow_chunk, free_share). Core/Wf says when a
--   share is well formed, Core/Wf/Unique when its keys are unique, Core/Wf/Walks what the lookups
--   find, Core/Update/Agrees compares the two routines of an update, Core/Gone has the calls on a row
--   that is gone, Core/History puts the operations in sequence, Core/Rows is the abstract table, with
--   a step for each call and its result, and Core/Refines relates the two.
-- - KeyDef.antt: key definitions and segments (fm_def.h, HA_KEYSEG).
-- - Hash.antt with Hash/Callbacks and Hash/MakeKey: fm_hash.cc. The other children prove that the callbacks
--   are lawful and that a packed key is found.
-- - Prepare.antt: fm_prepare_create_info of fm_create.cc, from the server's table to key definitions.
-- - Registry.antt: the rest of fm_create.cc, the list of shares with their open counts; Registry/Handles has
--   the open handles and the calls by name.
-- - Data.antt with Data/Read, Data/Write and Data/AutoValue: the functions of fm_data.cc on an open
--   handle (FM_INFO) and the share.
-- - Handler.antt with Handler/Reads, Handler/Writes and Handler/Unique: the row lock of ha_fastmem.cc and
--   the calls that take and release it. Handler/Tables: its open, create and drop_table. Handler/Estimates:
--   info and records_in_range. Handler/Server: write_row, positions and the calls that fill the server's fields.
-- - Standalone.antt: the keys of standalone-test/main.cpp.
-- - Tests.antt and its children: the theorems at concrete inputs.
--
-- State. A share is a record; an array is a function of the index, and a slot number that may be
-- FM_NULL_SLOT is an Option. An operation takes the share and returns the new one. Bucket locks and
-- struct_mutex live within one call and are left out of the share; the row lock is a field of the slot.
-- A run of sequential code ends with a value or has no result: it has none where it waits for a lock
-- that is held or for a sequence counter that is odd, and where C leaves the behaviour undefined.
--
-- Numbers. fm_u32 and fm_u64 are natural numbers with the wrap-around written out.
--
-- Fuel. A walk along a chain has one round more than there are slots, which is enough as a chain has
-- no slot twice; the theorems prove that the runs end. The loop that doubles the bucket count has 11
-- rounds, one more than the doublings from 2 ^ 10 to 2 ^ 20.
--
-- The slot under threads. A state is the slot and a place in the code for each thread; a step is one
-- access of one thread. Two counters that are no part of the program count the steps of the sequence
-- counter, which wraps round, and the bytes that inserts store.
--
-- The counter under threads. A load may give any value that the counter has had, an exchange compares with
-- the value now, and may fail for no reason. The locks under threads. A call is the list of the locks that it
-- takes and releases; what it finds in the table is an argument. A thread works with one handle.
--
-- Registry. Shares and handles stand in memory under addresses, and free memory holds none. A caller of
-- fm_create that asked for a pin holds it until it opens the share or releases it; the pins are a
-- function beside the registry. fm_create has no result where the chunk array of a share with keys is
-- refused, as fm_core_free_share then reads a key array that is not there; a core that gets its chunk array
-- is taken to get the arrays of its keys too, and Core/Blocks has the case that it does not.
--
-- Parameters. To the core the key callbacks are a record KeyOps with the laws LawfulKey, which fm_hash.cc
-- fills; character sets are a record Charset, and MariaDB's hash accumulator and readers a record Server;
-- the values of its key types are a record KeyTypes; the core's allocator is a record Memory; MariaDB's readers of numbers are a record Readers; what other threads have done before a row
-- lock is granted is a function on the table.
--
-- Not modelled. The chains under threads: what a walk sees while other threads link and unlink; Core/Locking
-- has the order of their locks. Memory orders that are weaker than program order in a slot. A thread that
-- writes through two handles at once. fm_core_update_row and fm_core_delete_row in Core/Locking, as the handler
-- calls the variants under the row lock. clone, costs, flags and the plugin descriptor of the handler, which
-- pass values between the server's structures; the server's structures beyond the fields that are read; the
-- threads of the standalone test.
pub mod Prelude
pub mod Core
pub mod KeyDef
pub mod Data
pub mod Hash
pub mod Registry
pub mod Prepare
pub mod Handler
pub mod Standalone
pub mod Tests
