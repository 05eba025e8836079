-- ===== src/Tests/Table.antt =====
-- Test data: a table of one row with one unique key, the first byte of the record.
use fastmem_mariadb.Prelude.{
  ℕ, ◌<◌, ◌≡◌, refl, true, false, none, [], ◌∷◌, Run, done, Returns-at, ◌==◌, if◌then◌else◌, arith,
}
use fastmem_mariadb.Core.{Share, KeyOps, KeyCore, Bytes, err_ok, init_share, slot_count}
use fastmem_mariadb.Core.Alloc.{
  Memory, alloc_slot, alloc_fresh, grow_chunk, push_down, free_slot, alloc_grown,
}
use fastmem_mariadb.Core.Chain.{walk, chain_link}
use fastmem_mariadb.Core.Lookup.{dup_check}
use fastmem_mariadb.Core.Delete.{is_current}
use fastmem_mariadb.Core.Insert.{inserted, insert_row, link_keys, publish, insert_at}
use fastmem_mariadb.Core.Insert.Adds.{Added, insert_row-Inserted}
use fastmem_mariadb.Core.Wf.{Wf, LawfulKey}
use fastmem_mariadb.Core.Wf.Fresh.{init_share-Wf}
use fastmem_mariadb.Core.Update.{update_row_locked}
use fastmem_mariadb.Core.Update.Changes.{Updated, update_row_locked-Updated}
use fastmem_mariadb.Core.Update.{write_image, changed_keys, changed_loop, update_locked}

abbrev pub first_byte : Bytes → ℕ
first_byte [] = 0
first_byte (x ∷ xs) = x

abbrev pub differ : Bytes → Bytes → ℕ
differ a b = if first_byte a == first_byte b then 0 else 1

abbrev pub byte_key : KeyOps
byte_key = record {
  hash_rec = first_byte;
  hash_key = first_byte;
  cmp_rec_rec = differ;
  cmp_rec_key = differ;
  has_null_part = λ r. first_byte r == 0;
}

pub byte_key-LawfulKey : LawfulKey byte_key
byte_key-LawfulKey = record {
  hash-rec_rec = λ a b. ground arith;
  hash-rec_key = λ a b. ground arith;
  cmp_symm = λ a b. ground arith;
  cmp_trans = λ a b c. ground arith;
  null_congr = λ a b. ground arith;
}

abbrev pub mem : Memory
mem = record { grants = λ n. true; garbage = λ i. [] }

abbrev pub keydef : ℕ → KeyCore
keydef k = record { ops = byte_key; unique = true; nbuckets = 4 }

-- No row.
abbrev pub s0 : Share
s0 = init_share 2 1 3 4 keydef

pub lawful : (k : ℕ) → LawfulKey (s0.keydef k).ops
unfolding init_share
lawful k = byte_key-LawfulKey

pub s0-Wf : Wf s0
s0-Wf = init_share-Wf 2 1 3 4 keydef (omega arith)

abbrev pub share_of : {A : Type 0} → Share → Run (Share × A) → Share
share_of d (done (s, a)) = s
share_of d _ = d

abbrev pub rec_a : Bytes
rec_a = 7 ∷ 1 ∷ []

-- One row.
abbrev pub s1 : Share
s1 = share_of s0 (insert_row mem s0 rec_a)

pub insert_a : insert_row mem s0 rec_a ≡ done (s1, inserted 0)
unfolding insert_row alloc_slot init_share alloc_fresh slot_count grow_chunk link_keys push_down
    free_slot dup_check walk
insert_a = refl

pub s1-Added : Added s0 rec_a 0 s1
s1-Added =
    Returns-at (insert_row mem s0 rec_a) (s1, inserted 0)
      (insert_row-Inserted mem s0 rec_a s0-Wf lawful) insert_a

pub is_current_a : is_current (s1.slot 0) 0 ≡ true
unfolding is_current insert_row alloc_slot init_share alloc_fresh slot_count grow_chunk link_keys
    push_down free_slot dup_check walk publish insert_at chain_link
is_current_a = refl

pub unlocked_s1 : (i : ℕ) → (s1.slot i).wlock ≡ false
unfolding insert_row alloc_slot init_share alloc_fresh slot_count grow_chunk link_keys push_down
    free_slot dup_check walk publish insert_at chain_link alloc_grown
unlocked_s1 i = ground arith

pub image_a : (s1.slot 0).image ≡ rec_a
unfolding insert_row alloc_slot init_share alloc_fresh slot_count grow_chunk link_keys push_down
    free_slot dup_check walk publish insert_at chain_link
image_a = refl

pub lawful_s1 : (k : ℕ) → LawfulKey (s1.keydef k).ops
unfolding insert_row alloc_slot init_share alloc_fresh slot_count grow_chunk link_keys push_down
    free_slot dup_check walk publish insert_at chain_link alloc_grown
lawful_s1 k = byte_key-LawfulKey

pub buckets_s1 : (k : ℕ) → 0 < (s1.keydef k).nbuckets
unfolding insert_row alloc_slot init_share alloc_fresh slot_count grow_chunk link_keys push_down
    free_slot dup_check walk publish insert_at chain_link alloc_grown
buckets_s1 k = omega arith

pub keys_s1 : s1.keys ≡ 1
unfolding insert_row alloc_slot init_share alloc_fresh slot_count grow_chunk link_keys push_down
    free_slot dup_check walk publish insert_at chain_link alloc_grown
keys_s1 = refl

abbrev pub rec_b : Bytes
rec_b = 9 ∷ 2 ∷ []

-- Another thread has changed the second column of row 0, and holds no lock any more.
abbrev pub rec_c : Bytes
rec_c = 7 ∷ 5 ∷ []

abbrev pub s_c : Share
s_c = write_image s1 0 rec_c

pub update_c : update_row_locked s1 0 0 rec_a rec_c ≡ done (s_c, err_ok, none)
unfolding update_row_locked is_current changed_keys changed_loop update_locked insert_row alloc_slot
    init_share alloc_fresh slot_count grow_chunk link_keys push_down free_slot dup_check walk
    publish insert_at chain_link
update_c = refl

pub s_c-Updated : Updated s1 0 rec_a rec_c (s_c, err_ok, none)
s_c-Updated =
    Returns-at (update_row_locked s1 0 0 rec_a rec_c) (s_c, err_ok, none)
      (update_row_locked-Updated s1 0 0 rec_a rec_c s1-Added.wf (omega (arith, keys_s1)) lawful_s1
        is_current_a image_a)
      update_c

pub unlocked_s_c : (i : ℕ) → (s_c.slot i).wlock ≡ false
unfolding write_image
unlocked_s_c i = ground (arith, unlocked_s1 i)
