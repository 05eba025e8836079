-- ===== src/Hash/Callbacks.antt =====
-- The callbacks of a key as a record, and `fm_key_ops_init`, which sets them.
use fastmem_mariadb.Prelude.{ℕ, ◌%◌, ltb, if◌then◌else◌}
use fastmem_mariadb.Core.{Share, KeyOps, KeyCore, u32_mod}
use fastmem_mariadb.KeyDef.{KeyDef}
use fastmem_mariadb.Data.{Table}
use fastmem_mariadb.Hash.{Server, rec_hashnr, hashnr, rec_key_cmp, key_cmp, if_null_in_key}

-- `fm_ops_hash_rec` to `fm_ops_has_null_part`.
abbrev pub key_ops : Server → KeyDef → KeyOps
key_ops sv kd = record {
  hash_rec = λ rec. (rec_hashnr sv kd.segs rec sv.hasher).0 % u32_mod;
  hash_key = λ key. (hashnr sv kd.segs key sv.hasher).0 % u32_mod;
  cmp_rec_rec = λ a b. rec_key_cmp sv kd.segs a b;
  cmp_rec_key = λ rec key. key_cmp sv kd.segs rec key;
  has_null_part = λ rec. if_null_in_key kd.segs rec;
}

-- `fm_key_ops_init`.
unfoldable pub key_ops_init : Server → Table → Table
key_ops_init sv t =
    let core = t.core in
    let keydef = λ (k : ℕ).
      if ltb k core.keys
      then (let kc : KeyCore = record (core.keydef k) {
        ops = key_ops sv (t.keydef k);
        unique = (t.keydef k).nosame;
      } in
          kc)
      else core.keydef k in
    let core' : Share = record core { keydef = keydef } in record t { core = core' }
