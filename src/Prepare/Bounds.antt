-- ===== src/Prepare/Bounds.antt =====
-- The limits that `fm_prepare_create_info` sets.
use mathlib.Core.Path.{subst}
use native.Mathlib.Nat.{div-mul-le_self, mul-le-mul_right}
use fastmem_mariadb.Prelude.{
  ℕ, zero, suc, ◌*◌, ◌/◌, ◌≤◌, ◌<◌, ◌≡◌, ◌≢◌, sym, Bool, false, not, ◌&&◌, List, [], ◌∷◌, ◌==◌, ltb,
  if◌then◌else◌, length, Bool-cases, inl, inr, arith,
}
use fastmem_mariadb.KeyDef.{Charset}
use fastmem_mariadb.Registry.{CreateInfo}
use fastmem_mariadb.Prepare.{
  KeyTypes, Key, SqlTable, prepared, make_keydef, keydef_at, mem_per_row, estimate, longest,
  prepare_create_info, has_btree,
}

-- What is prepared, where it is.
pub prepared-ci :
    (ha : KeyTypes) (cb : Charset) (t : SqlTable) (internal granted : Bool) (ci : CreateInfo)
    → prepare_create_info ha cb t internal granted ≡ prepared ci
    → (ci.keydef ≡ keydef_at ha cb t.key_info)
      × (ci.keys ≡ length t.key_info)
      × (ci.max_key_length ≡ longest ha cb t.key_info 0)
      × (ci.max_records ≡ estimate t)
      × (has_btree t.key_info ≡ false)
unfolding prepare_create_info
prepared-ci ha cb t internal granted ci e = ground arith

longest-ge : (ha : KeyTypes) (cb : Charset) (keys : List Key) (n : ℕ) → n ≤ longest ha cb keys n
unfolding longest
longest-ge ha cb [] n = omega arith
longest-ge ha cb (key ∷ keys) n =
    ground (arith, longest-ge ha cb keys n, longest-ge ha cb keys (make_keydef ha cb key).length)

longest-bounds :
    (ha : KeyTypes) (cb : Charset) (keys : List Key) (n k : ℕ)
    → k < length keys
    → (keydef_at ha cb keys k).length ≤ longest ha cb keys n
unfolding longest keydef_at
longest-bounds ha cb [] n k lt = absurd (omega arith)
longest-bounds ha cb (key ∷ keys) n zero lt =
    ground (arith, longest-ge ha cb keys n, longest-ge ha cb keys (make_keydef ha cb key).length)
longest-bounds ha cb (key ∷ keys) n (suc k) lt =
    longest-bounds ha cb keys
      (if ltb n (make_keydef ha cb key).length then (make_keydef ha cb key).length else n) k
      (omega arith)

abbrev pub max_table_size : SqlTable → ℕ
max_table_size t = if ltb t.max_heap_table_size 8 then 8 else t.max_heap_table_size

clamp-bounds :
    (fit rows m size : ℕ)
    → fit * m ≤ size
    → let limited = if not (rows == 0) && ltb rows fit then rows else fit in
      let e = if limited == 0 then 1 else limited in
      (0 < e) × (rows ≢ 0 → e ≤ rows) × (e ≢ 1 → e * m ≤ size)
clamp-bounds fit rows m size room = elim (Bool-cases (not (rows == 0) && ltb rows fit)) [
  | inl clamped ↦
      let less : rows * m ≤ fit * m = mul-le-mul_right m (ground (arith, clamped)) in
      rw clamped (ground arith, (λ some_rows. ground arith), (λ more. ground arith))
  | inr free ↦ rw free (ground arith, (λ some_rows. ground (arith, free)), (λ more. ground arith))
]

pub estimate-bounds :
    (t : SqlTable)
    → (0 < estimate t)
      × (t.max_rows ≢ 0 → estimate t ≤ t.max_rows)
      × (estimate t ≢ 1 → estimate t * mem_per_row t ≤ max_table_size t)
unfolding estimate
estimate-bounds t =
    let size = max_table_size t in
    clamp-bounds (size / mem_per_row t) t.max_rows (mem_per_row t) size
      (div-mul-le_self size (mem_per_row t))

abbrev pub Bounded : KeyTypes → Charset → SqlTable → CreateInfo → Type 0
Bounded ha cb t ci =
    (0 < ci.max_records)
    × (t.max_rows ≢ 0 → ci.max_records ≤ t.max_rows)
    × (ci.max_records ≢ 1 → ci.max_records * mem_per_row t ≤ max_table_size t)
    × ((k : ℕ) → k < ci.keys → (ci.keydef k).length ≤ ci.max_key_length)

-- Where the information for a create is prepared, the limit of rows is at least 1, at most `max_rows` where
-- the table sets that, and its rows fit into the maximal table size unless it is 1; and no key is
-- longer than `max_key_length`.
pub prepare_create_info-Bounded :
    (ha : KeyTypes) (cb : Charset) (t : SqlTable) (internal granted : Bool) (ci : CreateInfo)
    → prepare_create_info ha cb t internal granted ≡ prepared ci
    → Bounded ha cb t ci
prepare_create_info-Bounded ha cb t internal granted ci e =
    let (defs, keys, longest_key, records, _) = prepared-ci ha cb t internal granted ci e in
    let (some_row, rows, size) = estimate-bounds t in
    (
      ground (arith, records, some_row),
      (λ limit. ground (arith, records, rows limit)),
      (λ more. subst (λ n. n ≢ 1 → n * mem_per_row t ≤ max_table_size t) (sym records) size more),
      (λ k lt.
          subst (λ d. (d k).length ≤ ci.max_key_length) (sym defs)
            (subst (λ n. (keydef_at ha cb t.key_info k).length ≤ n) (sym longest_key)
              (longest-bounds ha cb t.key_info 0 k (omega (arith, keys))))),
    )
