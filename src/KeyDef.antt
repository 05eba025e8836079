-- ===== src/KeyDef.antt =====
-- The key definitions of fm_def.h, with MariaDB's key segment `HA_KEYSEG` and the functions of a
-- character set that the source calls, which are MariaDB's and stay a parameter.
use fastmem_mariadb.Prelude.{ℕ, Bool, List, [], ◌∷◌}
use fastmem_mariadb.Core.{Bytes}

-- The state `(m_nr1, m_nr2)` of `my_hasher_st`.
abbrev pub HashState : Type 0
HashState = ℕ × ℕ

-- `charpos text num` is `my_ci_charpos`: how many bytes the first `num` characters of the text take.
-- `hash_sort` is `my_ci_hash_sort`, and `collate` is `my_ci_strnncollsp`, which is 0 for equal texts.
pub record Charset : Type 0 where
  pub mbmaxlen : ℕ
  pub charpos : Bytes → ℕ → ℕ
  pub hash_sort : HashState → Bytes → HashState
  pub collate : Bytes → Bytes → ℕ

-- The types of a segment that the source tells apart.
pub data SegType : Type 0 where
  text vartext1 vartext2 varbinary1 varbinary2 bit binary : SegType

-- `HA_KEYSEG`. `null_bit` is a mask, 0 for a column that is not nullable.
pub record KeySeg : Type 0 where
  pub type : SegType
  pub start : ℕ
  pub length : ℕ
  pub null_bit : ℕ
  pub null_pos : ℕ
  pub bit_start : ℕ
  pub bit_length : ℕ
  pub bit_pos : ℕ
  pub charset : Charset

-- `FM_KEYDEF`, with the flags that the source reads: `HA_NOSAME` and `HA_NULL_PART_KEY`.
pub record KeyDef : Type 0 where
  pub segs : List KeySeg
  pub nosame : Bool
  pub null_part_key : Bool
  pub length : ℕ

-- `keydef->seg->start`.
abbrev pub first_start : List KeySeg → ℕ
first_start [] = 0
first_start (s ∷ ss) = s.start
