-- ===== src/Cif.antt =====
-- detail/cif.hpp: the tables of the CIF fields. Which children model what: Masks the masks of supported
-- fields, Offset the offsets of fields (with detail/variable_field_dispatch.hpp), Sums what the loops
-- over a table add up to, Places where the fields of a packet stand.
pub mod Masks
pub mod Offset
pub mod Sums
pub mod Places
pub mod Fields
pub mod Present
pub mod Deprecated
pub mod Versions
pub mod CompileTime
mod Tests
use vrtio.Common.{ℕ, zero, suc, List, [], ◌∷◌, Bool, true, false, ◌<<<◌, to_bool, bit_and}

-- `FieldInfo`, without the name that is there for documentation.
pub record FieldInfo : Type 0 where
  pub size_words : ℕ
  pub is_variable : Bool
  pub is_supported : Bool

abbrev row : ℕ → Bool → Bool → FieldInfo
row size variable supported = record {
  size_words = size;
  is_variable = variable;
  is_supported = supported;
}

-- A bit that the table keeps free.
abbrev reserved : FieldInfo
reserved = row 0 false false

-- `table[bit]`; the loops index within the table.
unfoldable pub field_at : List FieldInfo → ℕ → FieldInfo
field_at [] bit = reserved
field_at (info ∷ table) zero = info
field_at (info ∷ table) (suc bit) = field_at table bit

-- `cif & (1U << bit)`.
unfoldable pub has_bit : ℕ → ℕ → Bool
has_bit cif bit = to_bool (bit_and cif (1 <<< bit))

abbrev pub cif1_enable_bit : ℕ
cif1_enable_bit = 1

abbrev pub cif2_enable_bit : ℕ
cif2_enable_bit = 2

abbrev pub cif3_enable_bit : ℕ
cif3_enable_bit = 3

abbrev pub context_assoc_bit : ℕ
context_assoc_bit = 9

abbrev pub gps_ascii_bit : ℕ
gps_ascii_bit = 10

-- `CIF0_FIELDS`, bits 0 to 31.
abbrev pub cif0_fields : List FieldInfo
cif0_fields =
    reserved
    ∷ row 0 false true
    ∷ row 0 false true
    ∷ row 0 false true
    ∷ reserved
    ∷ reserved
    ∷ reserved
    ∷ row 0 false false
    ∷ reserved
    ∷ row 0 true true
    ∷ row 0 true true
    ∷ row 1 false true
    ∷ row 13 false true
    ∷ row 13 false true
    ∷ row 11 false true
    ∷ row 2 false true
    ∷ row 1 false true
    ∷ row 2 false true
    ∷ row 1 false true
    ∷ row 1 false true
    ∷ row 2 false true
    ∷ row 2 false true
    ∷ row 1 false true
    ∷ row 1 false true
    ∷ row 1 false true
    ∷ row 2 false true
    ∷ row 2 false true
    ∷ row 2 false true
    ∷ row 2 false true
    ∷ row 2 false true
    ∷ row 1 false true
    ∷ row 0 false true
    ∷ []

-- `CIF1_FIELDS`, bits 0 to 31.
abbrev pub cif1_fields : List FieldInfo
cif1_fields =
    reserved
    ∷ row 1 false true
    ∷ row 1 false true
    ∷ row 1 false true
    ∷ row 1 false true
    ∷ row 2 false true
    ∷ row 1 false true
    ∷ row 0 true false
    ∷ reserved
    ∷ row 0 true false
    ∷ row 13 false true
    ∷ row 0 true false
    ∷ reserved
    ∷ row 2 false true
    ∷ row 1 false true
    ∷ row 2 false true
    ∷ row 1 false true
    ∷ row 1 false true
    ∷ row 1 false true
    ∷ row 1 false true
    ∷ row 1 false true
    ∷ reserved
    ∷ reserved
    ∷ reserved
    ∷ row 1 false true
    ∷ row 1 false true
    ∷ row 1 false true
    ∷ row 1 false true
    ∷ row 0 true false
    ∷ row 1 false true
    ∷ row 1 false true
    ∷ row 1 false true
    ∷ []

-- `CIF2_FIELDS`, bits 0 to 31.
abbrev pub cif2_fields : List FieldInfo
cif2_fields =
    reserved
    ∷ reserved
    ∷ reserved
    ∷ row 1 false true
    ∷ row 1 false true
    ∷ row 1 false true
    ∷ row 1 false true
    ∷ row 1 false true
    ∷ row 1 false true
    ∷ row 1 false true
    ∷ row 1 false true
    ∷ row 1 false true
    ∷ row 1 false true
    ∷ row 1 false true
    ∷ row 1 false true
    ∷ row 1 false true
    ∷ row 1 false true
    ∷ row 1 false true
    ∷ row 1 false true
    ∷ row 1 false true
    ∷ row 1 false true
    ∷ row 1 false true
    ∷ row 4 false true
    ∷ row 1 false true
    ∷ row 4 false true
    ∷ row 1 false true
    ∷ row 1 false true
    ∷ row 1 false true
    ∷ row 1 false true
    ∷ row 1 false true
    ∷ row 1 false true
    ∷ row 1 false true
    ∷ []

-- `CIF3_FIELDS`, bits 0 to 31.
abbrev pub cif3_fields : List FieldInfo
cif3_fields =
    reserved
    ∷ row 1 false true
    ∷ row 1 false true
    ∷ row 1 false true
    ∷ row 1 false true
    ∷ row 1 false true
    ∷ row 1 false true
    ∷ row 1 false true
    ∷ reserved
    ∷ reserved
    ∷ reserved
    ∷ reserved
    ∷ reserved
    ∷ reserved
    ∷ reserved
    ∷ reserved
    ∷ row 0 false false
    ∷ row 0 false false
    ∷ reserved
    ∷ reserved
    ∷ row 2 false true
    ∷ row 2 false true
    ∷ row 2 false true
    ∷ row 2 false true
    ∷ row 2 false true
    ∷ row 2 false true
    ∷ row 2 false true
    ∷ row 2 false true
    ∷ reserved
    ∷ reserved
    ∷ row 2 false true
    ∷ row 2 false true
    ∷ []
