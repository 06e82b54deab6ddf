-- ===== src/FieldTraits/Tables.antt =====
-- The traits of the fields against the tables of cif.hpp.
use vrtio.Common.{
  ℕ, List, [], ◌∷◌, Bool, true, false, not, ◌&&◌, ◌||◌, ◌==◌, ◌≤◌, ◌<◌, ◌≡◌, refl, bit_of,
  if◌then◌else◌, arith,
}
use mathlib.Core.Option.{Option, none, some}
use vrtio.Common.Fields.{all_below, all_below-holds}
use vrtio.Cif.{FieldInfo, field_at}
use vrtio.RuntimeContext.Access.{field_table}
use vrtio.FieldTraits.{
  FieldTrait, Shape, FixedShape, fixed, word, long, view, association_lists, gps_text,
}
use vrtio.FieldTraits.Cif0.{cif0_traits}
use vrtio.FieldTraits.Cif1.{cif1_traits}
use vrtio.FieldTraits.Cif2.{cif2_traits}
use vrtio.FieldTraits.Cif3.{cif3_traits}

-- `FieldTraits<cif, bit>`, where there is a specialisation.
unfoldable pub find_trait : List (ℕ × FieldTrait) → ℕ → Option FieldTrait
find_trait [] bit = none
find_trait ((b, t) ∷ traits) bit =
    let rest = find_trait traits bit in if b == bit then some t else rest

unfoldable pub field_traits : ℕ → ℕ → Option FieldTrait
unfolding find_trait
field_traits cif bit =
    if cif == 0
    then find_trait cif0_traits bit
    else if cif == 1
    then find_trait cif1_traits bit
    else if cif == 2
    then find_trait cif2_traits bit
    else if cif == 3
    then find_trait cif3_traits bit
    else none

-- The words of a value type, without those of a variable length.
abbrev pub fixed_words : FixedShape → ℕ
fixed_words word = 1
fixed_words long = 2
fixed_words (view n) = n

abbrev pub shape_words : Shape → ℕ
shape_words (fixed s) = fixed_words s
shape_words _ = 0

abbrev pub is_variable_shape : Shape → Bool
is_variable_shape association_lists = true
is_variable_shape gps_text = true
is_variable_shape _ = false

-- The bits of CIF0 that say which other CIF words there are.
abbrev pub is_enable : ℕ → ℕ → Bool
is_enable cif bit = cif == 0 && (bit == 1 || bit == 2 || bit == 3)

-- A field that the table supports has a trait, of the kind and with the words that the table says; a bit
-- that it does not support has none.
abbrev pub Matches : ℕ → ℕ → FieldInfo → Option FieldTrait → Type 0
Matches cif bit e none = (e.is_supported && not (is_enable cif bit)) ≡ false
Matches cif bit e (some t) =
    ((e.is_supported && not (is_enable cif bit)) ≡ true)
    × (e.is_variable ≡ is_variable_shape t.shape)
    × (e.size_words ≡ shape_words t.shape)

abbrev agrees : ℕ → ℕ → FieldInfo → Option FieldTrait → Bool
agrees cif bit e none = not (e.is_supported && not (is_enable cif bit))
agrees cif bit e (some t) =
    (e.is_supported && not (is_enable cif bit))
    && ((bit_of e.is_variable == bit_of (is_variable_shape t.shape))
        && (e.size_words == shape_words t.shape))

agrees-Matches :
    (cif bit : ℕ) (e : FieldInfo) (t : Option FieldTrait)
    → agrees cif bit e t ≡ true
    → Matches cif bit e t
agrees-Matches cif bit e none h = ground arith
agrees-Matches cif bit e (some t) h =
    split e.is_supported (is_enable cif bit) e.is_variable (is_variable_shape t.shape) e.size_words
      (shape_words t.shape) h
  where
    split :
        (s n v v' : Bool) (w w' : ℕ)
        → ((s && not n) && ((bit_of v == bit_of v') && (w == w'))) ≡ true
        → ((s && not n) ≡ true) × (v ≡ v') × (w ≡ w')
    split s n v v' w w' h = ground arith

entries_agree : ℕ → Bool
unfolding field_at field_table field_traits
entries_agree cif =
    all_below 32 (λ bit. agrees cif bit (field_at (field_table cif) bit) (field_traits cif bit))

tables_agree : all_below 4 entries_agree ≡ true
unfolding all_below entries_agree
tables_agree = refl

-- For every bit of the four CIF words the table of cif.hpp and the traits of field_traits.hpp agree: the
-- supported fields, without the bits that enable a CIF word, are those that have a trait, a trait has a
-- variable length where the table says so, and its value type has the words of the table.
pub field_traits-Matches :
    (cif bit : ℕ)
    → cif ≤ 3
    → bit < 32
    → Matches cif bit (field_at (field_table cif) bit) (field_traits cif bit)
unfolding entries_agree
field_traits-Matches cif bit known inside = agrees-Matches cif bit _ _ (
    all_below-holds 32 (λ b. agrees cif b (field_at (field_table cif) b) (field_traits cif b)) bit
      (all_below-holds 4 entries_agree cif tables_agree (omega arith)) inside)
