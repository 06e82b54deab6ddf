-- ===== src/FieldTraits.antt =====
-- detail/field_traits.hpp and detail/field_values.hpp: how the value of a CIF field is read and written.
-- The traits of the fields differ in their value type alone, which is the `Shape` here.
pub mod Cif0
pub mod Cif1
pub mod Cif2
pub mod Cif3
pub mod Tables
pub mod RoundTrip
pub mod Encoded
mod Tests
use Prim.Native.String.{String}
use vrtio.Common.{
  ℕ, ◌+◌, ◌*◌, ◌/◌, ◌%◌, ◌^◌, bit_and, ◌>>>◌, u16, List, Bool, true, false, slice, Run, done, ◌>>=◌,
}
use vrtio.Buffer.{Endian, read_word, read_u32, read_u64, write_u32, write_u64, copy_from, copy_to}

-- The value types `uint32_t`, `uint64_t` and `FieldView<Words>` of the traits that have a `write`.
pub data FixedShape : Type 0 where
  word long : FixedShape
  view : ℕ → FixedShape

pub data Shape : Type 0 where
  fixed : FixedShape → Shape
  association_lists gps_text flag : Shape

pub record FieldTrait : Type 0 where
  pub name : String
  pub shape : Shape
  -- `to_interpreted` and `from_interpreted` are there; they compute on `double`.
  pub has_interpreted : Bool

abbrev pub trait : String → Shape → FieldTrait
trait n s = record { name = n; shape = s; has_interpreted = false }

abbrev pub interpreted_trait : String → Shape → FieldTrait
interpreted_trait n s = record { name = n; shape = s; has_interpreted = true }

-- `FieldView<Words>`; `base` is what can be read from the pointer on.
pub record FieldView : Type 0 where
  pub base : List ℕ
  pub offset : ℕ
  pub words : ℕ

pub record VariableListView : Type 0 where
  pub base : List ℕ
  pub offset : ℕ
  pub count : ℕ

pub record GpsAsciiView : Type 0 where
  pub base : List ℕ
  pub offset : ℕ
  pub char_count : ℕ

pub data FixedValue : Type 0 where
  word_value : ℕ → FixedValue
  long_value : ℕ → FixedValue
  view_value : FieldView → FixedValue

pub data Value : Type 0 where
  fixed_value : FixedValue → Value
  lists_value : VariableListView → VariableListView → Value
  text_value : GpsAsciiView → Value
  flag_value : Bool → Value

module _ (host : Endian) where
  -- `word(index)`, `word64(index)` and `operator[](index)` of the views.
  unfoldable pub view_word : FieldView → ℕ → Run ℕ
  view_word f index = read_word host 4 f.base (f.offset + index * 4)

  unfoldable pub view_word64 : FieldView → ℕ → Run ℕ
  view_word64 f index = read_word host 8 f.base (f.offset + index * 4)

  unfoldable pub list_element : VariableListView → ℕ → Run ℕ
  list_element l index = read_word host 4 l.base (l.offset + index * 4)

  -- `as_string()`: the characters behind the count word.
  unfoldable pub as_string : GpsAsciiView → Run (List ℕ)
  as_string g = copy_from g.base (g.offset + 4) g.char_count

  -- `read` and `write` of the traits with a fixed size.
  unfoldable pub read_fixed : FixedShape → List ℕ → ℕ → Run FixedValue
  read_fixed word base offset = do v ← read_u32 host base offset; done (word_value v)
  read_fixed long base offset = do v ← read_u64 host base offset; done (long_value v)
  read_fixed (view n) base offset =
      done (view_value (record { base = base; offset = offset; words = n }))

  unfoldable pub write_fixed : FixedValue → List ℕ → ℕ → Run (List ℕ)
  write_fixed (word_value v) base offset = write_u32 host base offset v
  write_fixed (long_value v) base offset = write_u64 host base offset v
  write_fixed (view_value f) base offset = do
    bytes ← copy_from f.base f.offset (f.words * 4)
    copy_to base offset bytes

  unfoldable pub read_lists : List ℕ → ℕ → Run Value
  read_lists base offset = do
    counts ← read_u32 host base offset
    done (
        let streams = u16 (counts >>> 16) in
        let contexts = u16 (bit_and counts 0xFFFF) in
        lists_value (record { base = base; offset = offset + 4; count = streams })
          (record { base = base; offset = offset + 4 + streams * 4; count = contexts }))

  unfoldable pub read_text : List ℕ → ℕ → Run Value
  read_text base offset = do
    count ← read_u32 host base offset
    done (text_value (record { base = base; offset = offset; char_count = count }))

  unfoldable pub read : Shape → List ℕ → ℕ → Run Value
  read (fixed s) base offset = do v ← read_fixed s base offset; done (fixed_value v)
  read association_lists base offset = read_lists base offset
  read gps_text base offset = read_text base offset
  read flag base offset = done (flag_value true)
