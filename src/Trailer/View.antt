-- ===== src/Trailer/View.antt =====
-- detail/trailer_view.hpp: `TrailerView`, `MutableTrailerView` and `TrailerBuilder`. A view is a buffer
-- and the place of the word in it. The eight named getters, setters and clears differ in their two bits
-- alone, and so do those of the four flags: here the name is an argument.
use vrtio.Common.{ℕ, List, Bool, true, u8, if◌then◌else◌, Run, done, ◌>>=◌}
use mathlib.Core.Option.{Option, none, some}
use vrtio.Buffer.{Endian, read_u32, write_u32}
use vrtio.Trailer.{
  Indicator, Flag, enable_bit, indicator_bit, flag_bit, e_bit, extract_bit, set_bit, clear_bit,
  extract_field, set_field, context_packet_count_shift, context_packet_count_mask,
}

-- What the getters make of the word.
abbrev pub count_of : ℕ → Option ℕ
count_of value =
    if extract_bit e_bit value
    then some (u8 (extract_field context_packet_count_shift context_packet_count_mask value))
    else none

abbrev pub indicator_of : ℕ → ℕ → ℕ → Option Bool
indicator_of enable indicator value =
    if extract_bit enable value then some (extract_bit indicator value) else none

-- What the setters of the mutable view do to the word.
abbrev pub with_count : ℕ → ℕ → ℕ
with_count count value =
    set_field context_packet_count_shift context_packet_count_mask (set_bit e_bit value true) count

abbrev pub with_indicator : ℕ → ℕ → Bool → ℕ → ℕ
with_indicator enable indicator x value = set_bit indicator (set_bit enable value true) x

module _ (host : Endian) where
  -- `TrailerView`.
  unfoldable pub raw : List ℕ → ℕ → Run ℕ
  raw buffer word_ptr = read_u32 host buffer word_ptr

  unfoldable pub context_packet_count : List ℕ → ℕ → Run (Option ℕ)
  context_packet_count buffer word_ptr = do value ← raw buffer word_ptr; done (count_of value)

  unfoldable pub get_indicator : ℕ → ℕ → List ℕ → ℕ → Run (Option Bool)
  get_indicator enable indicator buffer word_ptr = do
    value ← raw buffer word_ptr
    done (indicator_of enable indicator value)

  unfoldable pub named : Indicator → List ℕ → ℕ → Run (Option Bool)
  named i buffer word_ptr = get_indicator (enable_bit i) (indicator_bit i) buffer word_ptr

  unfoldable pub flag : Flag → List ℕ → ℕ → Run Bool
  flag f buffer word_ptr = do value ← raw buffer word_ptr; done (extract_bit (flag_bit f) value)

  -- `MutableTrailerView`: each setter returns the buffer that it leaves.
  unfoldable pub set_raw : ℕ → List ℕ → ℕ → Run (List ℕ)
  set_raw value buffer word_ptr = write_u32 host buffer word_ptr value

  unfoldable pub clear : List ℕ → ℕ → Run (List ℕ)
  clear buffer word_ptr = set_raw 0 buffer word_ptr

  unfoldable pub modify : (ℕ → ℕ) → List ℕ → ℕ → Run (List ℕ)
  modify fn buffer word_ptr = do value ← raw buffer word_ptr; set_raw (fn value) buffer word_ptr

  unfoldable pub set_context_packet_count : ℕ → List ℕ → ℕ → Run (List ℕ)
  set_context_packet_count count buffer word_ptr = modify (with_count count) buffer word_ptr

  unfoldable pub clear_context_packet_count : List ℕ → ℕ → Run (List ℕ)
  clear_context_packet_count buffer word_ptr = modify (clear_bit e_bit) buffer word_ptr

  unfoldable pub set_indicator : ℕ → ℕ → Bool → List ℕ → ℕ → Run (List ℕ)
  set_indicator enable indicator x buffer word_ptr =
      modify (with_indicator enable indicator x) buffer word_ptr

  unfoldable pub clear_enable : ℕ → List ℕ → ℕ → Run (List ℕ)
  clear_enable enable buffer word_ptr = modify (clear_bit enable) buffer word_ptr

  unfoldable pub set_named : Indicator → Bool → List ℕ → ℕ → Run (List ℕ)
  set_named i x buffer word_ptr = set_indicator (enable_bit i) (indicator_bit i) x buffer word_ptr

  unfoldable pub clear_named : Indicator → List ℕ → ℕ → Run (List ℕ)
  clear_named i buffer word_ptr = clear_enable (enable_bit i) buffer word_ptr

  unfoldable pub set_flag : Flag → Bool → List ℕ → ℕ → Run (List ℕ)
  set_flag f x buffer word_ptr = modify (λ v. set_bit (flag_bit f) v x) buffer word_ptr

  unfoldable pub clear_flag : Flag → List ℕ → ℕ → Run (List ℕ)
  clear_flag f buffer word_ptr = modify (clear_bit (flag_bit f)) buffer word_ptr

-- `TrailerBuilder`: its value, and the operations that return the builder.
pub record TrailerBuilder : Type 0 where
  pub value : ℕ

unfoldable pub build_raw : ℕ → TrailerBuilder → TrailerBuilder
build_raw value b = record { value = value }

unfoldable pub build_clear : TrailerBuilder → TrailerBuilder
build_clear b = record { value = 0 }

unfoldable pub build_count : ℕ → TrailerBuilder → TrailerBuilder
build_count count b =
    let set_e = set_bit e_bit b.value true in
    record { value = set_field context_packet_count_shift context_packet_count_mask set_e count }

unfoldable pub build_named : Indicator → Bool → TrailerBuilder → TrailerBuilder
build_named i indicator_value b =
    let enabled = set_bit (enable_bit i) b.value true in
    record { value = set_bit (indicator_bit i) enabled indicator_value }

unfoldable pub build_flag : Flag → Bool → TrailerBuilder → TrailerBuilder
build_flag f x b = record { value = set_bit (flag_bit f) b.value x }

module _ (host : Endian) where
  unfoldable pub from_view : TrailerBuilder → List ℕ → ℕ → Run TrailerBuilder
  from_view b buffer word_ptr = do word ← raw host buffer word_ptr; done (record { value = word })

  unfoldable pub apply : TrailerBuilder → List ℕ → ℕ → Run (List ℕ)
  apply b buffer word_ptr = set_raw host b.value buffer word_ptr
