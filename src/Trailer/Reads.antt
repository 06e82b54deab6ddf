-- ===== src/Trailer/Reads.antt =====
-- The getters of trailer_view.hpp against the bits of the word in the buffer, in network order.
use vrtio.Common.{
  ℕ, ◌+◌, ◌-◌, ◌/◌, ◌%◌, ◌^◌, ◌≤◌, ◌≡◌, refl, sym, ap, ◌∙◌, List, length, slice, Bool, to_bool,
  if◌then◌else◌, done, arith,
}
use mathlib.Core.Option.{Option, none, some}
use vrtio.Common.Bits.{digit-shift}
use vrtio.Common.Digits.{bit, one_bit}
use vrtio.Buffer.{Endian}
use vrtio.Buffer.Bytes.{IsBytes, of_be_bytes}
use vrtio.Buffer.Access.{word_at-be, read_u32-done}
use vrtio.Trailer.{
  Indicator, Flag, sample_loss, over_range, spectral_inversion, detected_signal, agc_mgc,
  reference_lock, valid_data, calibrated_time, user_defined_0, user_defined_1, sample_frame_0,
  sample_frame_1, enable_bit, indicator_bit, flag_bit, extract_bit,
}
use vrtio.Trailer.Bits.{extract_bit-digit, count_field-low}
use vrtio.Trailer.View.{
  context_packet_count, get_indicator, named, flag, raw, count_of, indicator_of,
}

-- The order of the indicators in the trailer word, from the highest bit down (VITA 49.2, 5.1.6).
abbrev pub indicator_rank : Indicator → ℕ
indicator_rank calibrated_time = 0
indicator_rank valid_data = 1
indicator_rank reference_lock = 2
indicator_rank agc_mgc = 3
indicator_rank detected_signal = 4
indicator_rank spectral_inversion = 5
indicator_rank over_range = 6
indicator_rank sample_loss = 7

abbrev pub flag_rank : Flag → ℕ
flag_rank sample_frame_1 = 0
flag_rank sample_frame_0 = 1
flag_rank user_defined_1 = 2
flag_rank user_defined_0 = 3

-- What a trailer word says: the enable bits are the highest eight, the indicators the eight from bit 19
-- down, the four bits that stand alone follow from bit 11 down, and bit 7 says that the seven lowest
-- bits are a count.
abbrev pub count_said : ℕ → Option ℕ
count_said word = if bit word 7 then some (word % 2 ^ 7) else none

abbrev pub indicator_said : ℕ → Indicator → Option Bool
indicator_said word i =
    if bit word (31 - indicator_rank i) then some (bit word (19 - indicator_rank i)) else none

abbrev pub flag_said : ℕ → Flag → Bool
flag_said word f = bit word (11 - flag_rank f)

bit_lem : (k word : ℕ) → extract_bit k word ≡ bit word k
bit_lem k word =
    extract_bit-digit k word
    ∙ ap to_bool (sym (digit-shift k word))
    ∙ one_bit (word / 2 ^ k % 2) (omega arith)

count_lem : (word : ℕ) → count_of word ≡ count_said word
count_lem word =
    let low = count_field-low word in
    rw (bit_lem 7 word) (ap (λ (v : ℕ). if bit word 7 then some v else none) (omega (arith, low)))

indicator_lem :
    (word : ℕ) (i : Indicator)
    → indicator_of (enable_bit i) (indicator_bit i) word ≡ indicator_said word i
indicator_lem word i =
    let e : enable_bit i ≡ 31 - indicator_rank i = ground arith in
    let n : indicator_bit i ≡ 19 - indicator_rank i = ground arith in
    rw (bit_lem (enable_bit i) word, bit_lem (indicator_bit i) word, e, n) refl

flag_lem : (word : ℕ) (f : Flag) → extract_bit (flag_bit f) word ≡ flag_said word f
flag_lem word f =
    let e : flag_bit f ≡ 11 - flag_rank f = ground arith in
    bit_lem (flag_bit f) word ∙ ap (bit word) e

-- Every getter of a view over four bytes of a buffer of bytes returns what the trailer word of these bytes,
-- in network order, says at the places of the standard, on every host.
pub getters_said :
    (host : Endian) (buffer : List ℕ) (word_ptr : ℕ)
    → word_ptr + 4 ≤ length buffer
    → IsBytes buffer
    → let word = of_be_bytes (slice buffer word_ptr 4) in
      (context_packet_count host buffer word_ptr ≡ done (count_said word))
      × ((i : Indicator) → named host i buffer word_ptr ≡ done (indicator_said word i))
      × ((f : Flag) → flag host f buffer word_ptr ≡ done (flag_said word f))
unfolding context_packet_count named get_indicator flag raw
getters_said host buffer word_ptr fits bytes =
    let w = word_at-be host 4 buffer word_ptr fits bytes in
    (
      rw (read_u32-done host buffer word_ptr fits, w)
          (ap done (count_lem (of_be_bytes (slice buffer word_ptr 4)))),
      (λ i.
          rw (read_u32-done host buffer word_ptr fits, w)
            (ap done (indicator_lem (of_be_bytes (slice buffer word_ptr 4)) i))),
      λ f.
          rw (read_u32-done host buffer word_ptr fits, w)
            (ap done (flag_lem (of_be_bytes (slice buffer word_ptr 4)) f)),
    )
