-- ===== src/Trailer.antt =====
-- detail/trailer.hpp: the places of the trailer word and the helpers on single bits and fields.
pub mod Bits
pub mod View
pub mod State
pub mod Refines
pub mod Setters
pub mod Reads
pub mod Views
mod Tests
use vrtio.Common.{
  ℕ, ◌-◌, ◌*◌, ◌/◌, ◌^◌, bit_and, bit_or, ◌<<<◌, ◌>>>◌, complement32, Bool, to_bool, if◌then◌else◌,
}

abbrev pub context_packet_count_shift : ℕ
context_packet_count_shift = 0

abbrev pub context_packet_count_mask : ℕ
context_packet_count_mask = 0x7F

abbrev pub e_bit : ℕ
e_bit = 7

-- The eight named state and event indicators, each with an enable bit and an indicator bit.
pub data Indicator : Type 0 where
  sample_loss over_range spectral_inversion detected_signal : Indicator
  agc_mgc reference_lock valid_data calibrated_time : Indicator

abbrev pub indicator_bit : Indicator → ℕ
indicator_bit sample_loss = 12
indicator_bit over_range = 13
indicator_bit spectral_inversion = 14
indicator_bit detected_signal = 15
indicator_bit agc_mgc = 16
indicator_bit reference_lock = 17
indicator_bit valid_data = 18
indicator_bit calibrated_time = 19

abbrev pub enable_bit : Indicator → ℕ
enable_bit sample_loss = 24
enable_bit over_range = 25
enable_bit spectral_inversion = 26
enable_bit detected_signal = 27
enable_bit agc_mgc = 28
enable_bit reference_lock = 29
enable_bit valid_data = 30
enable_bit calibrated_time = 31

-- The four bits that stand alone.
pub data Flag : Type 0 where
  user_defined_0 user_defined_1 sample_frame_0 sample_frame_1 : Flag

abbrev pub flag_bit : Flag → ℕ
flag_bit user_defined_0 = 8
flag_bit user_defined_1 = 9
flag_bit sample_frame_0 = 10
flag_bit sample_frame_1 = 11

unfoldable pub extract_bit : ℕ → ℕ → Bool
extract_bit bit value = to_bool (bit_and (value >>> bit) 0x01)

unfoldable pub set_bit : ℕ → ℕ → Bool → ℕ
set_bit bit value bit_value =
    bit_or (bit_and value (complement32 (1 <<< bit))) (if bit_value then 1 <<< bit else 0)

unfoldable pub clear_bit : ℕ → ℕ → ℕ
clear_bit bit value = bit_and value (complement32 (1 <<< bit))

unfoldable pub extract_field : ℕ → ℕ → ℕ → ℕ
extract_field shift mask value = bit_and (value >>> shift) mask

unfoldable pub set_field : ℕ → ℕ → ℕ → ℕ → ℕ
set_field shift mask value field_value =
    bit_or (bit_and value (complement32 (mask <<< shift))) (bit_and field_value mask <<< shift)

unfoldable pub clear_field : ℕ → ℕ → ℕ → ℕ
clear_field shift mask value = bit_and value (complement32 (mask <<< shift))
