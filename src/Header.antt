-- ===== src/Header.antt =====
-- detail/header.hpp, header_init.hpp, header_decode.hpp and header_indicators.hpp: the header word.
pub mod Fields
pub mod RoundTrip
pub mod Meaning
pub mod Indicators
pub mod View
mod Tests
use vrtio.Common.{
  ℕ, ◌+◌, ◌*◌, ◌/◌, ◌%◌, ◌^◌, bit_and, bit_or, ◌<<<◌, ◌>>>◌, u32, u16, u8, Bool, true, false, ◌&&◌,
  ◌||◌, not, ◌==◌, leb, if◌then◌else◌, bit_of, to_bool,
}
use vrtio.Types.{
  PacketType, packet_type_of, packet_type_value, TsiType, tsi_of, tsi_value, TsfType, tsf_of,
  tsf_value,
}

abbrev pub packet_type_shift : ℕ
packet_type_shift = 28

abbrev pub packet_type_mask : ℕ
packet_type_mask = 0xF

abbrev pub class_id_shift : ℕ
class_id_shift = 27

abbrev pub class_id_mask : ℕ
class_id_mask = 0x1

abbrev pub indicator_bit_26_shift : ℕ
indicator_bit_26_shift = 26

abbrev pub indicator_bit_25_shift : ℕ
indicator_bit_25_shift = 25

abbrev pub indicator_bit_24_shift : ℕ
indicator_bit_24_shift = 24

abbrev pub indicator_bit_mask : ℕ
indicator_bit_mask = 0x1

abbrev pub tsi_shift : ℕ
tsi_shift = 22

abbrev pub tsi_mask : ℕ
tsi_mask = 0x3

abbrev pub tsf_shift : ℕ
tsf_shift = 20

abbrev pub tsf_mask : ℕ
tsf_mask = 0x3

abbrev pub packet_count_shift : ℕ
packet_count_shift = 16

abbrev pub packet_count_mask : ℕ
packet_count_mask = 0xF

abbrev pub size_shift : ℕ
size_shift = 0

abbrev pub size_mask : ℕ
size_mask = 0xFFFF

pub record DecodedHeader : Type 0 where
  pub type : PacketType
  pub size_words : ℕ
  pub has_class_id : Bool
  pub tsi : TsiType
  pub tsf : TsfType
  pub packet_count : ℕ
  pub bit_26 : Bool
  pub bit_25 : Bool
  pub bit_24 : Bool
  pub trailer_included : Bool
  pub signal_spectrum : Bool
  pub nd0 : Bool
  pub context_tsm : Bool
  pub command_ack : Bool
  pub command_cancel : Bool

-- `DecodedHeader{}`.
abbrev pub zero_header : DecodedHeader
zero_header = record {
  type = PacketType.signal_data_no_id;
  size_words = 0;
  has_class_id = false;
  tsi = TsiType.none;
  tsf = TsfType.none;
  packet_count = 0;
  bit_26 = false;
  bit_25 = false;
  bit_24 = false;
  trailer_included = false;
  signal_spectrum = false;
  nd0 = false;
  context_tsm = false;
  command_ack = false;
  command_cancel = false;
}

-- The last step of `decode_header`: what bits 26 to 24 mean depends on the packet type.
unfoldable pub interpret_indicators : DecodedHeader → DecodedHeader
unfolding packet_type_value
interpret_indicators h =
    let type_value = packet_type_value h.type in
    if leb type_value 3
    then record h {
      trailer_included = h.bit_26;
      signal_spectrum = h.bit_24;
      nd0 = h.bit_25;
      context_tsm = false;
      command_ack = false;
      command_cancel = false;
    }
    else if type_value == 4 || type_value == 5
    then record h {
      context_tsm = h.bit_24;
      nd0 = h.bit_25;
      trailer_included = false;
      signal_spectrum = false;
      command_ack = false;
      command_cancel = false;
    }
    else if type_value == 6 || type_value == 7
    then record h {
      command_ack = h.bit_26;
      command_cancel = h.bit_24;
      trailer_included = false;
      signal_spectrum = false;
      nd0 = false;
      context_tsm = false;
    }
    else record h {
      trailer_included = false;
      signal_spectrum = false;
      nd0 = false;
      context_tsm = false;
      command_ack = false;
      command_cancel = false;
    }

unfoldable pub decode_header : ℕ → DecodedHeader
unfolding interpret_indicators packet_type_of tsi_of tsf_of
decode_header header = interpret_indicators (record zero_header {
  type = packet_type_of (bit_and (header >>> packet_type_shift) packet_type_mask);
  has_class_id = to_bool (bit_and (header >>> class_id_shift) class_id_mask);
  tsi = tsi_of (bit_and (header >>> tsi_shift) tsi_mask);
  tsf = tsf_of (bit_and (header >>> tsf_shift) tsf_mask);
  packet_count = u8 (bit_and (header >>> packet_count_shift) packet_count_mask);
  size_words = u16 (bit_and (header >>> size_shift) size_mask);
  bit_26 = to_bool (bit_and (header >>> indicator_bit_26_shift) indicator_bit_mask);
  bit_25 = to_bool (bit_and (header >>> indicator_bit_25_shift) indicator_bit_mask);
  bit_24 = to_bool (bit_and (header >>> indicator_bit_24_shift) indicator_bit_mask);
})

-- The statements `header |= ...` one after the other; the parameters come as the casts left them.
unfoldable pub build_header : ℕ → Bool → Bool → Bool → Bool → TsiType → TsfType → ℕ → ℕ → ℕ
unfolding tsi_value tsf_value
build_header packet_type has_class_id bit_26 bit_25 bit_24 tsi tsf packet_count packet_size_words =
    let h0 : ℕ = 0 in
    let h1 = bit_or h0 (u32 (bit_and packet_type 0x0F <<< packet_type_shift)) in
    let h2 = bit_or h1 (u32 (bit_of has_class_id <<< class_id_shift)) in
    let h3 = bit_or h2 (u32 (bit_of bit_26 <<< indicator_bit_26_shift)) in
    let h4 = bit_or h3 (u32 (bit_of bit_25 <<< indicator_bit_25_shift)) in
    let h5 = bit_or h4 (u32 (bit_of bit_24 <<< indicator_bit_24_shift)) in
    let h6 = bit_or h5 (u32 (tsi_value tsi <<< tsi_shift)) in
    let h7 = bit_or h6 (u32 (tsf_value tsf <<< tsf_shift)) in
    let h8 = bit_or h7 (u32 (bit_and packet_count 0x0F <<< packet_count_shift)) in
    bit_or h8 (u32 (bit_and packet_size_words size_mask <<< size_shift))

-- The predicates of header_decode.hpp.
unfoldable pub is_valid_packet_type : PacketType → Bool
unfolding packet_type_value
is_valid_packet_type type = leb (packet_type_value type) 7

unfoldable pub is_valid_tsi_type : TsiType → Bool
unfolding tsi_value
is_valid_tsi_type tsi = leb (tsi_value tsi) 3

unfoldable pub is_valid_tsf_type : TsfType → Bool
unfolding tsf_value
is_valid_tsf_type tsf = leb (tsf_value tsf) 3

unfoldable pub has_stream_id_field : PacketType → Bool
unfolding packet_type_value
has_stream_id_field type =
    let t = packet_type_value type in not (t == 0) && (not (t == 2) && leb t 7)

unfoldable pub is_signal_data_packet : PacketType → Bool
unfolding packet_type_value
is_signal_data_packet type = let t = packet_type_value type in t == 0 || t == 1

unfoldable pub is_ext_data_packet : PacketType → Bool
unfolding packet_type_value
is_ext_data_packet type = let t = packet_type_value type in t == 2 || t == 3

unfoldable pub is_context_packet : PacketType → Bool
unfolding packet_type_value
is_context_packet type = let t = packet_type_value type in t == 4 || t == 5

unfoldable pub is_command_packet : PacketType → Bool
unfolding packet_type_value
is_command_packet type = let t = packet_type_value type in t == 6 || t == 7
