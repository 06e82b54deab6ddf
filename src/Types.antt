-- ===== src/Types.antt =====
-- types.hpp: the enumerations of the packet format, their casts, and the words of the packet size.
pub mod Names
use vrtio.Common.{ℕ, ◌*◌, ◌≤◌, Bool, ◌&&◌, ◌||◌, not, true, false, ◌==◌, leb, if◌then◌else◌}

-- `PacketType`. The header's four bits also take the values 8 to 15, which name no enumerator but are
-- values of the enumeration's underlying type: `reserved`.
pub data PacketType : Type 0 where
  signal_data_no_id : PacketType
  signal_data : PacketType
  extension_data_no_id : PacketType
  extension_data : PacketType
  context : PacketType
  extension_context : PacketType
  command : PacketType
  extension_command : PacketType
  reserved : ℕ → PacketType

-- `static_cast<PacketType>(n)`.
unfoldable pub packet_type_of : ℕ → PacketType
packet_type_of n =
    if n == 0
    then signal_data_no_id
    else if n == 1
    then signal_data
    else if n == 2
    then extension_data_no_id
    else if n == 3
    then extension_data
    else if n == 4
    then context
    else if n == 5
    then extension_context
    else if n == 6
    then command
    else if n == 7
    then extension_command
    else reserved n

-- `static_cast<uint8_t>(type)`.
unfoldable pub packet_type_value : PacketType → ℕ
packet_type_value signal_data_no_id = 0
packet_type_value signal_data = 1
packet_type_value extension_data_no_id = 2
packet_type_value extension_data = 3
packet_type_value context = 4
packet_type_value extension_context = 5
packet_type_value command = 6
packet_type_value extension_command = 7
packet_type_value (reserved n) = n

pub data TsiType : Type 0 where
  none utc gps other : TsiType

-- `static_cast<TsiType>` of a masked field, which is at most 3.
unfoldable pub tsi_of : ℕ → TsiType
tsi_of n = if n == 0 then TsiType.none else if n == 1 then utc else if n == 2 then gps else other

unfoldable pub tsi_value : TsiType → ℕ
tsi_value TsiType.none = 0
tsi_value utc = 1
tsi_value gps = 2
tsi_value other = 3

pub data TsfType : Type 0 where
  none sample_count real_time free_running : TsfType

unfoldable pub tsf_of : ℕ → TsfType
tsf_of n =
    if n == 0
    then TsfType.none
    else if n == 1
    then sample_count
    else if n == 2
    then real_time
    else free_running

unfoldable pub tsf_value : TsfType → ℕ
tsf_value TsfType.none = 0
tsf_value sample_count = 1
tsf_value real_time = 2
tsf_value free_running = 3

-- `tsi != TsiType::none`, and the same for TSF.
unfoldable pub has_tsi : TsiType → Bool
has_tsi TsiType.none = false
has_tsi _ = true

unfoldable pub has_tsf : TsfType → Bool
has_tsf TsfType.none = false
has_tsf _ = true

pub data ValidationError : Type 0 where
  none : ValidationError
  buffer_too_small : ValidationError
  packet_type_mismatch : ValidationError
  class_id_bit_mismatch : ValidationError
  tsi_mismatch : ValidationError
  tsf_mismatch : ValidationError
  trailer_bit_mismatch : ValidationError
  size_field_mismatch : ValidationError
  invalid_packet_type : ValidationError
  unsupported_field : ValidationError

abbrev pub vrt_word_size : ℕ
vrt_word_size = 4

abbrev pub max_packet_words : ℕ
max_packet_words = 65535

abbrev pub max_packet_bytes : ℕ
max_packet_bytes = max_packet_words * vrt_word_size

unfoldable pub is_signal_data : PacketType → Bool
is_signal_data signal_data_no_id = true
is_signal_data signal_data = true
is_signal_data _ = false

unfoldable pub has_stream_identifier : PacketType → Bool
unfolding packet_type_value
has_stream_identifier type =
    let t = packet_type_value type in not (t == 0) && (not (t == 2) && leb t 7)
