-- ===== src/Types/Names.antt =====
-- The strings of types.hpp, and that they tell the enumerators apart.
use Prim.Native.String.{String}
use vrtio.Types.{PacketType, TsiType, TsfType, ValidationError}

pub packet_type_string : PacketType → String
packet_type_string PacketType.signal_data_no_id = "signal_data_no_id"
packet_type_string PacketType.signal_data = "signal_data"
packet_type_string PacketType.extension_data_no_id = "extension_data_no_id"
packet_type_string PacketType.extension_data = "extension_data"
packet_type_string PacketType.context = "context"
packet_type_string PacketType.extension_context = "extension_context"
packet_type_string PacketType.command = "command"
packet_type_string PacketType.extension_command = "extension_command"
packet_type_string (PacketType.reserved n) = "unknown"

pub tsi_type_string : TsiType → String
tsi_type_string TsiType.none = "none"
tsi_type_string TsiType.utc = "utc"
tsi_type_string TsiType.gps = "gps"
tsi_type_string TsiType.other = "other"

pub tsf_type_string : TsfType → String
tsf_type_string TsfType.none = "none"
tsf_type_string TsfType.sample_count = "sample_count"
tsf_type_string TsfType.real_time = "real_time"
tsf_type_string TsfType.free_running = "free_running"

pub validation_error_string : ValidationError → String
validation_error_string ValidationError.none = "No error"
validation_error_string ValidationError.buffer_too_small =
    "Buffer size smaller than declared packet size"
validation_error_string ValidationError.packet_type_mismatch =
    "Packet type doesn't match template configuration"
validation_error_string ValidationError.class_id_bit_mismatch =
    "Class ID indicator doesn't match template configuration"
validation_error_string ValidationError.tsi_mismatch =
    "TSI field doesn't match template configuration"
validation_error_string ValidationError.tsf_mismatch =
    "TSF field doesn't match template configuration"
validation_error_string ValidationError.trailer_bit_mismatch =
    "Trailer indicator doesn't match template configuration"
validation_error_string ValidationError.size_field_mismatch =
    "Size field doesn't match expected packet size"
validation_error_string ValidationError.invalid_packet_type = "Invalid or unsupported packet type"
validation_error_string ValidationError.unsupported_field =
    "Packet contains fields not supported by this implementation"
