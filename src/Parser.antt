-- ===== src/Parser.antt =====
-- detail/packet_parser.hpp and detail/packet_variant.hpp: the parser that finds the kind of a packet.
pub mod Totality
pub mod Kinds
mod Tests
use vrtio.Common.{ℕ, Bool, true, false, not, ◌||◌, ltb, leb, ◌==◌, if◌then◌else◌, Run, done, ◌>>=◌}
use mathlib.Core.Option.{Option, none, some}
use vrtio.Buffer.{Endian, read_u32}
use vrtio.Memory.{Pointer, memory}
use vrtio.Types.{
  PacketType, packet_type_value, ValidationError, buffer_too_small, unsupported_field,
  invalid_packet_type,
}
use vrtio.Header.{DecodedHeader, zero_header, decode_header}
use vrtio.RuntimeData.{RuntimeDataPacket}
use vrtio.RuntimeData
use vrtio.RuntimeContext.{RuntimeContextPacket}
use vrtio.RuntimeContext
use vrtio.RuntimeContext.Access

-- `raw_bytes` is the span that was given: its pointer and its size.
pub record InvalidPacket : Type 0 where
  pub error : ValidationError
  pub attempted_type : PacketType
  pub header : DecodedHeader
  pub raw_bytes : Pointer
  pub raw_size : ℕ

pub data PacketVariant : Type 0 where
  data_packet : RuntimeDataPacket → PacketVariant
  context_packet : RuntimeContextPacket → PacketVariant
  invalid_packet : InvalidPacket → PacketVariant

unfoldable pub is_valid : PacketVariant → Bool
is_valid (invalid_packet i) = false
is_valid _ = true

unfoldable pub is_data_packet : PacketVariant → Bool
is_data_packet (data_packet p) = true
is_data_packet _ = false

unfoldable pub is_context_packet : PacketVariant → Bool
is_context_packet (context_packet p) = true
is_context_packet _ = false

unfoldable pub packet_type : PacketVariant → PacketType
unfolding RuntimeData.type
packet_type (data_packet p) = RuntimeData.type p
packet_type (context_packet p) = PacketType.context
packet_type (invalid_packet i) = i.attempted_type

unfoldable pub stream_id : Endian → PacketVariant → Run (Option ℕ)
unfolding RuntimeData.stream_id Access.stream_id
stream_id host (data_packet p) = RuntimeData.stream_id host p
stream_id host (context_packet p) = Access.stream_id host p
stream_id host (invalid_packet i) = done none

module _ (host : Endian) (bytes : Pointer) (size : ℕ) where
  -- `InvalidPacket{error, header.type, header, bytes}`.
  abbrev pub rejected : ValidationError → DecodedHeader → PacketVariant
  rejected error h = invalid_packet (record {
    error = error;
    attempted_type = h.type;
    header = h;
    raw_bytes = bytes;
    raw_size = size;
  })

  -- The dispatch on the packet type, with the header decoded.
  unfoldable pub dispatch : DecodedHeader → Run PacketVariant
  unfolding packet_type_value
  dispatch h =
      let type_value = packet_type_value h.type in
      if leb type_value 3
      then (RuntimeData.parse host bytes size >>= λ view.
          done (if RuntimeData.is_valid view then data_packet view else rejected view.error h))
      else if type_value == 4 || type_value == 5
      then (RuntimeContext.parse host bytes size >>= λ view.
          done (if Access.is_valid view then context_packet view else rejected view.error h))
      else if type_value == 6 || type_value == 7
      then done (rejected unsupported_field h)
      else done (rejected invalid_packet_type h)

  unfoldable pub parse_packet : Run PacketVariant
  parse_packet =
      if ltb size 4
      then done (
          invalid_packet (record {
            error = buffer_too_small;
            attempted_type = PacketType.signal_data_no_id;
            header = zero_header;
            raw_bytes = bytes;
            raw_size = size;
          }))
      else (do header_word ← read_u32 host (memory bytes) 0; dispatch (decode_header header_word))
