-- ===== src/DataPacket/Tests.antt =====
-- A data packet with every field, built and read back.
use vrtio.Common.{ℕ, ◌≤◌, ◌≡◌, ◌↔◌, refl, true, List, [], ◌∷◌, length, done, arith}
use vrtio.Buffer.{
  little, big, read_u32, read_word, copy_from, copy_to, write_u32, write_u64, write_word,
  network_to_host, host_to_network, byteswap, of_memory, to_memory, le_bytes, of_le_bytes,
}
use vrtio.Buffer.Bytes.{IsBytes}
use vrtio.Memory.{to}
use vrtio.Types.{
  signal_data, utc, real_time, packet_type_value, packet_type_of, tsi_value, tsf_value, has_tsi,
  has_tsf, ValidationError,
}
use vrtio.ClassId.{word0, word1, IsClassId}
use vrtio.Header.{build_header}
use vrtio.Header.View
use vrtio.Header.View.{HeaderView}
use vrtio.Prologue
use vrtio.Prologue.{
  class_id_present, timestamp_with, carries_stream_id, class_id_traits_words,
  class_id_traits_present, timestamp_traits_tsi, timestamp_traits_tsf, zeros,
}
use vrtio.Trailer.{valid_data, set_bit}
use vrtio.Trailer.View.{raw, set_raw, modify, set_named, set_indicator}
use vrtio.Trailer.Setters.{perform}
use vrtio.RuntimeData.{RuntimeDataPacket, parse, is_data_type}
use vrtio.DataPacket
use vrtio.DataPacket.{
  DataPacket, IsDataPacket, size_bytes, construct, init_header, init_class_id, set_packet_count,
  set_stream_id, set_timestamp, set_class_id, set_payload, payload, trailer, prologue_type,
  validate,
}
use vrtio.DataPacket.Builder.{Call, set, call, calls, start, build}
use vrtio.DataPacket.Contents.{contents, IsFormed}
use vrtio.DataPacket.Refines.{effects, begun, AreAllowed}
use vrtio.DataPacket.Delivers.{Delivers, build-Delivers}
use vrtio.DataPacket.Validate.{IsOwnHeader, validate_iff}
use vrtio.DataPacket.ReadsBack.{ReadsBack, formed-ReadsBack}
use vrtio.DataPacket.Own.{header_view-packet_type, view_type}

packet_program : Unit {0}
unfolding Prologue.has_stream_id carries_stream_id class_id_traits_words class_id_traits_present
    timestamp_traits_tsi timestamp_traits_tsf has_tsi has_tsf is_data_type
packet_program = tt

-- Signal data with stream id, class id, UTC and picoseconds, a payload of two words and a trailer.
abbrev full : DataPacket
full = record {
  packet_type = signal_data;
  class_id_type = class_id_present;
  timestamp_type = timestamp_with utc real_time;
  has_trailer = true;
  payload_words = 2;
}

full-IsDataPacket : IsDataPacket full
unfolding packet_program
full-IsDataPacket = record {
  data_type = refl;
  valid_payload = omega arith;
  size_fits = omega arith;
}

-- Forty bytes of whatever was in memory.
abbrev memory : List ℕ
memory =
    7 ∷ 7 ∷ 7 ∷ 7 ∷ 7 ∷ 7 ∷ 7 ∷ 7 ∷ 7 ∷ 7 ∷ 7 ∷ 7 ∷ 7 ∷ 7 ∷ 7 ∷ 7 ∷ 7 ∷ 7 ∷ 7 ∷ 7 ∷ 7 ∷ 7 ∷ 7 ∷ 7
    ∷ 7 ∷ 7 ∷ 7 ∷ 7 ∷ 7 ∷ 7 ∷ 7 ∷ 7 ∷ 7 ∷ 7 ∷ 7 ∷ 7 ∷ 7 ∷ 7 ∷ 7 ∷ 7 ∷ []

memory-IsBytes : IsBytes memory
memory-IsBytes = omega arith

memory_fits : size_bytes full ≤ length memory
unfolding packet_program
memory_fits = omega arith

abbrev steps : List Call
steps =
    Call.stream_id 0x1234
    ∷ Call.timestamp (record { seconds = 100; fractional = 200 })
    ∷ Call.class_id (record { oui = 0x123456; icc = 1; pcc = 2; pbc = 3 })
    ∷ Call.payload (1 ∷ 2 ∷ 3 ∷ [])
    ∷ Call.trailer_named valid_data true
    ∷ Call.packet_count 5
    ∷ []

steps-AreAllowed : AreAllowed full steps
unfolding packet_program
steps-AreAllowed = (
  (refl, omega arith),
  ((omega arith, omega arith), ((refl, class_fits), (omega arith, (refl, (tt, tt))))),
)
  where
    class_fits : IsClassId (record { oui = 0x123456; icc = 1; pcc = 2; pbc = 3 })
    class_fits = record {
      oui_fits = omega arith;
      icc_fits = omega arith;
      pcc_fits = omega arith;
      pbc_fits = omega arith;
    }

build-Delivers_example :
    (after : List ℕ) × (build little full steps memory ≡ done after)
    × (validate little full (size_bytes full) after ≡ done ValidationError.none)
    × (p : RuntimeDataPacket) × (parse little (to after) (size_bytes full) ≡ done p)
    × Delivers little after p (effects steps (begun (contents little full memory)))
build-Delivers_example =
    build-Delivers little full steps memory full-IsDataPacket memory_fits memory-IsBytes
      steps-AreAllowed

build_program : Unit {0}
unfolding packet_program build start calls call set construct init_header init_class_id
    set_stream_id set_timestamp set_class_id set_payload set_packet_count trailer payload
    Prologue.init_header Prologue.init_class_id Prologue.set_stream_id Prologue.set_timestamp
    Prologue.put_tsi Prologue.put_tsf Prologue.set_class_id Prologue.set_packet_count
    Prologue.header zeros build_header packet_type_value tsi_value tsf_value write_u32 write_u64
    write_word read_u32 read_word copy_to copy_from network_to_host host_to_network byteswap
    of_memory to_memory le_bytes of_le_bytes word0 word1 perform set_named set_indicator modify raw
    set_raw set_bit
build_program = tt

-- The bytes that were built.
abbrev built : List ℕ
built =
    0x1C ∷ 0x65 ∷ 0 ∷ 10 ∷ 0 ∷ 0 ∷ 0x12 ∷ 0x34 ∷ 0x18 ∷ 0x12 ∷ 0x34 ∷ 0x56 ∷ 0 ∷ 1 ∷ 0 ∷ 2 ∷ 0 ∷ 0
    ∷ 0 ∷ 100 ∷ 0 ∷ 0 ∷ 0 ∷ 0 ∷ 0 ∷ 0 ∷ 0 ∷ 200 ∷ 1 ∷ 2 ∷ 3 ∷ 7 ∷ 7 ∷ 7 ∷ 7 ∷ 7 ∷ 0x47 ∷ 0x07 ∷ 7
    ∷ 7 ∷ []

built_bytes : build little full steps memory ≡ done built
unfolding build_program
built_bytes = refl

built-IsBytes : IsBytes built
built-IsBytes = omega arith

built-IsFormed : IsFormed little full built
unfolding build_program
built-IsFormed = record { fits = omega arith; bytes = omega arith; header_is = refl }

formed-ReadsBack_example : ReadsBack little full built
formed-ReadsBack_example = formed-ReadsBack little full full-IsDataPacket built built-IsFormed

header_view-packet_type_example :
    (view : HeaderView) × (DataPacket.header_view little full built ≡ done view)
    × (View.packet_type view
        ≡ packet_type_of (view_type little full full-IsDataPacket built built-IsFormed little))
header_view-packet_type_example =
    header_view-packet_type little full full-IsDataPacket built built-IsFormed

-- On the little-endian host the view does not even answer the packet's type.
wrong_type : view_type little full full-IsDataPacket built built-IsFormed little ≡ 0
unfolding build_program
wrong_type = refl

validate_iff_example :
    (e : ValidationError) × (validate big full 40 built ≡ done e)
    × ((e ≡ ValidationError.none) ↔ (
        (size_bytes full ≤ 40)
        × IsOwnHeader big full full-IsDataPacket built 40 (omega arith) built-IsBytes))
validate_iff_example = validate_iff big full full-IsDataPacket built 40 (omega arith) built-IsBytes
