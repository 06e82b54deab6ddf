-- ===== src/RuntimeData.antt =====
-- detail/runtime_data_packet.hpp: the parser of data packets (signal and extension data).
pub mod Layout
pub mod Safety
pub mod Access
mod Tests
use vrtio.Common.{
  ℕ, ◌+◌, ◌-◌, ◌*◌, ◌/◌, ◌%◌, ◌^◌, List, Bool, true, false, not, ◌||◌, ltb, u64, if◌then◌else◌, Run,
  done, ◌>>=◌,
}
use mathlib.Core.Option.{Option, none, some}
use vrtio.Buffer.{Endian, read_u32, read_u64}
use vrtio.ClassId.{ClassIdValue, from_words}
use vrtio.Memory.{Pointer, is_null, memory, Span, empty_span}
use vrtio.Types.{
  PacketType, TsiType, TsfType, has_tsi, has_tsf, ValidationError, buffer_too_small,
  packet_type_mismatch, size_field_mismatch, vrt_word_size,
}
use vrtio.Header.{DecodedHeader, zero_header, decode_header, has_stream_id_field}
use vrtio.Header.View.{HeaderView, decoded}
use vrtio.Header.View

pub record ParsedStructure : Type 0 where
  pub header : DecodedHeader
  pub has_stream_id : Bool
  pub stream_id_offset : ℕ
  pub class_id_offset : ℕ
  pub tsi_offset : ℕ
  pub tsf_offset : ℕ
  pub payload_offset : ℕ
  pub trailer_offset : ℕ
  pub payload_size_bytes : ℕ

-- `structure_{}`.
abbrev pub empty_structure : ParsedStructure
empty_structure = record {
  header = zero_header;
  has_stream_id = false;
  stream_id_offset = 0;
  class_id_offset = 0;
  tsi_offset = 0;
  tsf_offset = 0;
  payload_offset = 0;
  trailer_offset = 0;
  payload_size_bytes = 0;
}

pub record RuntimeDataPacket : Type 0 where
  pub buffer : Pointer
  pub buffer_size : ℕ
  pub error : ValidationError
  pub structure : ParsedStructure

-- `a - b` on `size_t`.
abbrev pub sub_size : ℕ → ℕ → ℕ
sub_size a b = u64 (a + 2 ^ 64 - b)

-- `decoded.type` is one of the four data types.
unfoldable pub is_data_type : PacketType → Bool
is_data_type PacketType.signal_data_no_id = true
is_data_type PacketType.signal_data = true
is_data_type PacketType.extension_data_no_id = true
is_data_type PacketType.extension_data = true
is_data_type _ = false

-- `offset_words` after each of the optional fields (step 7).
abbrev pub after_stream_id : ParsedStructure → ℕ
after_stream_id s = if s.has_stream_id then 1 + 1 else 1

abbrev pub after_class_id : ParsedStructure → ℕ
after_class_id s = if s.header.has_class_id then after_stream_id s + 2 else after_stream_id s

abbrev pub after_tsi : ParsedStructure → ℕ
after_tsi s = if has_tsi s.header.tsi then after_class_id s + 1 else after_class_id s

abbrev pub after_tsf : ParsedStructure → ℕ
after_tsf s = if has_tsf s.header.tsf then after_tsi s + 2 else after_tsi s

abbrev pub trailer_words : ParsedStructure → ℕ
trailer_words s = if s.header.trailer_included then 1 else 0

-- Steps 7 and 8 of `validate_internal`: the offsets and the payload size.
unfoldable pub place_fields : ParsedStructure → ParsedStructure
place_fields s =
    let payload_words = sub_size (sub_size s.header.size_words (after_tsf s)) (trailer_words s) in
    record s {
      stream_id_offset = if s.has_stream_id then 1 * vrt_word_size else s.stream_id_offset;
      class_id_offset =
          if s.header.has_class_id then after_stream_id s * vrt_word_size else s.class_id_offset;
      tsi_offset = if has_tsi s.header.tsi then after_class_id s * vrt_word_size else s.tsi_offset;
      tsf_offset = if has_tsf s.header.tsf then after_tsi s * vrt_word_size else s.tsf_offset;
      payload_offset = after_tsf s * vrt_word_size;
      payload_size_bytes = u64 (payload_words * vrt_word_size);
      trailer_offset =
          if s.header.trailer_included
          then u64 (sub_size s.header.size_words 1 * vrt_word_size)
          else s.trailer_offset;
    }

-- Steps 5 to 9, once the type is known: the error and the structure that is left.
unfoldable pub validate_structure : ℕ → DecodedHeader → ValidationError × ParsedStructure
validate_structure buffer_size h =
    let s = record empty_structure { header = h; has_stream_id = has_stream_id_field h.type } in
    if ltb buffer_size (h.size_words * vrt_word_size)
    then (buffer_too_small, s)
    else if ltb h.size_words (after_tsf s + trailer_words s)
    then (size_field_mismatch, place_fields s)
    else (ValidationError.none, place_fields s)

-- Step 3 and on, with the header decoded.
unfoldable pub validate_header : ℕ → DecodedHeader → ValidationError × ParsedStructure
validate_header buffer_size h =
    if is_data_type h.type
    then validate_structure buffer_size h
    else (packet_type_mismatch, empty_structure)

module _ (host : Endian) where
  -- `validate_internal`: the error and the structure that it leaves.
  unfoldable pub validate_internal : Pointer → ℕ → Run (ValidationError × ParsedStructure)
  validate_internal buffer buffer_size =
      if is_null buffer || ltb buffer_size vrt_word_size
      then done (buffer_too_small, empty_structure)
      else (do
        header ← read_u32 host (memory buffer) 0
        done (validate_header buffer_size (decode_header header)))

  -- The constructor.
  unfoldable pub parse : Pointer → ℕ → Run RuntimeDataPacket
  parse buffer buffer_size = do
    (error, structure) ← validate_internal buffer buffer_size
    done (record {
      buffer = buffer;
      buffer_size = buffer_size;
      error = error;
      structure = structure;
    })

-- `error_ == ValidationError::none`.
unfoldable pub is_valid : RuntimeDataPacket → Bool
is_valid p = elim p.error [ ValidationError.none ↦ true | _ ↦ false ]

abbrev pub header : RuntimeDataPacket → HeaderView
header p = decoded p.structure.header

unfoldable pub type : RuntimeDataPacket → PacketType
type p = p.structure.header.type

unfoldable pub has_stream_id : RuntimeDataPacket → Bool
has_stream_id p = p.structure.has_stream_id

unfoldable pub has_class_id : RuntimeDataPacket → Bool
unfolding View.has_class_id
has_class_id p = View.has_class_id (header p)

unfoldable pub has_trailer : RuntimeDataPacket → Bool
unfolding View.has_trailer
has_trailer p = View.has_trailer (header p)

unfoldable pub tsi_kind : RuntimeDataPacket → TsiType
tsi_kind p = p.structure.header.tsi

unfoldable pub tsf_kind : RuntimeDataPacket → TsfType
tsf_kind p = p.structure.header.tsf

unfoldable pub packet_count : RuntimeDataPacket → ℕ
packet_count p = p.structure.header.packet_count

unfoldable pub packet_size_bytes : RuntimeDataPacket → ℕ
packet_size_bytes p = p.structure.header.size_words * vrt_word_size

unfoldable pub packet_size_words : RuntimeDataPacket → ℕ
packet_size_words p = p.structure.header.size_words

unfoldable pub payload_size_bytes : RuntimeDataPacket → ℕ
payload_size_bytes p = p.structure.payload_size_bytes

unfoldable pub payload_size_words : RuntimeDataPacket → ℕ
payload_size_words p = p.structure.payload_size_bytes / vrt_word_size

unfoldable pub payload : RuntimeDataPacket → Span
unfolding is_valid
payload p =
    if not (is_valid p)
    then empty_span
    else (record { offset = p.structure.payload_offset; size = p.structure.payload_size_bytes })

unfoldable pub as_bytes : RuntimeDataPacket → Span
unfolding is_valid packet_size_bytes
as_bytes p =
    if not (is_valid p) then empty_span else (record { offset = 0; size = packet_size_bytes p })

module _ (host : Endian) where
  unfoldable pub stream_id : RuntimeDataPacket → Run (Option ℕ)
  unfolding is_valid
  stream_id p =
      if not (is_valid p) || not p.structure.has_stream_id
      then done none
      else (do id ← read_u32 host (memory p.buffer) p.structure.stream_id_offset; done (some id))

  unfoldable pub class_id : RuntimeDataPacket → Run (Option ClassIdValue)
  unfolding is_valid
  class_id p = if not (is_valid p) || not p.structure.header.has_class_id then done none else (do
    word0 ← read_u32 host (memory p.buffer) p.structure.class_id_offset
    word1 ← read_u32 host (memory p.buffer) (p.structure.class_id_offset + 4)
    done (some (from_words word0 word1)))

  unfoldable pub timestamp_integer : RuntimeDataPacket → Run (Option ℕ)
  unfolding is_valid has_tsi
  timestamp_integer p =
      if not (is_valid p) || not (has_tsi p.structure.header.tsi) then done none else (do
        seconds ← read_u32 host (memory p.buffer) p.structure.tsi_offset
        done (some seconds))

  unfoldable pub timestamp_fractional : RuntimeDataPacket → Run (Option ℕ)
  unfolding is_valid has_tsf
  timestamp_fractional p =
      if not (is_valid p) || not (has_tsf p.structure.header.tsf) then done none else (do
        fraction ← read_u64 host (memory p.buffer) p.structure.tsf_offset
        done (some fraction))

  unfoldable pub trailer : RuntimeDataPacket → Run (Option ℕ)
  unfolding is_valid has_trailer
  trailer p =
      if not (is_valid p) || not (has_trailer p)
      then done none
      else (do word ← read_u32 host (memory p.buffer) p.structure.trailer_offset; done (some word))
