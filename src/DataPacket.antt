-- ===== src/DataPacket.antt =====
-- detail/data_packet.hpp: data packets whose form is known at compile time, and detail/builder.hpp, which
-- builds them. The template's parameters are the record `DataPacket`; `requires` clauses and the static
-- assertion are `IsDataPacket`. The object's state is the bytes of its buffer.
pub mod Builder
pub mod Contents
pub mod Kept
pub mod Calls
pub mod Stamps
pub mod Body
pub mod Count
pub mod Refines
pub mod Digits
pub mod Validate
pub mod Places
pub mod Delivers
pub mod Own
pub mod ReadsBack
mod Tests
use vrtio.Common.{
  ℕ, ◌+◌, ◌*◌, ◌≤◌, ◌≡◌, min, u16, List, length, take, Bool, true, false, not, ltb, ◌==◌, bit_of,
  if◌then◌else◌, Run, done, ◌>>=◌,
}
use vrtio.Buffer.{Endian, copy_to}
use vrtio.ClassId.{ClassIdValue}
use vrtio.Memory.{Span}
use vrtio.Types.{
  PacketType, TsiType, TsfType, packet_type_value, tsi_value, tsf_value, ValidationError,
  buffer_too_small, packet_type_mismatch, class_id_bit_mismatch, trailer_bit_mismatch, tsi_mismatch,
  tsf_mismatch, size_field_mismatch, vrt_word_size, max_packet_words,
}
use vrtio.Header.{DecodedHeader, decode_header}
use vrtio.Timestamp.{Timestamp}
use vrtio.Header.View.{HeaderView}
use vrtio.Prologue.{Prologue, ClassIdType, TimestampType}
use vrtio.Prologue
use vrtio.RuntimeData.{is_data_type}
use vrtio.Trailer.Setters.{Setter, perform}

-- The template's parameters.
pub record DataPacket : Type 0 where
  pub packet_type : PacketType
  pub class_id_type : ClassIdType
  pub timestamp_type : TimestampType
  pub has_trailer : Bool
  pub payload_words : ℕ

abbrev pub prologue_type : DataPacket → Prologue
prologue_type d = record {
  packet_type = d.packet_type;
  class_id_type = d.class_id_type;
  timestamp_type = d.timestamp_type;
  is_context = false;
}

abbrev pub payload_size_bytes : DataPacket → ℕ
payload_size_bytes d = d.payload_words * vrt_word_size

abbrev pub size_words : DataPacket → ℕ
size_words d =
    Prologue.size_words (prologue_type d) + d.payload_words + (if d.has_trailer then 1 else 0)

abbrev pub size_bytes : DataPacket → ℕ
size_bytes d = size_words d * vrt_word_size

-- The `requires` clause, `ValidPayloadWords` and the static assertion.
pub record IsDataPacket (d : DataPacket) : Type 0 where
  pub data_type : is_data_type d.packet_type ≡ true
  pub valid_payload : d.payload_words ≤ 65529
  pub size_fits : size_words d ≤ max_packet_words

abbrev pub payload_offset : DataPacket → ℕ
payload_offset d = Prologue.payload_offset (prologue_type d)

abbrev pub trailer_offset : DataPacket → ℕ
trailer_offset d = payload_offset d + d.payload_words

module _ (host : Endian) (d : DataPacket) where
  unfoldable pub init_header : List ℕ → Run (List ℕ)
  init_header buffer =
      Prologue.init_header host (prologue_type d) (u16 (size_words d)) 0 d.has_trailer buffer

  unfoldable pub init_class_id : List ℕ → Run (List ℕ)
  init_class_id buffer =
      if Prologue.has_class_id (prologue_type d)
      then Prologue.init_class_id host (prologue_type d) buffer
      else done buffer

  -- `DataPacket(buffer, init)`: what it leaves in the buffer.
  unfoldable pub construct : Bool → List ℕ → Run (List ℕ)
  construct true buffer = do buffer₁ ← init_header buffer; init_class_id buffer₁
  construct false buffer = done buffer

  -- The warning of debug builds is output, not state.
  unfoldable pub set_packet_count : ℕ → List ℕ → Run (List ℕ)
  set_packet_count count buffer = Prologue.set_packet_count host (prologue_type d) count buffer

  unfoldable pub set_stream_id : ℕ → List ℕ → Run (List ℕ)
  set_stream_id id buffer = Prologue.set_stream_id host (prologue_type d) id buffer

  unfoldable pub set_timestamp : Timestamp → List ℕ → Run (List ℕ)
  set_timestamp ts buffer = Prologue.set_timestamp host (prologue_type d) ts buffer

  unfoldable pub set_class_id : ClassIdValue → List ℕ → Run (List ℕ)
  set_class_id cid buffer = Prologue.set_class_id host (prologue_type d) cid buffer

  -- The accessors, each the prologue's.
  unfoldable pub header_view : List ℕ → Run HeaderView
  header_view buffer = Prologue.header_view host (prologue_type d) buffer

  unfoldable pub packet_count : List ℕ → Run ℕ
  packet_count buffer = Prologue.packet_count host (prologue_type d) buffer

  unfoldable pub stream_id : List ℕ → Run ℕ
  stream_id buffer = Prologue.stream_id host (prologue_type d) buffer

  unfoldable pub get_timestamp : List ℕ → Run Timestamp
  get_timestamp buffer = Prologue.get_timestamp host (prologue_type d) buffer

  unfoldable pub class_id : List ℕ → Run ClassIdValue
  class_id buffer = Prologue.class_id host (prologue_type d) buffer

  -- A call of the view that `trailer()` returns.
  unfoldable pub trailer : Setter → List ℕ → Run (List ℕ)
  trailer call buffer = perform host call buffer (trailer_offset d * vrt_word_size)

  unfoldable pub payload : Span
  payload = record { offset = payload_offset d * vrt_word_size; size = payload_size_bytes d }

  -- `size` bytes can be read at `data`, the list `source`.
  unfoldable pub set_payload : List ℕ → List ℕ → Run (List ℕ)
  set_payload source buffer =
      let copy_size = min (length source) payload.size in
      copy_to buffer payload.offset (take copy_size source)

  unfoldable pub as_bytes : Span
  as_bytes = record { offset = 0; size = size_bytes d }

  -- The checks of `validate` on the decoded header, in order.
  unfoldable pub check_header : DecodedHeader → ValidationError
  check_header h =
      if not (packet_type_value h.type == packet_type_value d.packet_type)
      then packet_type_mismatch
      else if not (bit_of h.has_class_id == bit_of (Prologue.has_class_id (prologue_type d)))
      then class_id_bit_mismatch
      else if not (bit_of h.trailer_included == bit_of d.has_trailer)
      then trailer_bit_mismatch
      else if not (tsi_value h.tsi == tsi_value (Prologue.tsi (prologue_type d)))
      then tsi_mismatch
      else if not (tsf_value h.tsf == tsf_value (Prologue.tsf (prologue_type d)))
      then tsf_mismatch
      else if not (h.size_words == size_words d)
      then size_field_mismatch
      else ValidationError.none

  unfoldable pub validate : ℕ → List ℕ → Run ValidationError
  validate buffer_size buffer =
      if ltb buffer_size (size_bytes d) then done buffer_too_small else (do
        header ← Prologue.header host (prologue_type d) buffer
        done (check_header (decode_header header)))
