-- ===== src/Prologue.antt =====
-- detail/prologue.hpp, with the traits of class_id.hpp and timestamp_traits.hpp that it reads: the words
-- before the payload of a packet whose form is known at compile time. The template's parameters are the
-- record `Prologue`; the object's state is the bytes of its buffer.

use vrtio.Common.{
  ℕ, zero, suc, ◌+◌, ◌*◌, bit_and, bit_or, ◌<<<◌, ◌>>>◌, u8, u16, complement32, List, [], ◌∷◌, Bool,
  true, false, ◌||◌, if◌then◌else◌, Run, done, ◌>>=◌,
}
use vrtio.Buffer.{Endian, copy_to, of_memory, copy_from, read_u32, read_u64, write_u32, write_u64}
use vrtio.ClassId.{ClassIdValue, from_words, word0, word1}
use vrtio.Types.{
  PacketType, signal_data, extension_data, packet_type_value, TsiType, TsfType, has_tsi, has_tsf,
  vrt_word_size,
}
use vrtio.Header.{build_header, size_mask, packet_count_mask, packet_count_shift}
use vrtio.Header.View.{HeaderView, raw_word}
use vrtio.Timestamp.{Timestamp, timestamp}

-- `NoClassId` and `ClassId`, and `ClassIdTraits`.
pub data ClassIdType : Type 0 where
  no_class_id class_id_present : ClassIdType

unfoldable pub class_id_traits_present : ClassIdType → Bool
class_id_traits_present no_class_id = false
class_id_traits_present class_id_present = true

unfoldable pub class_id_traits_words : ClassIdType → ℕ
class_id_traits_words no_class_id = 0
class_id_traits_words class_id_present = 2

-- `NoTimestamp` and `Timestamp<TSI, TSF>`, and `TimestampTraits`.
pub data TimestampType : Type 0 where
  no_timestamp : TimestampType
  timestamp_with : TsiType → TsfType → TimestampType

unfoldable pub timestamp_traits_present : TimestampType → Bool
timestamp_traits_present no_timestamp = false
timestamp_traits_present (timestamp_with tsi tsf) = true

unfoldable pub timestamp_traits_tsi : TimestampType → TsiType
timestamp_traits_tsi no_timestamp = TsiType.none
timestamp_traits_tsi (timestamp_with tsi tsf) = tsi

unfoldable pub timestamp_traits_tsf : TimestampType → TsfType
timestamp_traits_tsf no_timestamp = TsfType.none
timestamp_traits_tsf (timestamp_with tsi tsf) = tsf

pub record Prologue : Type 0 where
  pub packet_type : PacketType
  pub class_id_type : ClassIdType
  pub timestamp_type : TimestampType
  pub is_context : Bool

-- `Type == signal_data || Type == extension_data`.
unfoldable pub carries_stream_id : PacketType → Bool
carries_stream_id signal_data = true
carries_stream_id extension_data = true
carries_stream_id _ = false

unfoldable pub has_stream_id : Prologue → Bool
has_stream_id p = p.is_context || carries_stream_id p.packet_type

abbrev pub has_class_id : Prologue → Bool
has_class_id p = class_id_traits_present p.class_id_type

abbrev pub tsi : Prologue → TsiType
tsi p = timestamp_traits_tsi p.timestamp_type

abbrev pub tsf : Prologue → TsfType
tsf p = timestamp_traits_tsf p.timestamp_type

-- The sizes of the fields and the places where they begin, in words.
abbrev pub header_words : ℕ
header_words = 1

abbrev pub stream_id_words : Prologue → ℕ
stream_id_words p = if has_stream_id p then 1 else 0

abbrev pub class_id_words : Prologue → ℕ
class_id_words p = class_id_traits_words p.class_id_type

abbrev pub tsi_words : Prologue → ℕ
tsi_words p = if has_tsi (tsi p) then 1 else 0

abbrev pub tsf_words : Prologue → ℕ
tsf_words p = if has_tsf (tsf p) then 2 else 0

abbrev pub size_words : Prologue → ℕ
size_words p = header_words + stream_id_words p + class_id_words p + (tsi_words p + tsf_words p)

abbrev pub header_offset : ℕ
header_offset = 0

abbrev pub stream_id_offset : ℕ
stream_id_offset = header_offset + header_words

abbrev pub class_id_offset : Prologue → ℕ
class_id_offset p = stream_id_offset + stream_id_words p

abbrev pub tsi_offset : Prologue → ℕ
tsi_offset p = class_id_offset p + class_id_words p

abbrev pub tsf_offset : Prologue → ℕ
tsf_offset p = tsi_offset p + tsi_words p

abbrev pub payload_offset : Prologue → ℕ
payload_offset p = tsf_offset p + tsf_words p

-- `std::memset(buffer + offset, 0, n)`.
unfoldable pub zeros : ℕ → List ℕ
zeros zero = []
zeros (suc n) = 0 ∷ zeros n

module _ (host : Endian) (p : Prologue) where
  unfoldable pub init_header : ℕ → ℕ → Bool → List ℕ → Run (List ℕ)
  init_header packet_size packet_count has_trailer buffer =
      let header =
        build_header (packet_type_value p.packet_type) (has_class_id p) has_trailer false false
          (tsi p) (tsf p) packet_count packet_size in
      write_u32 host buffer (header_offset * vrt_word_size) header

  unfoldable pub init_stream_id : List ℕ → Run (List ℕ)
  init_stream_id buffer = write_u32 host buffer (stream_id_offset * vrt_word_size) 0

  unfoldable pub init_class_id : List ℕ → Run (List ℕ)
  init_class_id buffer =
      copy_to buffer (class_id_offset p * vrt_word_size) (zeros (class_id_words p * vrt_word_size))

  unfoldable pub init_tsi : List ℕ → Run (List ℕ)
  init_tsi buffer =
      if has_tsi (tsi p)
      then write_u32 host buffer (tsi_offset p * vrt_word_size) 0
      else done buffer

  unfoldable pub init_tsf : List ℕ → Run (List ℕ)
  init_tsf buffer =
      if has_tsf (tsf p)
      then copy_to buffer (tsf_offset p * vrt_word_size) (zeros (tsf_words p * vrt_word_size))
      else done buffer

  unfoldable pub init_timestamps : List ℕ → Run (List ℕ)
  init_timestamps buffer = do buffer₁ ← init_tsi buffer; init_tsf buffer₁

  unfoldable pub header : List ℕ → Run ℕ
  header buffer = read_u32 host buffer (header_offset * vrt_word_size)

  -- `header_word`, read through the reference: the four bytes as the host keeps a number in memory.
  unfoldable pub header_word : List ℕ → Run ℕ
  header_word buffer = do
    bytes ← copy_from buffer (header_offset * vrt_word_size) 4
    done (of_memory host bytes)

  -- `header()` of the packets, a view of `header_word`.
  unfoldable pub header_view : List ℕ → Run HeaderView
  header_view buffer = do word ← header_word buffer; done (raw_word word)

  unfoldable pub packet_size : List ℕ → Run ℕ
  packet_size buffer = do h ← header buffer; done (u16 (bit_and h size_mask))

  unfoldable pub set_packet_size : ℕ → List ℕ → Run (List ℕ)
  set_packet_size size buffer = do
    h ← header buffer
    write_u32 host buffer (header_offset * vrt_word_size)
        (bit_or (bit_and h (complement32 size_mask)) (bit_and size size_mask))

  unfoldable pub packet_count : List ℕ → Run ℕ
  packet_count buffer = do
    h ← header buffer
    done (u8 (bit_and (h >>> packet_count_shift) packet_count_mask))

  unfoldable pub set_packet_count : ℕ → List ℕ → Run (List ℕ)
  set_packet_count count buffer = do
    h ← header buffer
    write_u32 host buffer (header_offset * vrt_word_size) (
        bit_or (bit_and h (complement32 (packet_count_mask <<< packet_count_shift)))
          (bit_and count packet_count_mask <<< packet_count_shift))

  unfoldable pub stream_id : List ℕ → Run ℕ
  stream_id buffer = read_u32 host buffer (stream_id_offset * vrt_word_size)

  unfoldable pub set_stream_id : ℕ → List ℕ → Run (List ℕ)
  set_stream_id id buffer = write_u32 host buffer (stream_id_offset * vrt_word_size) id

  unfoldable pub class_id : List ℕ → Run ClassIdValue
  class_id buffer = do
    w0 ← read_u32 host buffer (class_id_offset p * vrt_word_size)
    w1 ← read_u32 host buffer ((class_id_offset p + 1) * vrt_word_size)
    done (from_words w0 w1)

  unfoldable pub set_class_id : ClassIdValue → List ℕ → Run (List ℕ)
  set_class_id cid buffer = do
    buffer₁ ← write_u32 host buffer (class_id_offset p * vrt_word_size) (word0 cid)
    write_u32 host buffer₁ ((class_id_offset p + 1) * vrt_word_size) (word1 cid)

  unfoldable pub tsi_part : List ℕ → Run ℕ
  tsi_part buffer =
      if has_tsi (tsi p) then read_u32 host buffer (tsi_offset p * vrt_word_size) else done 0

  unfoldable pub tsf_part : List ℕ → Run ℕ
  tsf_part buffer =
      if has_tsf (tsf p) then read_u64 host buffer (tsf_offset p * vrt_word_size) else done 0

  unfoldable pub get_timestamp : List ℕ → Run Timestamp
  get_timestamp buffer = do
    tsi_val ← tsi_part buffer
    tsf_val ← tsf_part buffer
    done (timestamp (tsf p) tsi_val tsf_val)

  unfoldable pub put_tsi : Timestamp → List ℕ → Run (List ℕ)
  put_tsi ts buffer =
      if has_tsi (tsi p)
      then write_u32 host buffer (tsi_offset p * vrt_word_size) ts.seconds
      else done buffer

  unfoldable pub put_tsf : Timestamp → List ℕ → Run (List ℕ)
  put_tsf ts buffer =
      if has_tsf (tsf p)
      then write_u64 host buffer (tsf_offset p * vrt_word_size) ts.fractional
      else done buffer

  unfoldable pub set_timestamp : Timestamp → List ℕ → Run (List ℕ)
  set_timestamp ts buffer = do buffer₁ ← put_tsi ts buffer; put_tsf ts buffer₁
