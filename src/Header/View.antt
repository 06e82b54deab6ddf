-- ===== src/Header/View.antt =====
-- detail/packet_header_accessor.hpp: `HeaderView` over a raw word or a decoded header, and the two
-- setters of `MutableHeaderView`.
use vrtio.Common.{
  ℕ, ◌+◌, ◌*◌, ◌/◌, ◌%◌, ◌^◌, ◌<◌, ◌≡◌, ap, ◌∙◌, sym, bit_and, bit_or, ◌<<<◌, ◌>>>◌, u8, u16,
  complement32, Bool, to_bool, arith,
}
use vrtio.Common.Bits.{bit_and_mask}
use vrtio.Common.Fields.{write_field}
use vrtio.Types.{PacketType, packet_type_of, TsiType, tsi_of, TsfType, tsf_of, has_tsi, has_tsf}
use vrtio.Header.{
  DecodedHeader, decode_header, packet_type_shift, packet_type_mask, packet_count_shift,
  packet_count_mask, size_shift, size_mask, class_id_shift, class_id_mask, tsi_shift, tsi_mask,
  tsf_shift, tsf_mask, interpret_indicators,
}
use vrtio.Header.Fields.{raw_fields, decode_header-fields}
use vrtio.Header.RoundTrip.{decode_header-SameFields}
use vrtio.Header.Indicators.{
  DataIndicators, ContextIndicators, CommandIndicators, decode_data_indicators,
  decode_data_indicators_word, decode_context_indicators, decode_context_indicators_word,
  decode_command_indicators, decode_command_indicators_word, decode_indicators-decode_header,
}

-- `std::variant<const uint32_t*, const DecodedHeader*>`, each by what it points to.
pub data HeaderView : Type 0 where
  raw_word : ℕ → HeaderView
  decoded : DecodedHeader → HeaderView

pub extract_packet_type : ℕ → PacketType
extract_packet_type word = packet_type_of (bit_and (word >>> packet_type_shift) packet_type_mask)

pub extract_packet_count : ℕ → ℕ
extract_packet_count word = u8 (bit_and (word >>> packet_count_shift) packet_count_mask)

pub extract_packet_size : ℕ → ℕ
extract_packet_size word = u16 (bit_and (word >>> size_shift) size_mask)

pub extract_has_class_id : ℕ → Bool
extract_has_class_id word = to_bool (bit_and (word >>> class_id_shift) class_id_mask)

pub extract_tsi : ℕ → TsiType
extract_tsi word = tsi_of (bit_and (word >>> tsi_shift) tsi_mask)

pub extract_tsf : ℕ → TsfType
extract_tsf word = tsf_of (bit_and (word >>> tsf_shift) tsf_mask)

unfoldable pub packet_type : HeaderView → PacketType
packet_type (raw_word word) = extract_packet_type word
packet_type (decoded h) = h.type

unfoldable pub packet_count : HeaderView → ℕ
packet_count (raw_word word) = extract_packet_count word
packet_count (decoded h) = h.packet_count

unfoldable pub packet_size : HeaderView → ℕ
packet_size (raw_word word) = extract_packet_size word
packet_size (decoded h) = h.size_words

unfoldable pub has_class_id : HeaderView → Bool
has_class_id (raw_word word) = extract_has_class_id word
has_class_id (decoded h) = h.has_class_id

unfoldable pub has_trailer : HeaderView → Bool
has_trailer (raw_word word) = (decode_data_indicators_word word).has_trailer
has_trailer (decoded h) = (decode_data_indicators h).has_trailer

unfoldable pub tsi_kind : HeaderView → TsiType
tsi_kind (raw_word word) = extract_tsi word
tsi_kind (decoded h) = h.tsi

unfoldable pub tsf_kind : HeaderView → TsfType
tsf_kind (raw_word word) = extract_tsf word
tsf_kind (decoded h) = h.tsf

unfoldable pub has_timestamp_integer : HeaderView → Bool
has_timestamp_integer v = has_tsi (tsi_kind v)

unfoldable pub has_timestamp_fractional : HeaderView → Bool
has_timestamp_fractional v = has_tsf (tsf_kind v)

unfoldable pub data_indicators : HeaderView → DataIndicators
data_indicators (raw_word word) = decode_data_indicators_word word
data_indicators (decoded h) = decode_data_indicators h

unfoldable pub context_indicators : HeaderView → ContextIndicators
context_indicators (raw_word word) = decode_context_indicators_word word
context_indicators (decoded h) = decode_context_indicators h

unfoldable pub command_indicators : HeaderView → CommandIndicators
command_indicators (raw_word word) = decode_command_indicators_word word
command_indicators (decoded h) = decode_command_indicators h

-- `MutableHeaderView`: the setters change the word that it points to.
pub update_packet_count : ℕ → ℕ → ℕ
update_packet_count word count =
    bit_or (bit_and word (complement32 (packet_count_mask <<< packet_count_shift)))
      (bit_and count packet_count_mask <<< packet_count_shift)

pub update_packet_size : ℕ → ℕ → ℕ
update_packet_size word size =
    bit_or (bit_and word (complement32 (size_mask <<< size_shift)))
      (bit_and size size_mask <<< size_shift)

-- Every accessor says the same of two views.
pub record SameView (v w : HeaderView) : Type 0 where
  pub same_packet_type : packet_type v ≡ packet_type w
  pub same_packet_count : packet_count v ≡ packet_count w
  pub same_packet_size : packet_size v ≡ packet_size w
  pub same_class_id : has_class_id v ≡ has_class_id w
  pub same_trailer : has_trailer v ≡ has_trailer w
  pub same_tsi_kind : tsi_kind v ≡ tsi_kind w
  pub same_tsf_kind : tsf_kind v ≡ tsf_kind w
  pub same_timestamp_integer : has_timestamp_integer v ≡ has_timestamp_integer w
  pub same_timestamp_fractional : has_timestamp_fractional v ≡ has_timestamp_fractional w
  pub same_data : data_indicators v ≡ data_indicators w
  pub same_context : context_indicators v ≡ context_indicators w
  pub same_command : command_indicators v ≡ command_indicators w

-- The fields read straight from the word are the digits of the word.
word_fields :
    (word : ℕ)
    → (extract_packet_type word ≡ packet_type_of (word / 2 ^ 28 % 16))
      × (extract_packet_count word ≡ word / 2 ^ 16 % 16)
      × (extract_packet_size word ≡ word % 65536)
      × (extract_has_class_id word ≡ to_bool (word / 2 ^ 27 % 2))
      × (extract_tsi word ≡ tsi_of (word / 2 ^ 22 % 4))
      × (extract_tsf word ≡ tsf_of (word / 2 ^ 20 % 4))
unfolding extract_packet_type extract_packet_count extract_packet_size extract_has_class_id
    extract_tsi extract_tsf
word_fields word = (
  rw (bit_and_mask 4 (word / 2 ^ 28)),
  omega (arith, bit_and_mask 4 (word / 2 ^ 16)),
  omega (arith, bit_and_mask 16 (word / 2 ^ 0)),
  rw (bit_and_mask 1 (word / 2 ^ 27)),
  rw (bit_and_mask 2 (word / 2 ^ 22)),
  rw (bit_and_mask 2 (word / 2 ^ 20)),
)

-- A view of a raw header word and a view of the header decoded from it answer alike.
pub raw_word-SameView : (word : ℕ) → SameView (raw_word word) (decoded (decode_header word))
unfolding packet_type packet_count packet_size has_class_id has_trailer tsi_kind tsf_kind
    has_timestamp_integer has_timestamp_fractional data_indicators context_indicators
    command_indicators
raw_word-SameView word =
    let f = word_fields word in
    let s = decode_header-SameFields word in
    let i = decode_indicators-decode_header word in
    record {
      same_packet_type = f.0 ∙ sym s.same_type;
      same_packet_count = f.1 ∙ sym s.same_packet_count;
      same_packet_size = f.2 ∙ sym s.same_size_words;
      same_class_id = f.3 ∙ sym s.same_has_class_id;
      same_trailer = ap (λ (d : DataIndicators). d.has_trailer) (sym i.0);
      same_tsi_kind = f.4 ∙ sym s.same_tsi;
      same_tsf_kind = f.5 ∙ sym s.same_tsf;
      same_timestamp_integer = ap has_tsi (f.4 ∙ sym s.same_tsi);
      same_timestamp_fractional = ap has_tsf (f.5 ∙ sym s.same_tsf);
      same_data = sym i.0;
      same_context = sym i.1;
      same_command = sym i.2;
    }

update_packet_count-sum :
    (word count : ℕ)
    → update_packet_count word count
      ≡ (word / 2 ^ 16 / 2 ^ 4 % 2 ^ 12 * 2 ^ 4 + count % 2 ^ 4) * 2 ^ 16 + word % 2 ^ 16
unfolding update_packet_count
update_packet_count-sum word count = rw (bit_and_mask 4 count) (write_field 12 4 16 word count)

update_packet_size-sum :
    (word size : ℕ)
    → update_packet_size word size
      ≡ (word / 2 ^ 0 / 2 ^ 16 % 2 ^ 16 * 2 ^ 16 + size % 2 ^ 16) * 2 ^ 0 + word % 2 ^ 0
unfolding update_packet_size
update_packet_size-sum word size = rw (bit_and_mask 16 size) (write_field 16 16 0 word size)

interpret-with_count :
    (h : DecodedHeader) (n : ℕ)
    → interpret_indicators (record h { packet_count = n })
      ≡ record (interpret_indicators h) { packet_count = n }
unfolding interpret_indicators
interpret-with_count h n = ground arith

interpret-with_size :
    (h : DecodedHeader) (n : ℕ)
    → interpret_indicators (record h { size_words = n })
      ≡ record (interpret_indicators h) { size_words = n }
unfolding interpret_indicators
interpret-with_size h n = ground arith

-- Words that agree in every field but the packet count.
raw_fields-update_packet_count :
    (word count : ℕ)
    → word < 2 ^ 32
    → raw_fields (update_packet_count word count)
      ≡ record (raw_fields word) { packet_count = count % 16 }
raw_fields-update_packet_count word count fits = rw (f.0, f.1, f.2, f.3, f.4, f.5, f.6, f.7, f.8)
  where
    u : ℕ
    u = update_packet_count word count

    f :
        (u / 2 ^ 28 % 16 ≡ word / 2 ^ 28 % 16)
        × (u / 2 ^ 27 % 2 ≡ word / 2 ^ 27 % 2)
        × (u / 2 ^ 22 % 4 ≡ word / 2 ^ 22 % 4)
        × (u / 2 ^ 20 % 4 ≡ word / 2 ^ 20 % 4)
        × (u / 2 ^ 16 % 16 ≡ count % 16)
        × (u % 65536 ≡ word % 65536)
        × (u / 2 ^ 26 % 2 ≡ word / 2 ^ 26 % 2)
        × (u / 2 ^ 25 % 2 ≡ word / 2 ^ 25 % 2)
        × (u / 2 ^ 24 % 2 ≡ word / 2 ^ 24 % 2)
    f = omega (arith, update_packet_count-sum word count)

raw_fields-update_packet_size :
    (word size : ℕ)
    → word < 2 ^ 32
    → raw_fields (update_packet_size word size)
      ≡ record (raw_fields word) { size_words = size % 65536 }
raw_fields-update_packet_size word size fits = rw (f.0, f.1, f.2, f.3, f.4, f.5, f.6, f.7, f.8)
  where
    u : ℕ
    u = update_packet_size word size

    f :
        (u / 2 ^ 28 % 16 ≡ word / 2 ^ 28 % 16)
        × (u / 2 ^ 27 % 2 ≡ word / 2 ^ 27 % 2)
        × (u / 2 ^ 22 % 4 ≡ word / 2 ^ 22 % 4)
        × (u / 2 ^ 20 % 4 ≡ word / 2 ^ 20 % 4)
        × (u / 2 ^ 16 % 16 ≡ word / 2 ^ 16 % 16)
        × (u % 65536 ≡ size % 65536)
        × (u / 2 ^ 26 % 2 ≡ word / 2 ^ 26 % 2)
        × (u / 2 ^ 25 % 2 ≡ word / 2 ^ 25 % 2)
        × (u / 2 ^ 24 % 2 ≡ word / 2 ^ 24 % 2)
    f = omega (arith, update_packet_size-sum word size)

-- The setters of a 32-bit header word set their field, to the argument's low digits, and change no
-- other: not the type, the class-ID bit, the indicators, TSI or TSF, nor each other's field.
pub decode_header-update :
    (word count size : ℕ)
    → word < 2 ^ 32
    → (decode_header (update_packet_count word count)
        ≡ record (decode_header word) { packet_count = count % 16 })
      × (decode_header (update_packet_size word size)
          ≡ record (decode_header word) { size_words = size % 65536 })
decode_header-update word count size fits = (
  decode_header-fields (update_packet_count word count)
      ∙ ap interpret_indicators (raw_fields-update_packet_count word count fits)
      ∙ interpret-with_count (raw_fields word) (count % 16)
      ∙ ap (λ (h : DecodedHeader). record h { packet_count = count % 16 })
          (sym (decode_header-fields word)),
  decode_header-fields (update_packet_size word size)
      ∙ ap interpret_indicators (raw_fields-update_packet_size word size fits)
      ∙ interpret-with_size (raw_fields word) (size % 65536)
      ∙ ap (λ (h : DecodedHeader). record h { size_words = size % 65536 })
          (sym (decode_header-fields word)),
)
