-- ===== src/Header/Indicators.antt =====
-- detail/header_indicators.hpp: the indicators, read from the raw word or from the decoded header.
use vrtio.Common.{
  ℕ, ◌/◌, ◌%◌, ◌^◌, ◌≡◌, ap, ◌∙◌, bit_and, ◌>>>◌, u8, Bool, false, ◌==◌, ◌||◌, leb, to_bool,
  if◌then◌else◌, arith, ◌≤◌, le→leb,
}
use vrtio.Common.Bits.{bit_and_mask}
use vrtio.Types.{PacketType, packet_type_of, packet_type_value}
use vrtio.Header.{
  DecodedHeader, decode_header, packet_type_shift, packet_type_mask, indicator_bit_26_shift,
  indicator_bit_25_shift, indicator_bit_24_shift, indicator_bit_mask,
}
use vrtio.Header.Fields.{raw_fields}
use vrtio.Header.RoundTrip.{
  packet_type_value-packet_type_of, SameFields, Interprets, decode_header-SameFields,
  decode_header-Interprets,
}

pub record DataIndicators : Type 0 where
  pub has_trailer : Bool
  pub spectrum : Bool
  pub nd0 : Bool

pub record ContextIndicators : Type 0 where
  pub timestamp_mode : Bool
  pub nd0 : Bool

pub record CommandIndicators : Type 0 where
  pub acknowledge : Bool
  pub cancel : Bool

abbrev no_data_indicators : DataIndicators
no_data_indicators = record { has_trailer = false; spectrum = false; nd0 = false }

abbrev no_context_indicators : ContextIndicators
no_context_indicators = record { timestamp_mode = false; nd0 = false }

abbrev no_command_indicators : CommandIndicators
no_command_indicators = record { acknowledge = false; cancel = false }

-- `(header_word >> shift) & mask` for one indicator, and the type's four bits.
abbrev indicator : ℕ → ℕ → Bool
indicator header_word shift = to_bool (bit_and (header_word >>> shift) indicator_bit_mask)

abbrev type_bits : ℕ → ℕ
type_bits header_word = u8 (bit_and (header_word >>> packet_type_shift) packet_type_mask)

-- The overloads on the raw header word.
pub decode_data_indicators_word : ℕ → DataIndicators
decode_data_indicators_word header_word =
    if leb (type_bits header_word) 3
    then (record {
      has_trailer = indicator header_word indicator_bit_26_shift;
      nd0 = indicator header_word indicator_bit_25_shift;
      spectrum = indicator header_word indicator_bit_24_shift;
    })
    else no_data_indicators

pub decode_context_indicators_word : ℕ → ContextIndicators
decode_context_indicators_word header_word =
    let type = type_bits header_word in
    if type == 4 || type == 5
    then (record {
      nd0 = indicator header_word indicator_bit_25_shift;
      timestamp_mode = indicator header_word indicator_bit_24_shift;
    })
    else no_context_indicators

pub decode_command_indicators_word : ℕ → CommandIndicators
decode_command_indicators_word header_word =
    let type = type_bits header_word in
    if type == 6 || type == 7
    then (record {
      acknowledge = indicator header_word indicator_bit_26_shift;
      cancel = indicator header_word indicator_bit_24_shift;
    })
    else no_command_indicators

-- The overloads on the decoded header.
unfoldable pub decode_data_indicators : DecodedHeader → DataIndicators
decode_data_indicators h =
    if leb (packet_type_value h.type) 3
    then (record { has_trailer = h.trailer_included; spectrum = h.signal_spectrum; nd0 = h.nd0 })
    else no_data_indicators

-- `header.type == PacketType::context || header.type == PacketType::extension_context`.
pub decode_context_indicators : DecodedHeader → ContextIndicators
decode_context_indicators h = elim h.type [
  | PacketType.context ↦ record { timestamp_mode = h.context_tsm; nd0 = h.nd0 }
  | PacketType.extension_context ↦ record { timestamp_mode = h.context_tsm; nd0 = h.nd0 }
  | _ ↦ no_context_indicators
]

pub decode_command_indicators : DecodedHeader → CommandIndicators
decode_command_indicators h = elim h.type [
  | PacketType.command ↦ record { acknowledge = h.command_ack; cancel = h.command_cancel }
  | PacketType.extension_command ↦ record { acknowledge = h.command_ack; cancel = h.command_cancel }
  | _ ↦ no_command_indicators
]

pub has_trailer-data :
    (h : DecodedHeader)
    → packet_type_value h.type ≤ 3
    → (decode_data_indicators h).has_trailer ≡ h.trailer_included
unfolding decode_data_indicators
has_trailer-data h small = rw (le→leb _ _ small)

type_bits_lem : (w : ℕ) → type_bits w ≡ w / 2 ^ 28 % 16
type_bits_lem w = omega (arith, bit_and_mask 4 (w / 2 ^ 28))

-- Which branch the decoded overloads take, by the four type bits.
context_branch :
    (h : DecodedHeader) (n : ℕ)
    → h.type ≡ packet_type_of n
    → decode_context_indicators h ≡ (
        if n == 4 || n == 5
        then (record { timestamp_mode = h.context_tsm; nd0 = h.nd0 })
        else no_context_indicators)
unfolding decode_context_indicators packet_type_of
context_branch h n e = ground arith

command_branch :
    (h : DecodedHeader) (n : ℕ)
    → h.type ≡ packet_type_of n
    → decode_command_indicators h ≡ (
        if n == 6 || n == 7
        then (record { acknowledge = h.command_ack; cancel = h.command_cancel })
        else no_command_indicators)
unfolding decode_command_indicators packet_type_of
command_branch h n e = ground arith

module _ (word : ℕ) where
  abbrev Facts : Type 0
  Facts = SameFields (decode_header word) (raw_fields word) × Interprets (decode_header word)

  read_facts : Facts
  read_facts = (decode_header-SameFields word, decode_header-Interprets word)

  type_number : packet_type_value (decode_header word).type ≡ word / 2 ^ 28 % 16
  type_number =
      ap packet_type_value (decode_header-SameFields word).same_type
      ∙ packet_type_value-packet_type_of (word / 2 ^ 28 % 16)

  data_same : decode_data_indicators (decode_header word) ≡ decode_data_indicators_word word
  unfolding decode_data_indicators decode_data_indicators_word
  data_same =
      let f = read_facts in
      ground (
        arith,
        f,
        type_number,
        type_bits_lem word,
        bit_and_mask 1 (word / 2 ^ 26),
        bit_and_mask 1 (word / 2 ^ 25),
        bit_and_mask 1 (word / 2 ^ 24),
      )

  context_same :
      decode_context_indicators (decode_header word) ≡ decode_context_indicators_word word
  unfolding decode_context_indicators_word
  context_same =
      let f = read_facts in
      ground (
        arith,
        f,
        type_number,
        type_bits_lem word,
        context_branch (decode_header word) (word / 2 ^ 28 % 16) f.0.same_type,
        bit_and_mask 1 (word / 2 ^ 25),
        bit_and_mask 1 (word / 2 ^ 24),
      )

  command_same :
      decode_command_indicators (decode_header word) ≡ decode_command_indicators_word word
  unfolding decode_command_indicators_word
  command_same =
      let f = read_facts in
      ground (
        arith,
        f,
        type_number,
        type_bits_lem word,
        command_branch (decode_header word) (word / 2 ^ 28 % 16) f.0.same_type,
        bit_and_mask 1 (word / 2 ^ 26),
        bit_and_mask 1 (word / 2 ^ 24),
      )

-- The raw word and the decoded header give the same indicators, for every header word.
pub decode_indicators-decode_header :
    (word : ℕ)
    → (decode_data_indicators (decode_header word) ≡ decode_data_indicators_word word)
      × (decode_context_indicators (decode_header word) ≡ decode_context_indicators_word word)
      × (decode_command_indicators (decode_header word) ≡ decode_command_indicators_word word)
decode_indicators-decode_header word = (data_same word, context_same word, command_same word)
