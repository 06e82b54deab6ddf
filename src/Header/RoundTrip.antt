-- ===== src/Header/RoundTrip.antt =====
-- `build_header` and `decode_header` are inverse, and what decoding says of each field.
use vrtio.Common.{
  ℕ, ◌/◌, ◌%◌, ◌^◌, ◌≤◌, ◌<◌, ◌≡◌, refl, ap, ◌∙◌, Bool, true, false, bit_of, to_bool, ◌==◌, ◌&&◌,
  ◌||◌, leb, arith,
}
use vrtio.Types.{
  packet_type_of, packet_type_value, TsiType, tsi_of, tsi_value, TsfType, tsf_of, tsf_value,
}
use vrtio.Header.{build_header, decode_header, interpret_indicators, zero_header, DecodedHeader}
use vrtio.Header.Fields.{
  header_sum, raw_fields, build_header-sum, decode_header-fields, tsi_value-lt, tsf_value-lt,
  bit_of-lt,
}

pub packet_type_value-packet_type_of : (n : ℕ) → packet_type_value (packet_type_of n) ≡ n
unfolding packet_type_value packet_type_of
packet_type_value-packet_type_of n = ground arith

pub tsi_of-tsi_value : (t : TsiType) → tsi_of (tsi_value t) ≡ t
unfolding tsi_of tsi_value
tsi_of-tsi_value t = ground arith

pub tsf_of-tsf_value : (t : TsfType) → tsf_of (tsf_value t) ≡ t
unfolding tsf_of tsf_value
tsf_of-tsf_value t = ground arith

pub tsi_value-tsi_of : (n : ℕ) → n < 4 → tsi_value (tsi_of n) ≡ n
unfolding tsi_of tsi_value
tsi_value-tsi_of n h = ground arith

pub tsf_value-tsf_of : (n : ℕ) → n < 4 → tsf_value (tsf_of n) ≡ n
unfolding tsf_of tsf_value
tsf_value-tsf_of n h = ground arith

pub to_bool-bit_of : (b : Bool) → to_bool (bit_of b) ≡ b
to_bool-bit_of true = refl
to_bool-bit_of false = refl

pub bit_of-to_bool : (n : ℕ) → n < 2 → bit_of (to_bool n) ≡ n
bit_of-to_bool n h = ground arith

-- The fields that every packet type has, and the three raw bits, pass through the interpretation.
pub record SameFields (h g : DecodedHeader) : Type 0 where
  pub same_type : h.type ≡ g.type
  pub same_size_words : h.size_words ≡ g.size_words
  pub same_has_class_id : h.has_class_id ≡ g.has_class_id
  pub same_tsi : h.tsi ≡ g.tsi
  pub same_tsf : h.tsf ≡ g.tsf
  pub same_packet_count : h.packet_count ≡ g.packet_count
  pub same_bit_26 : h.bit_26 ≡ g.bit_26
  pub same_bit_25 : h.bit_25 ≡ g.bit_25
  pub same_bit_24 : h.bit_24 ≡ g.bit_24

-- What bits 26 to 24 mean, by packet type (VITA 49.2, table 5.1.1.1-1).
pub record Interprets (h : DecodedHeader) : Type 0 where
  pub is_trailer : h.trailer_included ≡ (leb (packet_type_value h.type) 3 && h.bit_26)
  pub is_spectrum : h.signal_spectrum ≡ (leb (packet_type_value h.type) 3 && h.bit_24)
  pub is_nd0 : h.nd0 ≡ (leb (packet_type_value h.type) 5 && h.bit_25)
  pub is_tsm :
      h.context_tsm ≡ ((packet_type_value h.type == 4 || packet_type_value h.type == 5) && h.bit_24)
  pub is_ack :
      h.command_ack ≡ ((packet_type_value h.type == 6 || packet_type_value h.type == 7) && h.bit_26)
  pub is_cancel :
      h.command_cancel
      ≡ ((packet_type_value h.type == 6 || packet_type_value h.type == 7) && h.bit_24)

pub interpret_indicators-SameFields : (h : DecodedHeader) → SameFields (interpret_indicators h) h
unfolding interpret_indicators
interpret_indicators-SameFields h = ground arith

pub interpret_indicators-Interprets : (h : DecodedHeader) → Interprets (interpret_indicators h)
unfolding interpret_indicators
interpret_indicators-Interprets h = ground arith

-- Decoding any header word interprets bits 26 to 24 by the packet type, and only for the types that
-- have them.
pub decode_header-Interprets : (word : ℕ) → Interprets (decode_header word)
decode_header-Interprets word =
    rw (decode_header-fields word) (interpret_indicators-Interprets (raw_fields word))

pub decode_header-SameFields : (word : ℕ) → SameFields (decode_header word) (raw_fields word)
decode_header-SameFields word =
    rw (decode_header-fields word) (interpret_indicators-SameFields (raw_fields word))

-- The nine digits of a header word.
abbrev HasDigits : ℕ → ℕ → ℕ → ℕ → ℕ → ℕ → ℕ → ℕ → ℕ → ℕ → Type 0
HasDigits word t c b26 b25 b24 i f n s =
    (word / 2 ^ 28 % 16 ≡ t)
    × (word / 2 ^ 27 % 2 ≡ c)
    × (word / 2 ^ 26 % 2 ≡ b26)
    × (word / 2 ^ 25 % 2 ≡ b25)
    × (word / 2 ^ 24 % 2 ≡ b24)
    × (word / 2 ^ 22 % 4 ≡ i)
    × (word / 2 ^ 20 % 4 ≡ f)
    × (word / 2 ^ 16 % 16 ≡ n)
    × (word % 65536 ≡ s)

header_sum-HasDigits :
    (t c b26 b25 b24 i f n s : ℕ)
    → t < 16
    → c < 2
    → b26 < 2
    → b25 < 2
    → b24 < 2
    → i < 4
    → f < 4
    → n < 16
    → s < 65536
    → HasDigits (header_sum t c b26 b25 b24 i f n s) t c b26 b25 b24 i f n s
header_sum-HasDigits t c b26 b25 b24 i f n s ht hc h26 h25 h24 hi hf hn hs = omega arith

-- The header that the arguments of `build_header` describe.
abbrev pub given_header : ℕ → Bool → Bool → Bool → Bool → TsiType → TsfType → ℕ → ℕ → DecodedHeader
given_header type c b26 b25 b24 tsi tsf count size = record zero_header {
  type = packet_type_of (type % 16);
  has_class_id = c;
  tsi = tsi;
  tsf = tsf;
  packet_count = count % 16;
  size_words = size % 65536;
  bit_26 = b26;
  bit_25 = b25;
  bit_24 = b24;
}

raw_fields-build_header :
    (type : ℕ) (c b26 b25 b24 : Bool) (tsi : TsiType) (tsf : TsfType) (count size : ℕ)
    → raw_fields (build_header type c b26 b25 b24 tsi tsf count size)
      ≡ given_header type c b26 b25 b24 tsi tsf count size
raw_fields-build_header type c b26 b25 b24 tsi tsf count size = rw (
  build_header-sum type c b26 b25 b24 tsi tsf count size,
  d.0,
  d.1,
  d.2,
  d.3,
  d.4,
  d.5,
  d.6,
  d.7,
  d.8,
  to_bool-bit_of c,
  to_bool-bit_of b26,
  to_bool-bit_of b25,
  to_bool-bit_of b24,
  tsi_of-tsi_value tsi,
  tsf_of-tsf_value tsf,
)
  where
    word : ℕ
    word =
        header_sum (type % 16) (bit_of c) (bit_of b26) (bit_of b25) (bit_of b24) (tsi_value tsi)
          (tsf_value tsf) (count % 16) (size % 65536)

    d :
        HasDigits word
          (type % 16)
          (bit_of c)
          (bit_of b26)
          (bit_of b25)
          (bit_of b24)
          (tsi_value tsi)
          (tsf_value tsf)
          (count % 16)
          (size % 65536)
    d =
        header_sum-HasDigits (type % 16) (bit_of c) (bit_of b26) (bit_of b25) (bit_of b24)
          (tsi_value tsi) (tsf_value tsf) (count % 16) (size % 65536) (omega arith) (bit_of-lt c)
          (bit_of-lt b26) (bit_of-lt b25) (bit_of-lt b24) (tsi_value-lt tsi) (tsf_value-lt tsf)
          (omega arith) (omega arith)

-- Decoding a built header word gives back every argument, cut to the width of its field.
pub decode_header-build_header :
    (type : ℕ) (c b26 b25 b24 : Bool) (tsi : TsiType) (tsf : TsfType) (count size : ℕ)
    → decode_header (build_header type c b26 b25 b24 tsi tsf count size)
      ≡ interpret_indicators (given_header type c b26 b25 b24 tsi tsf count size)
decode_header-build_header type c b26 b25 b24 tsi tsf count size =
    decode_header-fields (build_header type c b26 b25 b24 tsi tsf count size)
    ∙ ap interpret_indicators (raw_fields-build_header type c b26 b25 b24 tsi tsf count size)

-- Building from the decoded fields of a 32-bit word gives the word back: decoding loses nothing.
pub build_header-decode_header :
    (word : ℕ)
    → word < 2 ^ 32
    → let h = decode_header word in
      build_header
        (packet_type_value h.type)
        h.has_class_id
        h.bit_26
        h.bit_25
        h.bit_24
        h.tsi
        h.tsf
        h.packet_count
        h.size_words
      ≡ word
build_header-decode_header word fits =
    let s = decode_header-SameFields word in
    rw
      (
        s.same_type,
        s.same_has_class_id,
        s.same_bit_26,
        s.same_bit_25,
        s.same_bit_24,
        s.same_tsi,
        s.same_tsf,
        s.same_packet_count,
        s.same_size_words,
        build_header-sum (packet_type_value (raw_fields word).type) (raw_fields word).has_class_id
            (raw_fields word).bit_26 (raw_fields word).bit_25 (raw_fields word).bit_24
            (raw_fields word).tsi (raw_fields word).tsf (raw_fields word).packet_count
            (raw_fields word).size_words,
        packet_type_value-packet_type_of (word / 2 ^ 28 % 16),
        bit_of-to_bool (word / 2 ^ 27 % 2) (omega arith),
        bit_of-to_bool (word / 2 ^ 26 % 2) (omega arith),
        bit_of-to_bool (word / 2 ^ 25 % 2) (omega arith),
        bit_of-to_bool (word / 2 ^ 24 % 2) (omega arith),
        tsi_value-tsi_of (word / 2 ^ 22 % 4) (omega arith),
        tsf_value-tsf_of (word / 2 ^ 20 % 4) (omega arith),
      )
      (omega arith)

-- What the decoded numbers can be.
pub decode_header_bounds :
    (word : ℕ)
    → (packet_type_value (decode_header word).type < 16)
      × ((decode_header word).packet_count < 16)
      × ((decode_header word).size_words ≤ 65535)
decode_header_bounds word =
    let s = decode_header-SameFields word in
    rw
      (
        s.same_type,
        s.same_packet_count,
        s.same_size_words,
        packet_type_value-packet_type_of (word / 2 ^ 28 % 16),
      )
      (omega arith)
