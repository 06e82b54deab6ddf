-- ===== src/Header/Meaning.antt =====
-- `decode_header` of header_decode.hpp against the digits of the header word.
use vrtio.Common.{ℕ, ◌/◌, ◌%◌, ◌^◌, ◌≡◌, ap, ◌∙◌, Bool, ◌==◌, ◌&&◌, ◌||◌, leb, arith}
use vrtio.Common.Digits.{bit, one_bit}
use vrtio.Types.{packet_type_value, tsi_value, tsf_value}
use vrtio.Header.{decode_header, DecodedHeader}
use vrtio.Header.RoundTrip.{
  decode_header-SameFields, decode_header-Interprets, packet_type_value-packet_type_of,
  tsi_value-tsi_of, tsf_value-tsf_of,
}

-- The four bits of the packet type (VITA 49.2, table 5.1.1.1-1).
abbrev pub type_digits : ℕ → ℕ
type_digits word = word / 2 ^ 28 % 16

abbrev pub is_command : ℕ → Bool
is_command t = t == 6 || t == 7

pub record Means (word : ℕ) (h : DecodedHeader) : Type 0 where
  pub type_is : packet_type_value h.type ≡ type_digits word
  pub class_id_is : h.has_class_id ≡ bit word 27
  pub tsi_is : tsi_value h.tsi ≡ word / 2 ^ 22 % 4
  pub tsf_is : tsf_value h.tsf ≡ word / 2 ^ 20 % 4
  pub count_is : h.packet_count ≡ word / 2 ^ 16 % 16
  pub size_is : h.size_words ≡ word % 2 ^ 16
  pub trailer_is : h.trailer_included ≡ (leb (type_digits word) 3 && bit word 26)
  pub spectrum_is : h.signal_spectrum ≡ (leb (type_digits word) 3 && bit word 24)
  pub nd0_is : h.nd0 ≡ (leb (type_digits word) 5 && bit word 25)
  pub tsm_is : h.context_tsm ≡ ((type_digits word == 4 || type_digits word == 5) && bit word 24)
  pub ack_is : h.command_ack ≡ (is_command (type_digits word) && bit word 26)
  pub cancel_is : h.command_cancel ≡ (is_command (type_digits word) && bit word 24)

-- Every header word decodes to what its bits say: the type, class id bit, timestamp kinds, count and size
-- are those of their digits, and bits 26, 25 and 24 are read for the packet types that have them
-- and are false for all others.
pub decode_header-Means : (word : ℕ) → Means word (decode_header word)
decode_header-Means word =
    let s = decode_header-SameFields word in
    let i = decode_header-Interprets word in
    let t : packet_type_value (decode_header word).type ≡ type_digits word =
      ap packet_type_value s.same_type ∙ packet_type_value-packet_type_of (type_digits word) in
    let b26 : (decode_header word).bit_26 ≡ bit word 26 =
      s.same_bit_26 ∙ one_bit (word / 2 ^ 26 % 2) (omega arith) in
    let b25 : (decode_header word).bit_25 ≡ bit word 25 =
      s.same_bit_25 ∙ one_bit (word / 2 ^ 25 % 2) (omega arith) in
    let b24 : (decode_header word).bit_24 ≡ bit word 24 =
      s.same_bit_24 ∙ one_bit (word / 2 ^ 24 % 2) (omega arith) in
    record {
      type_is = t;
      class_id_is = s.same_has_class_id ∙ one_bit (word / 2 ^ 27 % 2) (omega arith);
      tsi_is = ap tsi_value s.same_tsi ∙ tsi_value-tsi_of (word / 2 ^ 22 % 4) (omega arith);
      tsf_is = ap tsf_value s.same_tsf ∙ tsf_value-tsf_of (word / 2 ^ 20 % 4) (omega arith);
      count_is = s.same_packet_count;
      size_is = s.same_size_words;
      trailer_is = i.is_trailer ∙ cc (t, b26);
      spectrum_is = i.is_spectrum ∙ cc (t, b24);
      nd0_is = i.is_nd0 ∙ cc (t, b25);
      tsm_is = i.is_tsm ∙ cc (t, b24);
      ack_is = i.is_ack ∙ cc (t, b26);
      cancel_is = i.is_cancel ∙ cc (t, b24);
    }
