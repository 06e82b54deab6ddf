-- ===== src/DataPacket/Digits.antt =====
-- The header word of a data packet by its digits, and what `validate` makes of any header word.
use vrtio.Common.{
  ℕ, ◌+◌, ◌*◌, ◌/◌, ◌%◌, ◌^◌, ◌≤◌, ◌<◌, ◌≡◌, refl, ap, ◌∙◌, sym, false, bit_of, not, ◌==◌, le→leb,
  if◌then◌else◌, arith,
}
use vrtio.Buffer.{Endian}
use vrtio.Types.{
  packet_type_value, tsi_value, tsf_value, ValidationError, packet_type_mismatch,
  class_id_bit_mismatch, trailer_bit_mismatch, tsi_mismatch, tsf_mismatch, size_field_mismatch,
}
use vrtio.Header.{decode_header, DecodedHeader}
use vrtio.Header.Fields.{header_sum, build_header-sum, tsi_value-lt, tsf_value-lt, bit_of-lt}
use vrtio.Header.RoundTrip.{
  decode_header-SameFields, decode_header-Interprets, packet_type_value-packet_type_of,
  tsi_value-tsi_of, tsf_value-tsf_of, bit_of-to_bool,
}
use vrtio.RuntimeData.Access.{small_type}
use vrtio.Prologue
use vrtio.DataPacket.{DataPacket, IsDataPacket, prologue_type, size_words, check_header}
use vrtio.DataPacket.Contents.{header_of}

module _ (host : Endian) (d : DataPacket) (valid : IsDataPacket d) where
  -- The digits of the packet's header word.
  pub record HasDigits (word : ℕ) : Type 0 where
    pub type_digits : word / 2 ^ 28 % 16 ≡ packet_type_value d.packet_type
    pub class_digit : word / 2 ^ 27 % 2 ≡ bit_of (Prologue.has_class_id (prologue_type d))
    pub trailer_digit : word / 2 ^ 26 % 2 ≡ bit_of d.has_trailer
    pub tsi_digits : word / 2 ^ 22 % 4 ≡ tsi_value (Prologue.tsi (prologue_type d))
    pub tsf_digits : word / 2 ^ 20 % 4 ≡ tsf_value (Prologue.tsf (prologue_type d))
    pub size_digits : word % 65536 ≡ size_words d

  pub header_of-sum :
      (n : ℕ)
      → header_of host d n
        ≡ header_sum
            (packet_type_value d.packet_type)
            (bit_of (Prologue.has_class_id (prologue_type d)))
            (bit_of d.has_trailer)
            0
            0
            (tsi_value (Prologue.tsi (prologue_type d)))
            (tsf_value (Prologue.tsf (prologue_type d)))
            (n % 16)
            (size_words d)
  header_of-sum n =
      let type : packet_type_value d.packet_type % 16 ≡ packet_type_value d.packet_type =
        omega (arith, small_type d.packet_type valid.data_type) in
      let size : size_words d % 65536 ≡ size_words d = omega (arith, valid.size_fits) in
      build_header-sum (packet_type_value d.packet_type) (Prologue.has_class_id (prologue_type d))
        d.has_trailer false false (Prologue.tsi (prologue_type d)) (Prologue.tsf (prologue_type d))
        n (size_words d)
      ∙ rw (type, size) refl

  -- The digits, the count and bits 25 and 24 make up the word.
  pub HasDigits-header_of :
      (word : ℕ)
      → word < 2 ^ 32
      → HasDigits word
      → word ≡ header_of host d (word / 2 ^ 16 % 16) + word / 2 ^ 24 % 4 * 2 ^ 24
  HasDigits-header_of word small h = omega (
    arith,
    header_of-sum (word / 2 ^ 16 % 16),
    h.type_digits,
    h.class_digit,
    h.trailer_digit,
    h.tsi_digits,
    h.tsf_digits,
    h.size_digits,
  )

  -- And conversely.
  pub spare_bits-HasDigits :
      (word n spare : ℕ) → spare < 4 → word ≡ header_of host d n + spare * 2 ^ 24 → HasDigits word
  spare_bits-HasDigits word n spare few e =
      let sum = header_of-sum n in
      let t = small_type d.packet_type valid.data_type in
      let c = bit_of-lt (Prologue.has_class_id (prologue_type d)) in
      let r = bit_of-lt d.has_trailer in
      let i = tsi_value-lt (Prologue.tsi (prologue_type d)) in
      let f = tsf_value-lt (Prologue.tsf (prologue_type d)) in
      let s = valid.size_fits in
      record {
        type_digits = omega (arith, e, few, sum, t, c, r, i, f, s);
        class_digit = omega (arith, e, few, sum, t, c, r, i, f, s);
        trailer_digit = omega (arith, e, few, sum, t, c, r, i, f, s);
        tsi_digits = omega (arith, e, few, sum, t, c, r, i, f, s);
        tsf_digits = omega (arith, e, few, sum, t, c, r, i, f, s);
        size_digits = omega (arith, e, few, sum, t, c, r, i, f, s);
      }

  pub header_of-HasDigits : (n : ℕ) → HasDigits (header_of host d n)
  header_of-HasDigits n = spare_bits-HasDigits (header_of host d n) n 0 (omega arith) (omega arith)

-- The answer to six comparisons in order.
abbrev first_difference : ℕ → ℕ → ℕ → ℕ → ℕ → ℕ → ℕ → ℕ → ℕ → ℕ → ℕ → ℕ → ValidationError
first_difference t t' c c' r r' i i' f f' s s' =
    if not (t == t')
    then packet_type_mismatch
    else if not (c == c')
    then class_id_bit_mismatch
    else if not (r == r')
    then trailer_bit_mismatch
    else if not (i == i')
    then tsi_mismatch
    else if not (f == f')
    then tsf_mismatch
    else if not (s == s')
    then size_field_mismatch
    else ValidationError.none

no_difference :
    (t t' c c' r r' i i' f f' s s' : ℕ)
    → first_difference t t' c c' r r' i i' f f' s s' ≡ ValidationError.none
    → (t ≡ t') × (c ≡ c') × (r ≡ r') × (i ≡ i') × (f ≡ f') × (s ≡ s')
no_difference t t' c c' r r' i i' f f' s s' h = ground arith

first_difference_same :
    (t c r i f s : ℕ) → first_difference t t c c r r i i f f s s ≡ ValidationError.none
first_difference_same t c r i f s = ground arith

module _ (d : DataPacket) (valid : IsDataPacket d) (word : ℕ) where
  abbrev h : DecodedHeader
  h = decode_header word

  abbrev type_number : ℕ
  type_number = word / 2 ^ 28 % 16

  -- The numbers that `validate` compares, as digits of the word.
  h_type : packet_type_value h.type ≡ type_number
  h_type =
      ap packet_type_value (decode_header-SameFields word).same_type
      ∙ packet_type_value-packet_type_of type_number

  h_class : bit_of h.has_class_id ≡ word / 2 ^ 27 % 2
  h_class =
      ap bit_of (decode_header-SameFields word).same_has_class_id
      ∙ bit_of-to_bool (word / 2 ^ 27 % 2) (omega arith)

  h_tsi : tsi_value h.tsi ≡ word / 2 ^ 22 % 4
  h_tsi =
      ap tsi_value (decode_header-SameFields word).same_tsi
      ∙ tsi_value-tsi_of (word / 2 ^ 22 % 4) (omega arith)

  h_tsf : tsf_value h.tsf ≡ word / 2 ^ 20 % 4
  h_tsf =
      ap tsf_value (decode_header-SameFields word).same_tsf
      ∙ tsf_value-tsf_of (word / 2 ^ 20 % 4) (omega arith)

  h_size : h.size_words ≡ word % 65536
  h_size = (decode_header-SameFields word).same_size_words

  h_trailer : type_number ≤ 3 → bit_of h.trailer_included ≡ word / 2 ^ 26 % 2
  h_trailer small =
      let i = (decode_header-Interprets word).is_trailer in
      let b = (decode_header-SameFields word).same_bit_26 in
      ap bit_of (i ∙ rw (h_type, le→leb type_number 3 small, b) refl)
      ∙ bit_of-to_bool (word / 2 ^ 26 % 2) (omega arith)

  pub check_header-HasDigits :
      (host : Endian) → HasDigits host d valid word → check_header host d h ≡ ValidationError.none
  unfolding check_header
  check_header-HasDigits host g =
      rw
        (
          h_type,
          h_class,
          h_trailer (rw g.type_digits (small_type d.packet_type valid.data_type)),
          h_tsi,
          h_tsf,
          h_size,
          g.type_digits,
          g.class_digit,
          g.trailer_digit,
          g.tsi_digits,
          g.tsf_digits,
          g.size_digits,
        )
        (first_difference_same (packet_type_value d.packet_type)
          (bit_of (Prologue.has_class_id (prologue_type d))) (bit_of d.has_trailer)
          (tsi_value (Prologue.tsi (prologue_type d))) (tsf_value (Prologue.tsf (prologue_type d)))
          (size_words d))

  pub HasDigits-check_header :
      (host : Endian) → check_header host d h ≡ ValidationError.none → HasDigits host d valid word
  unfolding check_header
  HasDigits-check_header host ok =
      let n =
        no_difference (packet_type_value h.type) (packet_type_value d.packet_type)
          (bit_of h.has_class_id) (bit_of (Prologue.has_class_id (prologue_type d)))
          (bit_of h.trailer_included) (bit_of d.has_trailer) (tsi_value h.tsi)
          (tsi_value (Prologue.tsi (prologue_type d))) (tsf_value h.tsf)
          (tsf_value (Prologue.tsf (prologue_type d))) h.size_words (size_words d) ok in
      let t : type_number ≡ packet_type_value d.packet_type = sym h_type ∙ n.0 in
      record {
        type_digits = t;
        class_digit = sym h_class ∙ n.1;
        trailer_digit = sym (h_trailer (rw t (small_type d.packet_type valid.data_type))) ∙ n.2;
        tsi_digits = sym h_tsi ∙ n.3;
        tsf_digits = sym h_tsf ∙ n.4;
        size_digits = sym h_size ∙ n.5;
      }
