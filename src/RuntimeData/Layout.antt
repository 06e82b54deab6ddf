-- ===== src/RuntimeData/Layout.antt =====
-- Where the fields of an accepted data packet stand, and which packets are accepted.
use vrtio.Common.{
  ℕ, ◌+◌, ◌*◌, ◌/◌, ◌%◌, ◌^◌, ◌≤◌, ◌≡◌, refl, ap, ◌∙◌, Bool, true, false, not, bit_of, Bool-cases,
  inl, inr, ltb→le, ltb, leb, ◌==◌, if◌then◌else◌, arith,
}
use vrtio.Types.{
  packet_type_of, packet_type_value, tsi_of, tsf_of, has_tsi, has_tsf, ValidationError,
  buffer_too_small, packet_type_mismatch, size_field_mismatch,
}
use vrtio.Header.{DecodedHeader, decode_header, has_stream_id_field}
use vrtio.Header.RoundTrip.{
  decode_header-SameFields, decode_header-Interprets, packet_type_value-packet_type_of,
}
use vrtio.RuntimeData.{
  ParsedStructure, empty_structure, place_fields, validate_structure, validate_header, is_data_type,
  after_tsf, trailer_words,
}

-- The words before the payload: header, stream id, class id, integer and fractional timestamp.
abbrev pub prologue_words : Bool → Bool → Bool → Bool → ℕ
prologue_words stream class tsi tsf =
    1 + bit_of stream + 2 * bit_of class + bit_of tsi + 2 * bit_of tsf

-- The fields that the packet has stand one after the other, from the header word to the end of the
-- packet; the offset of a field that it does not have is 0.
pub record HasLayout (s : ParsedStructure) : Type 0 where
  pub stream_id_at : s.stream_id_offset ≡ (if s.has_stream_id then 4 else 0)
  pub class_id_at :
      s.class_id_offset ≡ (if s.header.has_class_id then 4 * (1 + bit_of s.has_stream_id) else 0)
  pub tsi_at : s.tsi_offset ≡ (
      if has_tsi s.header.tsi
      then 4 * prologue_words s.has_stream_id s.header.has_class_id false false
      else 0)
  pub tsf_at : s.tsf_offset ≡ (
      if has_tsf s.header.tsf
      then 4 * prologue_words s.has_stream_id s.header.has_class_id (has_tsi s.header.tsi) false
      else 0)
  pub payload_at :
      s.payload_offset
      ≡ 4
        * prologue_words s.has_stream_id s.header.has_class_id
            (has_tsi s.header.tsi)
            (has_tsf s.header.tsf)
  pub payload_ends :
      s.payload_offset + s.payload_size_bytes + 4 * bit_of s.header.trailer_included
      ≡ 4 * s.header.size_words
  pub trailer_at :
      s.trailer_offset
      ≡ (if s.header.trailer_included then s.payload_offset + s.payload_size_bytes else 0)

abbrev structure_of : DecodedHeader → ParsedStructure
structure_of g = record empty_structure { header = g; has_stream_id = has_stream_id_field g.type }

place_fields-HasLayout :
    (g : DecodedHeader)
    → g.size_words ≤ 65535
    → after_tsf (structure_of g) + trailer_words (structure_of g) ≤ g.size_words
    → HasLayout (place_fields (structure_of g))
unfolding place_fields
place_fields-HasLayout g bound fits = ground arith

-- What an accepted packet is known for.
pub record Accepts (size : ℕ) (g : DecodedHeader) (s : ParsedStructure) : Type 0 where
  pub header_kept : s.header ≡ g
  pub stream_kept : s.has_stream_id ≡ has_stream_id_field g.type
  pub data_type : is_data_type g.type ≡ true
  pub in_buffer : 4 * s.header.size_words ≤ size
  pub layout : HasLayout s

structure-Accepts :
    (size : ℕ) (g : DecodedHeader)
    → g.size_words ≤ 65535
    → is_data_type g.type ≡ true
    → (validate_structure size g).0 ≡ ValidationError.none
    → Accepts size g (validate_structure size g).1
unfolding validate_structure
structure-Accepts size g bound data_type accepted =
    elim (Bool-cases (ltb size (g.size_words * 4))) [
      | inl e ↦ let k : (validate_structure size g).0 ≡ buffer_too_small = rw e in cc k
      | inr e ↦ elim (Bool-cases (ltb g.size_words (after_tsf s + trailer_words s))) [
        | inl f ↦ let k : (validate_structure size g).0 ≡ size_field_mismatch = rw (e, f) in cc k
        | inr f ↦
            rw (e, f)
              (record {
                header_kept = unfold place_fields in refl;
                stream_kept = unfold place_fields in refl;
                data_type = data_type;
                in_buffer = unfold place_fields in omega (arith, ltb→le _ _ e);
                layout = place_fields-HasLayout g bound (ltb→le _ _ f);
              })
      ]
    ]
  where
    s : ParsedStructure
    s = record empty_structure { header = g; has_stream_id = has_stream_id_field g.type }

-- An accepted packet is a data packet, fits the buffer and has its fields in order.
pub validate_header-Accepts :
    (size : ℕ) (g : DecodedHeader)
    → g.size_words ≤ 65535
    → (validate_header size g).0 ≡ ValidationError.none
    → Accepts size g (validate_header size g).1
unfolding validate_header
validate_header-Accepts size g bound accepted = elim (Bool-cases (is_data_type g.type)) [
  | inl e ↦ rw e (structure-Accepts size g bound e (rw e at accepted))
  | inr e ↦ let k : (validate_header size g).0 ≡ packet_type_mismatch = rw e in cc k
]

-- The same by the digits of the header word, with no decoding.
abbrev pub bit : ℕ → ℕ → Bool
bit word k = word / 2 ^ k % 2 == 1

abbrev pub needed_words : ℕ → ℕ
needed_words word =
    prologue_words (bit word 28) (bit word 27) (not (word / 2 ^ 22 % 4 == 0))
      (not (word / 2 ^ 20 % 4 == 0))
    + bit_of (bit word 26)

-- What the parser must answer for a buffer of `size` bytes that starts with this header word.
abbrev pub expected_error : ℕ → ℕ → ValidationError
expected_error size word =
    if ltb 3 (word / 2 ^ 28 % 16)
    then packet_type_mismatch
    else if ltb size (4 * (word % 65536))
    then buffer_too_small
    else if ltb (word % 65536) (needed_words word)
    then size_field_mismatch
    else ValidationError.none

-- How the predicates on decoded values read the digits.
is_data_type-packet_type_of : (n : ℕ) → is_data_type (packet_type_of n) ≡ leb n 3
unfolding is_data_type packet_type_of
is_data_type-packet_type_of n = ground arith

has_stream_id_field-packet_type_of :
    (n : ℕ) → n ≤ 3 → has_stream_id_field (packet_type_of n) ≡ (n % 2 == 1)
unfolding has_stream_id_field packet_type_of
has_stream_id_field-packet_type_of n h = ground arith

pub has_tsi-tsi_of : (n : ℕ) → has_tsi (tsi_of n) ≡ not (n == 0)
unfolding has_tsi tsi_of
has_tsi-tsi_of n = ground arith

pub has_tsf-tsf_of : (n : ℕ) → has_tsf (tsf_of n) ≡ not (n == 0)
unfolding has_tsf tsf_of
has_tsf-tsf_of n = ground arith

module _ (word : ℕ) where
  h : DecodedHeader
  h = decode_header word

  -- The fields of the decoded header that the parser reads.
  record ReadsDigits : Type 0 where
    type_digits : packet_type_value h.type ≡ word / 2 ^ 28 % 16
    data_digits : is_data_type h.type ≡ leb (word / 2 ^ 28 % 16) 3
    stream_digits : word / 2 ^ 28 % 16 ≤ 3 → has_stream_id_field h.type ≡ bit word 28
    class_digits : h.has_class_id ≡ bit word 27
    tsi_digits : has_tsi h.tsi ≡ not (word / 2 ^ 22 % 4 == 0)
    tsf_digits : has_tsf h.tsf ≡ not (word / 2 ^ 20 % 4 == 0)
    trailer_digits : word / 2 ^ 28 % 16 ≤ 3 → h.trailer_included ≡ bit word 26
    size_digits : h.size_words ≡ word % 65536

  decode_header-ReadsDigits : ReadsDigits
  unfolding h
  decode_header-ReadsDigits =
      let s = decode_header-SameFields word in
      let i = decode_header-Interprets word in
      let n = word / 2 ^ 28 % 16 in
      record {
        type_digits = ap packet_type_value s.same_type ∙ packet_type_value-packet_type_of n;
        data_digits = ap is_data_type s.same_type ∙ is_data_type-packet_type_of n;
        stream_digits = λ small.
            ap has_stream_id_field s.same_type
            ∙ has_stream_id_field-packet_type_of n small
            ∙ ground arith;
        class_digits = ground arith;
        tsi_digits = ap has_tsi s.same_tsi ∙ has_tsi-tsi_of (word / 2 ^ 22 % 4);
        tsf_digits = ap has_tsf s.same_tsf ∙ has_tsf-tsf_of (word / 2 ^ 20 % 4);
        trailer_digits = λ small.
            ground (arith, ap packet_type_value s.same_type ∙ packet_type_value-packet_type_of n);
        size_digits = s.same_size_words;
      }

  s₀ : ParsedStructure
  s₀ = record empty_structure { header = h; has_stream_id = has_stream_id_field h.type }

  needed : word / 2 ^ 28 % 16 ≤ 3 → after_tsf s₀ + trailer_words s₀ ≡ needed_words word
  unfolding s₀
  needed small =
      let d = decode_header-ReadsDigits in
      rw (d.stream_digits small, d.class_digits, d.tsi_digits, d.tsf_digits, d.trailer_digits small)
        (ground arith)

  structure_error :
      (size : ℕ)
      → word / 2 ^ 28 % 16 ≤ 3
      → (validate_structure size h).0 ≡ (
          if ltb size (4 * (word % 65536))
          then buffer_too_small
          else if ltb (word % 65536) (needed_words word)
          then size_field_mismatch
          else ValidationError.none)
  unfolding validate_structure s₀
  structure_error size small =
      let d = decode_header-ReadsDigits in rw (needed small, d.size_digits) (ground arith)

  -- The answer of the parser, from the digits of the header word.
  pub validate_header-error :
      (size : ℕ) → (validate_header size (decode_header word)).0 ≡ expected_error size word
  unfolding validate_header h
  validate_header-error size =
      let d = decode_header-ReadsDigits in
      elim (Bool-cases (ltb 3 (word / 2 ^ 28 % 16))) [
        | inl e ↦ rw (d.data_digits, e, other_type e)
        | inr e ↦ rw (d.data_digits, e, data_type e) (structure_error size (ltb→le _ _ e))
      ]
    where
      other_type : ltb 3 (word / 2 ^ 28 % 16) ≡ true → leb (word / 2 ^ 28 % 16) 3 ≡ false
      other_type e = ground arith

      data_type : ltb 3 (word / 2 ^ 28 % 16) ≡ false → leb (word / 2 ^ 28 % 16) 3 ≡ true
      data_type e = ground arith
