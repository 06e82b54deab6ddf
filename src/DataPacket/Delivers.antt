-- ===== src/DataPacket/Delivers.antt =====
-- A data packet that was built is accepted by the parser of data packets, and reads back what was set.
use vrtio.Common.{
  ℕ, ◌-◌, ◌*◌, ◌/◌, ◌%◌, ◌^◌, ◌≤◌, ◌≡◌, refl, ap, ◌∙◌, subst, false, not, List, length, slice,
  bit_of, le→ltb, le→leb, ◌==◌, if◌then◌else◌, done, arith,
}
use mathlib.Core.Option
use mathlib.Core.Option.{Option, none, some}
use vrtio.Buffer.{Endian}
use vrtio.Buffer.Bytes.{IsBytes}
use vrtio.Buffer.Access.{word_at}
use vrtio.Memory.{to, memory, is_null}
use vrtio.Types.{packet_type_value, has_tsi, has_tsf, ValidationError, buffer_too_small}
use vrtio.Header.{decode_header, DecodedHeader, has_stream_id_field, interpret_indicators}
use vrtio.Header.RoundTrip.{
  given_header, decode_header-build_header, interpret_indicators-SameFields,
  interpret_indicators-Interprets,
}
use vrtio.Prologue
use vrtio.Prologue.{carries_stream_id, class_id_traits_present, class_id_traits_words}
use vrtio.RuntimeData.{
  RuntimeDataPacket, parse, stream_id, class_id, timestamp_integer, timestamp_fractional, trailer,
  packet_count, payload, is_valid,
}
use vrtio.RuntimeData.Layout.{Accepts, expected_error, bit}
use vrtio.RuntimeData.Safety.{parse_total, parse-Accepts, too_short, first_word}
use vrtio.RuntimeData.Access.{Reads, parse-Reads, small_type}
use vrtio.Trailer.State.{state_of}
use vrtio.DataPacket.{DataPacket, IsDataPacket, prologue_type, size_words, size_bytes, validate}
use vrtio.DataPacket.Contents.{
  Contents, contents, count_of, IsFormed, header_field, end_fits, where_present, place, width,
  payload_field, trailer_field,
}
use vrtio.DataPacket.Builder.{Call, build}
use vrtio.DataPacket.Refines.{effects, begun, AreAllowed, build-Becomes}
use vrtio.DataPacket.Validate.{validate-HasDigits}
use vrtio.DataPacket.Digits.{HasDigits, header_of-HasDigits}
use vrtio.DataPacket.Places.{
  odd_type, same_type, odd_number, tsi_number, tsf_number, bit_back, expected_none, same_word,
  map_present, stream, class_present, seconds, fraction, places_match,
}

-- What the parser and its accessors give back of the packet.
module _ (host : Endian) (buffer : List ℕ) where
  pub record Delivers (p : RuntimeDataPacket) (s : Contents) : Type 0 where
    pub accepted : p.error ≡ ValidationError.none
    pub count_back : packet_count p ≡ s.count
    pub stream_back : stream_id host p ≡ done s.stream_id
    pub class_back : class_id host p ≡ done s.class_id
    pub seconds_back : timestamp_integer host p ≡ done s.seconds
    pub fraction_back : timestamp_fractional host p ≡ done s.fraction
    pub payload_back : slice buffer (payload p).offset (payload p).size ≡ s.payload
    pub trailer_word : Option ℕ
    pub trailer_returns : trailer host p ≡ done trailer_word
    pub trailer_back : Option.map state_of trailer_word ≡ s.trailer

module _ (host : Endian) (d : DataPacket) (valid : IsDataPacket d) (buffer : List ℕ)
    (formed : IsFormed host d buffer) where
  abbrev word : ℕ
  word = word_at host 4 buffer 0

  given : DecodedHeader
  given =
      given_header (packet_type_value d.packet_type) (Prologue.has_class_id (prologue_type d))
        d.has_trailer false false (Prologue.tsi (prologue_type d)) (Prologue.tsf (prologue_type d))
        (count_of host d buffer) (size_words d)

  -- The header that the parser decodes is the one of the template's parameters.
  record OwnHeader (h : DecodedHeader) : Type 0 where
    type_own : h.type ≡ d.packet_type
    class_own : h.has_class_id ≡ Prologue.has_class_id (prologue_type d)
    trailer_own : h.trailer_included ≡ d.has_trailer
    tsi_own : h.tsi ≡ Prologue.tsi (prologue_type d)
    tsf_own : h.tsf ≡ Prologue.tsf (prologue_type d)
    count_own : h.packet_count ≡ count_of host d buffer
    size_own : h.size_words ≡ size_words d

  own_header : OwnHeader (decode_header word)
  unfolding given
  own_header =
      let e : decode_header word ≡ interpret_indicators given =
        ap decode_header formed.header_is
        ∙ decode_header-build_header (packet_type_value d.packet_type)
            (Prologue.has_class_id (prologue_type d)) d.has_trailer false false
            (Prologue.tsi (prologue_type d)) (Prologue.tsf (prologue_type d))
            (count_of host d buffer) (size_words d) in
      let s = interpret_indicators-SameFields given in
      let i = interpret_indicators-Interprets given in
      let t = s.same_type ∙ same_type d.packet_type valid.data_type in
      let small = small_type d.packet_type valid.data_type in
      rw e (record {
        type_own = t;
        class_own = s.same_has_class_id;
        trailer_own =
            i.is_trailer
            ∙ rw (t, le→leb (packet_type_value d.packet_type) 3 small, s.same_bit_26) refl;
        tsi_own = s.same_tsi;
        tsf_own = s.same_tsf;
        count_own = s.same_packet_count ∙ omega arith;
        size_own = s.same_size_words ∙ omega (arith, valid.size_fits);
      })

  own_digits : HasDigits host d valid word
  own_digits = rw formed.header_is (header_of-HasDigits host d valid (count_of host d buffer))

  no_error : expected_error (size_bytes d) word ≡ ValidationError.none
  no_error =
      let g = own_digits in
      let small : word / 2 ^ 28 % 16 ≤ 3 =
        omega (arith, g.type_digits, small_type d.packet_type valid.data_type) in
      let b28 : bit word 28 ≡ stream d =
        unfold Prologue.has_stream_id in
        ap (λ (n : ℕ). n == 1) (omega (arith, g.type_digits))
        ∙ odd_number d.packet_type valid.data_type in
      let b27 : bit word 27 ≡ class_present d =
        ap (λ (n : ℕ). n == 1) g.class_digit ∙ bit_back (class_present d) in
      let b26 : bit word 26 ≡ d.has_trailer =
        ap (λ (n : ℕ). n == 1) g.trailer_digit ∙ bit_back d.has_trailer in
      let b22 : not (word / 2 ^ 22 % 4 == 0) ≡ seconds d =
        ap (λ (n : ℕ). not (n == 0)) g.tsi_digits ∙ tsi_number (Prologue.tsi (prologue_type d)) in
      let b20 : not (word / 2 ^ 20 % 4 == 0) ≡ fraction d =
        ap (λ (n : ℕ). not (n == 0)) g.tsf_digits ∙ tsf_number (Prologue.tsf (prologue_type d)) in
      expected_none (size_bytes d) word small (omega (arith, g.size_digits)) (
        omega (
          arith,
          ap bit_of b28,
          ap bit_of b27,
          ap bit_of b26,
          ap bit_of b22,
          ap bit_of b20,
          g.size_digits,
          (places_match d).4,
        ))

  accepted-Delivers :
      (p : RuntimeDataPacket)
      → p.buffer ≡ to buffer
      → p.error ≡ ValidationError.none
      → Accepts (size_bytes d) (decode_header word) p.structure
      → Reads host p
      → Delivers host buffer p (contents host d buffer)
  unfolding packet_count payload is_valid
  accepted-Delivers p at ok a r =
      let o = own_header in
      let m : memory p.buffer ≡ buffer = ap memory at in
      let hs : p.structure.has_stream_id ≡ stream d =
        unfold Prologue.has_stream_id in
        a.stream_kept
        ∙ ap has_stream_id_field o.type_own
        ∙ odd_type d.packet_type valid.data_type in
      let hc : p.structure.header.has_class_id ≡ class_present d =
        ap (λ (h : DecodedHeader). h.has_class_id) a.header_kept ∙ o.class_own in
      let hi : has_tsi p.structure.header.tsi ≡ seconds d =
        ap has_tsi (ap (λ (h : DecodedHeader). h.tsi) a.header_kept ∙ o.tsi_own) in
      let hf : has_tsf p.structure.header.tsf ≡ fraction d =
        ap has_tsf (ap (λ (h : DecodedHeader). h.tsf) a.header_kept ∙ o.tsf_own) in
      let ht : p.structure.header.trailer_included ≡ d.has_trailer =
        ap (λ (h : DecodedHeader). h.trailer_included) a.header_kept ∙ o.trailer_own in
      let hz : p.structure.header.size_words ≡ size_words d =
        ap (λ (h : DecodedHeader). h.size_words) a.header_kept ∙ o.size_own in
      let l = a.layout in
      let q = places_match d in
      let offset : p.structure.payload_offset ≡ place d payload_field =
        cc (l.payload_at, hs, hc, hi, hf, q.3) in
      let size : p.structure.payload_size_bytes ≡ width d payload_field =
        omega (arith, l.payload_ends, offset, q.3, q.4, hz, ap bit_of ht) in
      let again : trailer host p
          ≡ done (where_present d.has_trailer (word_at host 4 buffer (4 * size_words d - 4))) =
        cc (r.trailer_read, m, ht, hz) in
      record {
        accepted = ok;
        count_back = ap (λ (h : DecodedHeader). h.packet_count) a.header_kept ∙ o.count_own;
        stream_back = cc (r.stream_read, m, hs);
        class_back = cc (r.class_read, m, hs, hc, q.0);
        seconds_back = cc (r.integer_read, m, hs, hc, hi, q.1);
        fraction_back = cc (r.fractional_read, m, hs, hc, hi, hf, q.2);
        payload_back = rw (ok, offset, size) refl;
        trailer_word = where_present d.has_trailer (word_at host 4 buffer (place d trailer_field));
        trailer_returns =
            again
            ∙ ap done
                (same_word host d.has_trailer buffer _ _ (λ e. omega (arith, q.5, ap bit_of e)));
        trailer_back = map_present d.has_trailer _;
      }

  long_enough : too_short host (to buffer) (size_bytes d) formed.fits ≡ false
  unfolding is_null
  long_enough = le→ltb (size_bytes d) 4 (omega (arith, end_fits d header_field))

  pub formed-Delivers :
      (p : RuntimeDataPacket) × (parse host (to buffer) (size_bytes d) ≡ done p)
      × Delivers host buffer p (contents host d buffer)
  formed-Delivers =
      let ok = t.4 ∙ rw long_enough no_error in
      let a = parse-Accepts host (to buffer) (size_bytes d) formed.fits t.0 t.1 ok in
      (
        t.0,
        t.1,
        accepted-Delivers t.0 t.2 ok a.1
            (parse-Reads host (to buffer) (size_bytes d) t.0 formed.fits t.1 ok),
      )
    where
      t :
          (p : RuntimeDataPacket) × (parse host (to buffer) (size_bytes d) ≡ done p)
          × (p.buffer ≡ to buffer)
          × (p.buffer_size ≡ size_bytes d)
          × (p.error ≡ (
              if too_short host (to buffer) (size_bytes d) formed.fits
              then buffer_too_small
              else expected_error
                  (size_bytes d)
                  (first_word host (to buffer) (size_bytes d) formed.fits)))
      t = parse_total host (to buffer) (size_bytes d) formed.fits

-- A data packet of any valid form, built over any long enough buffer of bytes by any calls that compile
-- for it: the build succeeds; the packet's own `validate` accepts what it leaves, and so does the parser of
-- data packets; and the parsed packet's accessors return the packet count, stream id, class id, timestamp,
-- payload and trailer that the calls put there, one after the other.
pub build-Delivers :
    (host : Endian) (d : DataPacket) (cs : List Call) (buffer : List ℕ)
    → IsDataPacket d
    → size_bytes d ≤ length buffer
    → IsBytes buffer
    → AreAllowed d cs
    → (after : List ℕ) × (build host d cs buffer ≡ done after)
      × (validate host d (size_bytes d) after ≡ done ValidationError.none)
      × (p : RuntimeDataPacket) × (parse host (to after) (size_bytes d) ≡ done p)
      × Delivers host after p (effects cs (begun (contents host d buffer)))
build-Delivers host d cs buffer valid fits bytes allowed =
    let b = build-Becomes host d valid buffer fits bytes cs allowed in
    let r = formed-Delivers host d valid b.after b.formed in
    (
      b.after,
      b.returns,
      validate-HasDigits host d valid b.after (size_bytes d) b.formed.fits b.formed.bytes
          (omega arith) (own_digits host d valid b.after b.formed),
      r.0,
      r.1,
      subst (Delivers host b.after r.0) b.says r.2,
    )
