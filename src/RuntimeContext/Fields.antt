-- ===== src/RuntimeContext/Fields.antt =====
-- `operator[]` of an accepted context packet: where each field is found, and that it lies in the packet.
use vrtio.Common.{
  ℕ, ◌+◌, ◌*◌, ◌≤◌, ◌<◌, ◌≡◌, refl, ap, sym, u64, size_max, length, Bool, true, false, ◌==◌,
  if◌then◌else◌, Bool-cases, inl, inr, done, arith,
}
use vrtio.Buffer.{Endian}
use vrtio.Buffer.Bytes.{IsBytes}
use vrtio.Buffer.Access.{word_at, word_at-lt, read_u32-done}
use vrtio.Memory.{Pointer, memory, IsWithin}
use vrtio.Types.{ValidationError}
use vrtio.Header.{DecodedHeader, decode_header}
use vrtio.Header.RoundTrip.{decode_header_bounds}
use vrtio.Cif.Offset.{compute_variable_field_size, gps_ascii_trait_size, context_assoc_trait_size}
use vrtio.Cif.Places.{gps_trait_words-same, before_gps, before_assoc, assoc_trait_words-same}
use vrtio.RuntimeContext.{RuntimeContextPacket, parse}
use vrtio.RuntimeContext.Layout.{AcceptsContext}
use vrtio.RuntimeContext.Access.{
  FieldProxy, no_field, is_field_present, make_field_proxy, is_variable_trait, bytes,
}
use vrtio.RuntimeContext.Safety.{parse-AcceptsContext, buffer_kept, first_word}
use vrtio.RuntimeContext.Widths.{
  field_words, words_before_field, fields, offset_lem, ends_lem, all_words, fixed_size, gps_size,
  assoc_size, gps_place, assoc_place,
}

module _ (host : Endian) (p : RuntimeContextPacket) (h : DecodedHeader)
    (a : AcceptsContext host (memory p.buffer) p.buffer_size h p.structure)
    (given : p.buffer_size ≤ length (memory p.buffer)) (octets : IsBytes (memory p.buffer)) where
  abbrev cif0 : ℕ
  cif0 = p.structure.cif0

  abbrev base : ℕ
  base = p.structure.context_base_bytes

  -- The proxy of a field that is present.
  abbrev proxy_of : ℕ → ℕ → FieldProxy
  proxy_of word bit = record {
    offset_bytes = base + 4 * words_before_field p.structure word bit;
    size_bytes = 4 * field_words p.structure word bit;
    present = true;
  }

  all_words-le : h.size_words ≤ 65535 → base + 4 * all_words host p h a given octets ≤ 262140
  all_words-le small = omega (arith, a.ends, ap (λ (q : DecodedHeader). q.size_words) a.header_kept)

  module _ (small : h.size_words ≤ 65535) where
    known_place :
        (word bit : ℕ)
        → word ≤ 3
        → bit < 32
        → is_field_present word bit p.structure ≡ true
        → (base + 4 * words_before_field p.structure word bit == size_max) ≡ false
    known_place word bit known inside set =
        ground
          (arith, ends_lem host p h a given octets word bit known inside set, all_words-le small)

    fixed_proxy :
        (word bit : ℕ)
        → word ≤ 3
        → bit < 32
        → is_field_present word bit p.structure ≡ true
        → is_variable_trait word bit ≡ false
        → make_field_proxy host p word bit ≡ done (proxy_of word bit)
    unfolding make_field_proxy
    fixed_proxy word bit known inside set fixed =
        rw
          (
            set,
            offset_lem host p h a given octets word bit known inside,
            known_place word bit known inside set,
            fixed,
          )
          (ap
            (λ (n : ℕ). done (record {
              offset_bytes = base + 4 * words_before_field p.structure word bit;
              size_bytes = n;
              present = true;
            }))
            (omega (arith, fixed_size host p h a given octets word bit fixed)))

    gps_proxy :
        is_field_present 0 10 p.structure ≡ true
        → make_field_proxy host p 0 10 ≡ done (proxy_of 0 10)
    unfolding make_field_proxy compute_variable_field_size gps_ascii_trait_size is_field_present
    gps_proxy set =
        let cut : u64 (p.structure.gps_ascii.size_words * 4)
            ≡ 4 * p.structure.gps_ascii.size_words =
          omega (
            arith,
            all_words-le small,
            ends_lem host p h a given octets 0 10 (omega arith) (omega arith) set,
          ) in
        rw (
          set,
          offset_lem host p h a given octets 0 10 (omega arith) (omega arith),
          known_place 0 10 (omega arith) (omega arith) set,
          gps_place host p h a given octets,
          read_u32-done host (memory p.buffer) (base + 4 * before_gps cif0)
              (omega (arith, (fields host p h a given octets).gps_fits set, given)),
          gps_trait_words-same (word_at host 4 (memory p.buffer) (base + 4 * before_gps cif0)),
          sym (gps_size host p h a given octets set),
          cut,
        )

    assoc_proxy :
        is_field_present 0 9 p.structure ≡ true → make_field_proxy host p 0 9 ≡ done (proxy_of 0 9)
    unfolding make_field_proxy compute_variable_field_size context_assoc_trait_size is_field_present
    assoc_proxy set =
        let at = base + 4 * before_assoc cif0 p.structure.gps_ascii.size_words in
        let fit : at + 4 ≤ length (memory p.buffer) =
          omega (arith, (fields host p h a given octets).assoc_fits set, given) in
        let cut : u64 (p.structure.context_assoc.size_words * 4)
            ≡ 4 * p.structure.context_assoc.size_words =
          omega (
            arith,
            all_words-le small,
            ends_lem host p h a given octets 0 9 (omega arith) (omega arith) set,
          ) in
        rw (
          set,
          offset_lem host p h a given octets 0 9 (omega arith) (omega arith),
          known_place 0 9 (omega arith) (omega arith) set,
          assoc_place host p h a given octets,
          read_u32-done host (memory p.buffer) at fit,
          assoc_trait_words-same (word_at host 4 (memory p.buffer) at)
              (word_at-lt host 4 (memory p.buffer) at fit octets),
          sym (assoc_size host p h a given octets set),
          cut,
        )

    present_proxy :
        (word bit : ℕ)
        → word ≤ 3
        → bit < 32
        → is_field_present word bit p.structure ≡ true
        → make_field_proxy host p word bit ≡ done (proxy_of word bit)
    present_proxy word bit known inside set = elim (Bool-cases (is_variable_trait word bit)) [
      | inr e ↦ fixed_proxy word bit known inside set e
      | inl e ↦
          let zero : word ≡ 0 = ground arith in
          elim (Bool-cases (bit == 9)) [
            | inl f ↦
                let nine : bit ≡ 9 = ground arith in
                rw (zero, nine) (assoc_proxy (rw (zero, nine) at set))
            | inr f ↦
                let ten : bit ≡ 10 = ground arith in
                rw (zero, ten) (gps_proxy (rw (zero, ten) at set))
          ]
    ]

    found_proxy :
        (word bit : ℕ)
        → word ≤ 3
        → bit < 32
        → (f : FieldProxy) × (make_field_proxy host p word bit ≡ done f)
          × (f ≡ (if is_field_present word bit p.structure then proxy_of word bit else no_field))
          × IsWithin (bytes f) p.buffer
    unfolding make_field_proxy bytes
    found_proxy word bit known inside = elim (Bool-cases (is_field_present word bit p.structure)) [
      | inl e ↦ (
        proxy_of word bit,
        present_proxy word bit known inside e,
        rw e,
        omega (
          arith,
          ends_lem host p h a given octets word bit known inside e,
          a.ends,
          ap (λ (q : DecodedHeader). q.size_words) a.header_kept,
          a.header_good.in_buffer,
          given,
        ),
      )
      | inr e ↦ (no_field, rw e, rw e, omega arith)
    ]

-- A proxy that says that its field is present is that of a present field.
pub proxy_present :
    (b : Bool) (offset size : ℕ) (f : FieldProxy)
    → f ≡ (
        if b then record { offset_bytes = offset; size_bytes = size; present = true } else no_field)
    → f.present ≡ true
    → (b ≡ true) × (f.offset_bytes ≡ offset) × (f.size_bytes ≡ size)
proxy_present true offset size f e here =
    (refl, ap (λ (g : FieldProxy). g.offset_bytes) e, ap (λ (g : FieldProxy). g.size_bytes) e)
proxy_present false offset size f e here =
    let absent : f.present ≡ false = ap (λ (g : FieldProxy). g.present) e in cc (absent, here)

module _ (host : Endian) (buffer : Pointer) (size : ℕ) (given : size ≤ length (memory buffer))
    (octets : IsBytes (memory buffer)) (p : RuntimeContextPacket)
    (parsed : parse host buffer size ≡ done p) where
  -- In a buffer of bytes of which the given size may be read, on an accepted context packet, the
  -- access to any bit of the four CIF words returns: a field that is present is found behind the
  -- words of all the fields before it, with its own words, and its bytes lie in the buffer; a field
  -- that is not present is reported so.
  pub make_field_proxy-places :
      (word bit : ℕ)
      → p.error ≡ ValidationError.none
      → word ≤ 3
      → bit < 32
      → (f : FieldProxy) × (make_field_proxy host p word bit ≡ done f)
        × (f ≡ (
            if is_field_present word bit p.structure
            then record {
              offset_bytes =
                  p.structure.context_base_bytes + 4 * words_before_field p.structure word bit;
              size_bytes = 4 * field_words p.structure word bit;
              present = true;
            }
            else no_field))
        × IsWithin (bytes f) p.buffer
  make_field_proxy-places word bit ok known inside =
      let kept = buffer_kept host buffer size given p parsed in
      let a = (parse-AcceptsContext host buffer size given p parsed ok).1 in
      let a' : AcceptsContext host (memory p.buffer) p.buffer_size
          (decode_header (first_word host buffer size given)) p.structure =
        rw (kept.0, kept.1) a in
      found_proxy host p (decode_header (first_word host buffer size given)) a'
        (rw (kept.0, kept.1) given) (rw (kept.0) octets)
        (decode_header_bounds (first_word host buffer size given)).2 word bit known inside
