-- ===== src/RuntimeData/Safety.antt =====
-- The parser of data packets reads only bytes that it was given, and answers by the header word.
use vrtio.Common.{
  ℕ, ◌≤◌, ◌≡◌, refl, ap, ◌∙◌, sym, subst, Bool, false, ◌||◌, ltb, if◌then◌else◌, length,
  done-injective, Bool-cases, inl, inr, done, arith,
}
use vrtio.Buffer.{Endian}
use vrtio.Buffer.Access.{word_at, read_u32-done}
use vrtio.Memory.{Pointer, is_null, memory, IsWithin}
use vrtio.Types.{ValidationError, buffer_too_small}
use vrtio.Header.{decode_header, DecodedHeader}
use vrtio.Header.RoundTrip.{decode_header_bounds}
use vrtio.RuntimeData.{
  RuntimeDataPacket, ParsedStructure, empty_structure, parse, validate_internal, validate_header,
  payload, as_bytes, packet_size_bytes, is_valid,
}
use vrtio.RuntimeData.Layout.{
  expected_error, validate_header-error, validate_header-Accepts, Accepts,
}

-- The views of an accepted packet lie in the buffer.
views-IsWithin :
    (p : RuntimeDataPacket) (size : ℕ) (g : DecodedHeader)
    → p.error ≡ ValidationError.none
    → Accepts size g p.structure
    → size ≤ length (memory p.buffer)
    → IsWithin (payload p) p.buffer × IsWithin (as_bytes p) p.buffer
unfolding payload as_bytes is_valid packet_size_bytes
views-IsWithin p size g ok a given = let l = a.layout in rw ok (ground (arith, l.payload_ends))

module _ (host : Endian) (buffer : Pointer) (size : ℕ) (given : size ≤ length (memory buffer)) where
  -- The header word, where the buffer has one.
  abbrev pub first_word : ℕ
  first_word = word_at host 4 (memory buffer) 0

  abbrev pub too_short : Bool
  too_short = is_null buffer || ltb size 4

  abbrev answer : ValidationError × ParsedStructure
  answer =
      if too_short
      then (buffer_too_small, empty_structure)
      else validate_header size (decode_header first_word)

  validate_internal-done : validate_internal host buffer size ≡ done answer
  unfolding validate_internal is_null
  validate_internal-done = elim (Bool-cases too_short) [
    | inl e ↦ rw e
    | inr e ↦ rw (e, read_u32-done host (memory buffer) 0 (ground arith))
  ]

  unfoldable pub parsed : RuntimeDataPacket
  parsed = record { buffer = buffer; buffer_size = size; error = answer.0; structure = answer.1 }

  pub parse-done : parse host buffer size ≡ done parsed
  unfolding parse parsed
  parse-done = rw validate_internal-done

  -- For every buffer of which the given bytes may be read, the constructor of a data packet returns,
  -- keeps the buffer and its size, and finds the error that the digits of the header word call for.
  pub parse_total :
      (p : RuntimeDataPacket) × (parse host buffer size ≡ done p)
      × (p.buffer ≡ buffer)
      × (p.buffer_size ≡ size)
      × (p.error ≡ (if too_short then buffer_too_small else expected_error size first_word))
  unfolding parsed
  parse_total = (parsed, parse-done, refl, refl, error_same)
    where
      error_same :
          answer.0 ≡ (if too_short then buffer_too_small else expected_error size first_word)
      error_same = elim (Bool-cases too_short) [
        | inl e ↦ rw e
        | inr e ↦ rw e (validate_header-error first_word size)
      ]

  same : (p : RuntimeDataPacket) → parse host buffer size ≡ done p → parsed ≡ p
  same p e = done-injective (sym parse-done ∙ e)

  pub buffer_kept : (p : RuntimeDataPacket) → parse host buffer size ≡ done p → p.buffer ≡ buffer
  unfolding parsed
  buffer_kept p e = sym (ap (λ (q : RuntimeDataPacket). q.buffer) (same p e))

  accepted :
      parsed.error ≡ ValidationError.none
      → (too_short ≡ false) × Accepts size (decode_header first_word) parsed.structure
  unfolding parsed
  accepted ok = elim (Bool-cases too_short) [
    | inl e ↦ let k : answer.0 ≡ buffer_too_small = rw e in cc k
    | inr e ↦ (
      e,
      rw e (
          validate_header-Accepts size (decode_header first_word)
            (decode_header_bounds first_word).2 (rw e at ok)),
    )
  ]

  -- Where the given size may be read, an accepted data packet has at least a header word in a buffer
  -- that is not null; it starts with the header that was decoded, is a data packet within the given
  -- size and has its fields in order; its payload and its bytes lie in the buffer.
  pub parse-Accepts :
      (p : RuntimeDataPacket)
      → parse host buffer size ≡ done p
      → p.error ≡ ValidationError.none
      → (too_short ≡ false)
        × Accepts size (decode_header first_word) p.structure
        × IsWithin (payload p) p.buffer
        × IsWithin (as_bytes p) p.buffer
  parse-Accepts p e ok =
      let b = buffer_kept p e in
      let a = accepted (ap (λ (q : RuntimeDataPacket). q.error) (same p e) ∙ ok) in
      let a' =
        subst (λ (q : RuntimeDataPacket). Accepts size (decode_header first_word) q.structure)
          (same p e) a.1 in
      let v = views-IsWithin p size (decode_header first_word) ok a' (rw b given) in
      (a.0, a', v.0, v.1)
