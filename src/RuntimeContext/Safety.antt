-- ===== src/RuntimeContext/Safety.antt =====
-- The parser of context packets reads only bytes that it was given, and what it accepts.
use vrtio.Common.{
  ℕ, ◌+◌, ◌*◌, ◌≤◌, ◌≡◌, refl, ap, ◌∙◌, sym, subst, length, Bool, true, false, done-injective, not,
  ◌&&◌, ◌||◌, ltb, if◌then◌else◌, Bool-cases, inl, inr, ltb→le, done, arith,
}
use vrtio.Buffer.{Endian}
use vrtio.Buffer.Access.{word_at, read_u32-done}
use vrtio.Memory.{Pointer, memory, is_null}
use vrtio.Types.{
  ValidationError, unsupported_field, invalid_packet_type, has_tsi, has_tsf, packet_type_value,
}
use vrtio.Header.{DecodedHeader, decode_header, has_stream_id_field}
use vrtio.Header.RoundTrip.{decode_header_bounds}
use vrtio.RuntimeContext.{
  ContextStructure, empty_context, Verdict, RuntimeContextPacket, is_context_type, beyond,
  check_header, validate_internal, parse,
}
use vrtio.RuntimeContext.Layout.{context_prologue, AcceptsContext}
use vrtio.RuntimeContext.Counting.{Good}
use vrtio.RuntimeContext.Answers.{Answers, guarded, stops, too_small}
use vrtio.RuntimeContext.CifWords.{IsGood, cif0-Answers}

-- A context packet has a stream id.
context_stream :
    (h : DecodedHeader) → is_context_type h.type ≡ true → has_stream_id_field h.type ≡ true
unfolding is_context_type has_stream_id_field packet_type_value
context_stream h e = ground arith

module _ (host : Endian) (ptr : Pointer) (size : ℕ) (given : size ≤ length (memory ptr)) where
  abbrev pub first_word : ℕ
  first_word = word_at host 4 (memory ptr) 0

  module _ (h : DecodedHeader) (small : h.size_words ≤ 65535) where
    abbrev start : Bool → ContextStructure
    start stream = record empty_context { header = h; has_stream_id = stream }

    header-Answers :
        Answers
          (check_header host ptr size (start (has_stream_id_field h.type)))
          (AcceptsContext host (memory ptr) size h)
    unfolding check_header Good IsGood
    header-Answers =
        stops (not (is_context_type h.type)) invalid_packet_type _ (λ k. ground arith)
          (λ e.
            stops h.bit_26 unsupported_field _ (λ k. ground arith)
              (λ f. guarded (ltb size (h.size_words * 4)) _ (λ g.
                let is_context : is_context_type h.type ≡ true = ground arith in
                rw (context_stream h is_context) (
                  guarded (beyond size (1 + 1)) _ (λ k.
                    guarded (h.has_class_id && beyond size (1 + 1 + 2)) _ (λ l. rw place (
                      cif0-Answers host ptr size given h
                        (record {
                          context_type = is_context;
                          reserved_clear = f;
                          in_buffer = omega (arith, ltb→le _ _ g);
                        })
                        small)))))))
      where
        place :
            (if h.has_class_id then 1 + 1 + 2 else 1 + 1)
              + (if has_tsi h.tsi then 1 else 0)
              + (if has_tsf h.tsf then 2 else 0)
            ≡ context_prologue h
        place = ground arith

  abbrev pub too_short : Bool
  too_short = is_null ptr || ltb size 4

  -- An accepted packet, and the answer that the parser gives.
  IsAnswer : ContextStructure → Type 0
  IsAnswer s =
      (too_short ≡ false) × AcceptsContext host (memory ptr) size (decode_header first_word) s

  internal-Answers : Answers (validate_internal host ptr size) IsAnswer
  unfolding validate_internal is_null IsAnswer
  internal-Answers = elim (Bool-cases too_short) [
    | inl e ↦ rw e (too_small empty_context)
    | inr e ↦
        let a = header-Answers (decode_header first_word) (decode_header_bounds first_word).2 in
        rw (e, read_u32-done host (memory ptr) 0 (ground arith))
          (record { verdict = a.verdict; returns = a.returns; accepts = λ ok. (e, a.accepts ok) })
  ]

  abbrev answer : Verdict
  answer = internal-Answers.verdict

  parsed : RuntimeContextPacket
  parsed = record { buffer = ptr; buffer_size = size; error = answer.0; structure = answer.1 }

  parse-done : parse host ptr size ≡ done parsed
  unfolding parse parsed
  parse-done = rw (internal-Answers.returns)

  -- For every buffer of which the given bytes may be read, the constructor of a context packet
  -- returns, so that it reads no other byte, and keeps the buffer and its size.
  pub parse_context_total :
      (p : RuntimeContextPacket) × (parse host ptr size ≡ done p)
      × (p.buffer ≡ ptr)
      × (p.buffer_size ≡ size)
  unfolding parsed
  parse_context_total = (parsed, parse-done, refl, refl)

  same : (p : RuntimeContextPacket) → parse host ptr size ≡ done p → parsed ≡ p
  same p e = done-injective (sym parse-done ∙ e)

  pub buffer_kept :
      (p : RuntimeContextPacket)
      → parse host ptr size ≡ done p
      → (p.buffer ≡ ptr) × (p.buffer_size ≡ size)
  unfolding parsed
  buffer_kept p e = (
    sym (ap (λ (q : RuntimeContextPacket). q.buffer) (same p e)),
    sym (ap (λ (q : RuntimeContextPacket). q.buffer_size) (same p e)),
  )

  -- Where the given size may be read, an accepted context packet has at least a header word in a
  -- buffer that is not null; it starts with the header that was decoded, of a context type and with
  -- bit 26 clear, and fits the given size; its CIF words are those that follow the prologue and name
  -- only supported fields; the places and sizes of its variable fields are read from the bytes
  -- behind them; and the words of all its fields add up to the size in the header.
  pub parse-AcceptsContext :
      (p : RuntimeContextPacket)
      → parse host ptr size ≡ done p
      → p.error ≡ ValidationError.none
      → (too_short ≡ false)
        × AcceptsContext host (memory ptr) size (decode_header first_word) p.structure
  unfolding parsed IsAnswer
  parse-AcceptsContext p e ok =
      subst
        (λ (q : RuntimeContextPacket).
          (too_short ≡ false)
          × AcceptsContext host (memory ptr) size (decode_header first_word) q.structure)
        (same p e)
        (internal-Answers.accepts (ap (λ (q : RuntimeContextPacket). q.error) (same p e) ∙ ok))
