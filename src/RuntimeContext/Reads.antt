-- ===== src/RuntimeContext/Reads.antt =====
-- What the identifiers and timestamps of a context packet are read from.
use vrtio.Common.{
  ℕ, ◌+◌, ◌*◌, ◌≤◌, ◌≡◌, refl, ap, true, not, bit_of, if◌then◌else◌, length, Bool-cases, inl, inr,
  done, arith,
}
use mathlib.Core.Option.{Option, none, some}
use vrtio.Buffer.{Endian}
use vrtio.Buffer.Access.{word_at, read_u32-done, read_u64-done}
use vrtio.ClassId.{from_words}
use vrtio.Memory.{Pointer, memory}
use vrtio.Types.{TsfType, sample_count, real_time, free_running, ValidationError, has_tsi, has_tsf}
use vrtio.Header.{DecodedHeader, decode_header}
use vrtio.RuntimeContext.{RuntimeContextPacket, parse}
use vrtio.RuntimeContext.Layout.{AcceptsContext, context_prologue}
use vrtio.RuntimeContext.Access.{
  is_valid, stream_id, class_id, timestamp_integer, timestamp_fractional, fraction_at, after_class,
  after_integer,
}
use vrtio.RuntimeContext.Safety.{parse-AcceptsContext, buffer_kept, first_word}

-- The value of a fraction by its kind: a free-running count is the first word of the field alone.
abbrev pub fraction_value : TsfType → ℕ → ℕ → Option ℕ
fraction_value TsfType.none lead whole = none
fraction_value sample_count lead whole = some whole
fraction_value real_time lead whole = some whole
fraction_value free_running lead whole = some lead

-- What each accessor of a context packet returns.
pub record ReadsContext (host : Endian) (p : RuntimeContextPacket) : Type 0 where
  pub stream_read : stream_id host p ≡ done (some (word_at host 4 (memory p.buffer) 4))
  pub class_read :
      class_id host p
      ≡ done (
          if p.structure.header.has_class_id
          then some (
              from_words (word_at host 4 (memory p.buffer) 8) (word_at host 4 (memory p.buffer) 12))
          else none)
  pub integer_read :
      timestamp_integer host p
      ≡ done (
          if has_tsi p.structure.header.tsi
          then some
              (word_at host 4 (memory p.buffer) (8 + 8 * bit_of p.structure.header.has_class_id))
          else none)
  pub fractional_read :
      let place =
        8
        + 8 * bit_of p.structure.header.has_class_id
        + 4 * bit_of (has_tsi p.structure.header.tsi) in
      timestamp_fractional host p
      ≡ done (
          fraction_value p.structure.header.tsf
            (word_at host 4 (memory p.buffer) place)
            (word_at host 8 (memory p.buffer) place))

module _ (host : Endian) (p : RuntimeContextPacket) (h : DecodedHeader)
    (ok : p.error ≡ ValidationError.none)
    (a : AcceptsContext host (memory p.buffer) p.buffer_size h p.structure)
    (given : p.buffer_size ≤ length (memory p.buffer)) where
  valid : is_valid p ≡ true
  unfolding is_valid
  valid = rw ok

  -- The prologue and the first CIF word lie in the buffer.
  room : 4 * (context_prologue p.structure.header + 1) ≤ length (memory p.buffer)
  room =
      let sizes = ap (λ (q : DecodedHeader). q.size_words) a.header_kept in
      rw a.header_kept (omega (arith, a.ends, a.base_at, sizes, a.header_good.in_buffer, given))

  stream_lem : stream_id host p ≡ done (some (word_at host 4 (memory p.buffer) 4))
  unfolding stream_id
  stream_lem =
      rw (valid, a.stream_kept, read_u32-done host (memory p.buffer) 4 (omega (arith, room)))

  class_lem :
      class_id host p
      ≡ done (
          if p.structure.header.has_class_id
          then some (
              from_words (word_at host 4 (memory p.buffer) 8) (word_at host 4 (memory p.buffer) 12))
          else none)
  unfolding class_id
  class_lem = elim (Bool-cases p.structure.header.has_class_id) [
    | inl e ↦ rw (
      valid,
      e,
      a.stream_kept,
      read_u32-done host (memory p.buffer) 8 (omega (arith, room, ap bit_of e)),
      read_u32-done host (memory p.buffer) 12 (omega (arith, room, ap bit_of e)),
    )
    | inr e ↦ rw (valid, e)
  ]

  class_end : after_class p ≡ 8 + 8 * bit_of p.structure.header.has_class_id
  class_end = rw a.stream_kept (ground arith)

  integer_lem :
      timestamp_integer host p
      ≡ done (
          if has_tsi p.structure.header.tsi
          then some
              (word_at host 4 (memory p.buffer) (8 + 8 * bit_of p.structure.header.has_class_id))
          else none)
  unfolding timestamp_integer
  integer_lem = elim (Bool-cases (has_tsi p.structure.header.tsi)) [
    | inl e ↦ rw (
      valid,
      e,
      class_end,
      read_u32-done host (memory p.buffer) (8 + 8 * bit_of p.structure.header.has_class_id)
          (omega (arith, room, ap bit_of e)),
    )
    | inr e ↦ rw (valid, e)
  ]

  abbrev place : ℕ
  place =
      8 + 8 * bit_of p.structure.header.has_class_id + 4 * bit_of (has_tsi p.structure.header.tsi)

  fraction_lem :
      (t : TsfType)
      → (has_tsf t ≡ true → place + 8 ≤ length (memory p.buffer))
      → (if not (has_tsf t) then done none else fraction_at host t (memory p.buffer) place)
        ≡ done (
            fraction_value t
              (word_at host 4 (memory p.buffer) place)
              (word_at host 8 (memory p.buffer) place))
  unfolding fraction_at has_tsf
  fraction_lem TsfType.none fits = refl
  fraction_lem sample_count fits = rw (read_u64-done host (memory p.buffer) place (fits refl))
  fraction_lem real_time fits = rw (read_u64-done host (memory p.buffer) place (fits refl))
  fraction_lem free_running fits =
      rw (read_u32-done host (memory p.buffer) place (omega (arith, fits refl)))

  integer_end : after_integer p ≡ place
  integer_end = rw a.stream_kept (ground arith)

  fractional_lem :
      timestamp_fractional host p
      ≡ done (
          fraction_value p.structure.header.tsf
            (word_at host 4 (memory p.buffer) place)
            (word_at host 8 (memory p.buffer) place))
  unfolding timestamp_fractional
  fractional_lem =
      rw (valid, integer_end)
        (fraction_lem p.structure.header.tsf (λ e. omega (arith, room, ap bit_of e)))

  reads : ReadsContext host p
  reads = record {
    stream_read = stream_lem;
    class_read = class_lem;
    integer_read = integer_lem;
    fractional_read = fractional_lem;
  }

module _ (host : Endian) (buffer : Pointer) (size : ℕ) (p : RuntimeContextPacket)
    (given : size ≤ length (memory buffer)) (parsed : parse host buffer size ≡ done p) where
  -- Where the given size may be read, no accessor of an accepted context packet leaves the buffer:
  -- the stream id is the second word; the class id, the integer timestamp and the fraction are read
  -- behind the fields before them, and nothing where the packet does not have them. Of a
  -- free-running fraction only the first of its two words is returned.
  pub parse-ReadsContext : p.error ≡ ValidationError.none → ReadsContext host p
  parse-ReadsContext ok =
      let kept = buffer_kept host buffer size given p parsed in
      let a = (parse-AcceptsContext host buffer size given p parsed ok).1 in
      let a' : AcceptsContext host (memory p.buffer) p.buffer_size
          (decode_header (first_word host buffer size given)) p.structure =
        rw (kept.0, kept.1) a in
      reads host p (decode_header (first_word host buffer size given)) ok a'
        (rw (kept.0, kept.1) given)
