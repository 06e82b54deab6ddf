-- ===== src/DataPacket/Validate.antt =====
-- `validate` of data_packet.hpp: what it accepts.
use vrtio.Common.{
  ℕ, ◌+◌, ◌*◌, ◌/◌, ◌%◌, ◌^◌, ◌≤◌, ◌<◌, ◌≡◌, ◌↔◌, refl, ap, ◌∙◌, sym, true, List, length, ltb,
  le→ltb, ltb→le, Bool-cases, inl, inr, done, done-injective, arith,
}
use vrtio.Buffer.{Endian}
use vrtio.Buffer.Bytes.{IsBytes}
use vrtio.Buffer.Access.{word_at, word_at-lt, read_u32-done}
use vrtio.Types.{ValidationError, buffer_too_small}
use vrtio.Header.{decode_header}
use vrtio.Prologue
use vrtio.DataPacket.{DataPacket, IsDataPacket, size_bytes, validate, check_header, init_header}
use vrtio.DataPacket.Contents.{header_of, header_field, end_fits, Contents}
use vrtio.DataPacket.Refines.{init_header-Becomes}
use vrtio.DataPacket.Digits.{
  HasDigits, header_of-sum, HasDigits-header_of, spare_bits-HasDigits, check_header-HasDigits,
  HasDigits-check_header,
}

module _ (host : Endian) (d : DataPacket) (valid : IsDataPacket d) (buffer : List ℕ) (size : ℕ)
    (given : size ≤ length buffer) (bytes : IsBytes buffer) where
  abbrev word : ℕ
  word = word_at host 4 buffer 0

  -- The header word is the one that the packet's own constructor puts at the front of the buffer, but
  -- for the packet count and bits 25 and 24.
  abbrev pub IsOwnHeader : Type 0
  IsOwnHeader =
      (after : List ℕ) × (init_header host d buffer ≡ done after)
      × (word ≡ word_at host 4 after 0 + word / 2 ^ 16 % 16 * 2 ^ 16 + word / 2 ^ 24 % 4 * 2 ^ 24)

  own_word :
      size_bytes d ≤ size
      → (after : List ℕ) × (init_header host d buffer ≡ done after)
        × (word_at host 4 after 0 ≡ header_of host d 0)
  own_word fits =
      let b = init_header-Becomes host d valid buffer (omega arith) bytes in
      (
        b.after,
        b.returns,
        b.formed.header_is ∙ ap (λ (c : Contents). header_of host d c.count) b.says,
      )

  count_apart : (n : ℕ) → n < 16 → header_of host d n ≡ header_of host d 0 + n * 2 ^ 16
  count_apart n h = omega (arith, header_of-sum host d valid n, header_of-sum host d valid 0)

  answer :
      size_bytes d ≤ size
      → validate host d size buffer ≡ done (check_header host d (decode_header word))
  unfolding validate Prologue.header
  answer fits =
      let fit : 0 + 4 ≤ length buffer = omega (arith, end_fits d header_field) in
      rw (le→ltb size (size_bytes d) fits, read_u32-done host buffer 0 fit) refl

  pub validate-HasDigits :
      size_bytes d ≤ size
      → HasDigits host d valid word
      → validate host d size buffer ≡ done ValidationError.none
  validate-HasDigits fits digits =
      answer fits ∙ ap done (check_header-HasDigits d valid word host digits)

  short : ltb size (size_bytes d) ≡ true → validate host d size buffer ≡ done buffer_too_small
  unfolding validate
  short e = rw e refl

  small : size_bytes d ≤ size → word < 2 ^ 32
  small fits = word_at-lt host 4 buffer 0 (omega (arith, end_fits d header_field)) bytes

  own-HasDigits : size_bytes d ≤ size → IsOwnHeader → HasDigits host d valid word
  own-HasDigits fits own =
      let o = own_word fits in
      let same : own.0 ≡ o.0 = done-injective (sym own.1 ∙ o.1) in
      let first : word_at host 4 own.0 0 ≡ header_of host d 0 =
        ap (λ (xs : List ℕ). word_at host 4 xs 0) same ∙ o.2 in
      spare_bits-HasDigits host d valid word (word / 2 ^ 16 % 16) (word / 2 ^ 24 % 4) (omega arith)
        (omega (arith, own.2, first, count_apart (word / 2 ^ 16 % 16) (omega arith)))

  HasDigits-own : size_bytes d ≤ size → HasDigits host d valid word → IsOwnHeader
  HasDigits-own fits digits =
      let o = own_word fits in
      (
        o.0,
        o.1,
        omega (
          arith,
          o.2,
          count_apart (word / 2 ^ 16 % 16) (omega arith),
          HasDigits-header_of host d valid word (small fits) digits,
        ),
      )

  -- For every buffer of bytes of which the given size may be read, `validate` returns, and finds no error
  -- exactly if the size is at least that of the packet and the header word is the one that the
  -- packet's own constructor writes to the buffer, apart from the packet count and bits 25 and 24.
  pub validate_iff :
      (e : ValidationError) × (validate host d size buffer ≡ done e)
      × ((e ≡ ValidationError.none) ↔ ((size_bytes d ≤ size) × IsOwnHeader))
  validate_iff = elim (Bool-cases (ltb size (size_bytes d))) [
    | inl e ↦ (
      buffer_too_small,
      short e,
      ((λ k. absurd (ground arith)), λ form. absurd (ground (arith, form.0))),
    )
    | inr e ↦
        let fits = ltb→le size (size_bytes d) e in
        (
          check_header host d (decode_header word),
          answer fits,
          (
            (λ found. (fits, HasDigits-own fits (HasDigits-check_header d valid word host found))),
            λ form. check_header-HasDigits d valid word host (own-HasDigits fits form.1),
          ),
        )
  ]
