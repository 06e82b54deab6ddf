-- ===== src/Parser/Totality.antt =====
-- `parse_packet` returns for every buffer, and what its answer says.
use vrtio.Common.{
  ℕ, ◌≤◌, ◌≡◌, ◌≢◌, refl, true, false, ◌||◌, ltb, leb, ◌==◌, if◌then◌else◌, length, Bool-cases, inl,
  inr, Run, done, ◌>>=◌, arith,
}
use vrtio.Buffer.{Endian}
use vrtio.Buffer.Access.{word_at, read_u32-done}
use vrtio.Memory.{Pointer, memory}
use vrtio.Types.{
  PacketType, packet_type_value, ValidationError, buffer_too_small, unsupported_field,
  invalid_packet_type,
}
use vrtio.Header.{DecodedHeader, decode_header, zero_header}
use vrtio.RuntimeData.{RuntimeDataPacket}
use vrtio.RuntimeData
use vrtio.RuntimeData.Safety.{parse_total}
use vrtio.RuntimeContext.{RuntimeContextPacket}
use vrtio.RuntimeContext
use vrtio.RuntimeContext.Access
use vrtio.RuntimeContext.Safety.{parse_context_total}
use vrtio.Parser.{
  PacketVariant, data_packet, context_packet, invalid_packet, rejected, dispatch, parse_packet,
}

-- A variant holds a packet that its own parser accepted, or an error.
abbrev pub IsSound : Endian → Pointer → ℕ → PacketVariant → Type 0
IsSound host bytes size (data_packet p) =
    (RuntimeData.parse host bytes size ≡ done p) × (p.error ≡ ValidationError.none)
IsSound host bytes size (context_packet p) =
    (RuntimeContext.parse host bytes size ≡ done p) × (p.error ≡ ValidationError.none)
IsSound host bytes size (invalid_packet i) =
    (i.error ≢ ValidationError.none) × (i.raw_bytes ≡ bytes) × (i.raw_size ≡ size)

pub valid_data :
    (p : RuntimeDataPacket) → RuntimeData.is_valid p ≡ true → p.error ≡ ValidationError.none
unfolding RuntimeData.is_valid
valid_data p e = ground arith

invalid_data :
    (p : RuntimeDataPacket) → RuntimeData.is_valid p ≡ false → p.error ≢ ValidationError.none
unfolding RuntimeData.is_valid
invalid_data p e = ground arith

valid_context :
    (p : RuntimeContextPacket) → Access.is_valid p ≡ true → p.error ≡ ValidationError.none
unfolding Access.is_valid
valid_context p e = ground arith

invalid_context :
    (p : RuntimeContextPacket) → Access.is_valid p ≡ false → p.error ≢ ValidationError.none
unfolding Access.is_valid
invalid_context p e = ground arith

module _ (host : Endian) (bytes : Pointer) (size : ℕ) (given : size ≤ length (memory bytes)) where
  Sound : Run PacketVariant → Type 0
  Sound r = (v : PacketVariant) × (r ≡ done v) × IsSound host bytes size v

  data-Sound :
      (h : DecodedHeader)
      → Sound (
          RuntimeData.parse host bytes size >>= λ view. done (
            if RuntimeData.is_valid view
            then data_packet view
            else rejected host bytes size view.error h))
  unfolding Sound
  data-Sound h =
      let t = parse_total host bytes size given in
      elim (Bool-cases (RuntimeData.is_valid t.0)) [
        | inl e ↦ (data_packet t.0, rw (t.1, e), (t.1, valid_data t.0 e))
        | inr e ↦
            (rejected host bytes size t.0.error h, rw (t.1, e), (invalid_data t.0 e, refl, refl))
      ]

  context-Sound :
      (h : DecodedHeader)
      → Sound (
          RuntimeContext.parse host bytes size >>= λ view. done (
            if Access.is_valid view
            then context_packet view
            else rejected host bytes size view.error h))
  unfolding Sound
  context-Sound h =
      let t = parse_context_total host bytes size given in
      elim (Bool-cases (Access.is_valid t.0)) [
        | inl e ↦ (context_packet t.0, rw (t.1, e), (t.1, valid_context t.0 e))
        | inr e ↦
            (rejected host bytes size t.0.error h, rw (t.1, e), (invalid_context t.0 e, refl, refl))
      ]

  dispatch-Sound : (h : DecodedHeader) → Sound (dispatch host bytes size h)
  unfolding dispatch Sound
  dispatch-Sound h = elim (Bool-cases (leb (packet_type_value h.type) 3)) [
    | inl e ↦ rw e (data-Sound h)
    | inr e ↦
        let t = packet_type_value h.type in
        elim (Bool-cases (t == 4 || t == 5)) [
          | inl f ↦ rw (e, f) (context-Sound h)
          | inr f ↦ elim (Bool-cases (t == 6 || t == 7)) [
            | inl k ↦ (
              rejected host bytes size unsupported_field h,
              rw (e, f, k),
              ((λ z. ground arith), refl, refl),
            )
            | inr k ↦ (
              rejected host bytes size invalid_packet_type h,
              rw (e, f, k),
              ((λ z. ground arith), refl, refl),
            )
          ]
        ]
  ]

  -- For every buffer of which the given bytes may be read, `parse_packet` returns: a packet that the
  -- parser of its kind accepted, or an error with the bytes that were given.
  pub parse_packet_total :
      (v : PacketVariant) × (parse_packet host bytes size ≡ done v) × IsSound host bytes size v
  unfolding parse_packet Sound
  parse_packet_total = elim (Bool-cases (ltb size 4)) [
    | inl e ↦ (
      invalid_packet (record {
        error = buffer_too_small;
        attempted_type = PacketType.signal_data_no_id;
        header = zero_header;
        raw_bytes = bytes;
        raw_size = size;
      }),
      rw e,
      ((λ z. ground arith), refl, refl),
    )
    | inr e ↦
        rw (e, read_u32-done host (memory bytes) 0 (ground arith))
          (dispatch-Sound (decode_header (word_at host 4 (memory bytes) 0)))
  ]
