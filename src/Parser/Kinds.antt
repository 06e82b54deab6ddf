-- ===== src/Parser/Kinds.antt =====
-- The kind that a parsed packet reports.
use vrtio.Common.{
  ℕ, ◌≤◌, ◌≡◌, refl, ap, ◌∙◌, sym, subst, false, ◌||◌, ltb, leb, ◌==◌, if◌then◌else◌, length,
  Bool-cases, inl, inr, Run, done, ◌>>=◌, done-injective, arith,
}
use vrtio.Buffer.{Endian}
use vrtio.Buffer.Access.{word_at, read_u32-done}
use vrtio.Memory.{Pointer, memory}
use vrtio.Types.{
  PacketType, packet_type_value, ValidationError, unsupported_field, invalid_packet_type,
}
use vrtio.Header.{DecodedHeader, decode_header}
use vrtio.RuntimeData
use vrtio.RuntimeData.Safety.{parse_total, parse-Accepts}
use vrtio.RuntimeContext
use vrtio.RuntimeContext.Access
use vrtio.RuntimeContext.Safety.{parse_context_total}
use vrtio.Parser.{
  PacketVariant, data_packet, context_packet, rejected, dispatch, parse_packet, packet_type,
  is_context_packet,
}
use vrtio.Parser.Totality.{valid_data}

module _ (host : Endian) (bytes : Pointer) (size : ℕ) (given : size ≤ length (memory bytes)) where
  abbrev first : DecodedHeader
  first = decode_header (word_at host 4 (memory bytes) 0)

  -- What a variant reports as its type.
  abbrev Reports : PacketVariant → Type 0
  Reports v = packet_type v ≡ (if is_context_packet v then PacketType.context else first.type)

  abbrev Reporting : Run PacketVariant → Type 0
  Reporting r = (v : PacketVariant) × (r ≡ done v) × Reports v

  rejected-Reports : (error : ValidationError) → Reports (rejected host bytes size error first)
  unfolding packet_type is_context_packet
  rejected-Reports error = refl

  data-Reporting : Reporting (
      RuntimeData.parse host bytes size >>= λ view. done (
        if RuntimeData.is_valid view
        then data_packet view
        else rejected host bytes size view.error first))
  unfolding packet_type is_context_packet RuntimeData.type
  data-Reporting =
      let t = parse_total host bytes size given in
      elim (Bool-cases (RuntimeData.is_valid t.0)) [
        | inl e ↦
            let a = (parse-Accepts host bytes size given t.0 t.1 (valid_data t.0 e)).1 in
            (data_packet t.0, rw (t.1, e), ap (λ (q : DecodedHeader). q.type) a.header_kept)
        | inr e ↦ (rejected host bytes size t.0.error first, rw (t.1, e), refl)
      ]

  context-Reporting : Reporting (
      RuntimeContext.parse host bytes size >>= λ view. done (
        if Access.is_valid view
        then context_packet view
        else rejected host bytes size view.error first))
  unfolding packet_type is_context_packet
  context-Reporting =
      let t = parse_context_total host bytes size given in
      elim (Bool-cases (Access.is_valid t.0)) [
        | inl e ↦ (context_packet t.0, rw (t.1, e), refl)
        | inr e ↦ (rejected host bytes size t.0.error first, rw (t.1, e), refl)
      ]

  dispatch-Reporting : Reporting (dispatch host bytes size first)
  unfolding dispatch
  dispatch-Reporting = elim (Bool-cases (leb (packet_type_value first.type) 3)) [
    | inl e ↦ rw e data-Reporting
    | inr e ↦
        let t = packet_type_value first.type in
        elim (Bool-cases (t == 4 || t == 5)) [
          | inl f ↦ rw (e, f) context-Reporting
          | inr f ↦ elim (Bool-cases (t == 6 || t == 7)) [
            | inl k ↦ (
              rejected host bytes size unsupported_field first,
              rw (e, f, k),
              rejected-Reports unsupported_field,
            )
            | inr k ↦ (
              rejected host bytes size invalid_packet_type first,
              rw (e, f, k),
              rejected-Reports invalid_packet_type,
            )
          ]
        ]
  ]

  all-Reporting : ltb size 4 ≡ false → Reporting (parse_packet host bytes size)
  unfolding parse_packet
  all-Reporting e = rw (e, read_u32-done host (memory bytes) 0 (ground arith)) dispatch-Reporting

  -- Where the given size may be read and holds a header word, the type that a parsed packet reports is
  -- the one that its header has, for a rejected packet too; but a context packet reports `context`,
  -- also where it is an extension context packet.
  pub packet_type-parse_packet :
      (v : PacketVariant)
      → parse_packet host bytes size ≡ done v
      → ltb size 4 ≡ false
      → packet_type v ≡ (if is_context_packet v then PacketType.context else first.type)
  packet_type-parse_packet v e enough =
      let r = all-Reporting enough in subst Reports (done-injective (sym r.1 ∙ e)) r.2
