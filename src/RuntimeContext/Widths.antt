-- ===== src/RuntimeContext/Widths.antt =====
-- The words of the fields of an accepted context packet, and where each field lies.
use vrtio.Common.{
  ℕ, zero, suc, ◌+◌, ◌*◌, ◌^◌, ◌≤◌, ◌<◌, ◌≡◌, ap, length, true, false, ◌==◌, if◌then◌else◌, done,
  arith,
}
use vrtio.Buffer.{Endian}
use vrtio.Buffer.Bytes.{IsBytes}
use vrtio.Buffer.Access.{word_at}
use vrtio.Memory.{memory}
use vrtio.Header.{DecodedHeader}
use vrtio.Cif.{has_bit, cif1_fields, cif2_fields, cif3_fields}
use vrtio.Cif.Offset.{calculate_field_offset_runtime, gps_words, assoc_words}
use vrtio.Cif.Sums.{words_from-split, size_in}
use vrtio.Cif.Places.{
  one-le-words, before_gps, before_assoc, after_assoc, size_cif0, size_cif0-total, VariableFields,
  agree, variable_sum,
}
use vrtio.Cif.Fields.{
  empty_at, words_before, total_words, calculate_field_offset_runtime-words_before,
}
use vrtio.RuntimeContext.{ContextStructure, VariableFieldInfo, RuntimeContextPacket}
use vrtio.RuntimeContext.Layout.{AcceptsContext}
use vrtio.RuntimeContext.Access.{is_field_present, field_table, is_variable_trait}
use vrtio.Cif.Present.{counted, enabled-counted}

-- The words of a field of a packet.
abbrev pub field_words : ContextStructure → ℕ → ℕ → ℕ
field_words s word bit =
    if word == 0
    then size_cif0 s.gps_ascii.size_words s.context_assoc.size_words bit
    else size_in (field_table word) bit

-- The words of the fields before it, and of all fields.
abbrev pub words_before_field : ContextStructure → ℕ → ℕ → ℕ
words_before_field s word bit =
    words_before s.cif0 s.cif1 s.cif2 s.cif3 s.gps_ascii.size_words s.context_assoc.size_words word
      bit

module _ (host : Endian) (p : RuntimeContextPacket) (h : DecodedHeader)
    (a : AcceptsContext host (memory p.buffer) p.buffer_size h p.structure)
    (given : p.buffer_size ≤ length (memory p.buffer)) (octets : IsBytes (memory p.buffer)) where
  abbrev cif0 : ℕ
  cif0 = p.structure.cif0

  abbrev base : ℕ
  base = p.structure.context_base_bytes

  -- The fields of CIF0 end within the buffer.
  room :
      base
        + 4 * after_assoc cif0 p.structure.gps_ascii.size_words p.structure.context_assoc.size_words
      ≤ p.buffer_size
  room = omega (
    arith,
    a.ends,
    ap (λ (q : DecodedHeader). q.size_words) a.header_kept,
    a.header_good.in_buffer,
    size_cif0-total cif0 p.structure.gps_ascii.size_words p.structure.context_assoc.size_words,
  )

  pub gps_size :
      has_bit cif0 10 ≡ true
      → p.structure.gps_ascii.size_words
        ≡ gps_words (word_at host 4 (memory p.buffer) (base + 4 * before_gps cif0))
  gps_size e = rw e at (ap (λ (v : VariableFieldInfo). v.size_words) a.gps_is)

  pub assoc_size :
      has_bit cif0 9 ≡ true
      → p.structure.context_assoc.size_words
        ≡ assoc_words (
            word_at host 4
              (memory p.buffer)
              (base + 4 * before_assoc cif0 p.structure.gps_ascii.size_words))
  assoc_size e = rw e at (ap (λ (v : VariableFieldInfo). v.size_words) a.assoc_is)

  pub fields :
      VariableFields host
        (memory p.buffer)
        cif0
        base
        p.buffer_size
        p.structure.gps_ascii.size_words
        p.structure.context_assoc.size_words
  fields = record {
    gps_fits = λ e.
        let some : 1 ≤ p.structure.gps_ascii.size_words = rw (gps_size e) (one-le-words _).0 in
        let fit = rw e at room in omega (arith, fit);
    gps_is = gps_size;
    assoc_fits = λ e.
        let some : 1 ≤ p.structure.context_assoc.size_words =
          rw (assoc_size e) (one-le-words _).1 in
        let fit = rw e at room in omega (arith, fit);
    assoc_is = assoc_size;
  }

  base-le : base ≤ 2 ^ 32
  base-le = ground (arith, a.base_at)

  -- Where a field is found.
  pub offset_lem :
      (word bit : ℕ)
      → word ≤ 3
      → bit < 32
      → calculate_field_offset_runtime host
          (memory p.buffer)
          cif0
          p.structure.cif1
          p.structure.cif2
          p.structure.cif3
          word
          bit
          base
          p.buffer_size
        ≡ done (base + 4 * words_before_field p.structure word bit)
  offset_lem word bit known inside =
      calculate_field_offset_runtime-words_before host (memory p.buffer) cif0 base p.buffer_size
        p.structure.gps_ascii.size_words p.structure.context_assoc.size_words fields given octets
        base-le p.structure.cif1 p.structure.cif2 p.structure.cif3 word bit known inside

  abbrev pub all_words : ℕ
  all_words =
      total_words cif0 p.structure.cif1 p.structure.cif2 p.structure.cif3
        p.structure.gps_ascii.size_words p.structure.context_assoc.size_words

  pub ends_lem :
      (word bit : ℕ)
      → word ≤ 3
      → bit < 32
      → is_field_present word bit p.structure ≡ true
      → words_before_field p.structure word bit + field_words p.structure word bit ≤ all_words
  unfolding is_field_present field_table
  ends_lem zero bit known inside set =
      rw
        (
          empty_at cif1_fields cif0 1 p.structure.cif1,
          empty_at cif2_fields cif0 2 p.structure.cif2,
          empty_at cif3_fields cif0 3 p.structure.cif3,
        )
        (omega (
          arith,
          counted (size_cif0 p.structure.gps_ascii.size_words p.structure.context_assoc.size_words)
              cif0 bit inside set,
        ))
  ends_lem (suc zero) bit known inside set =
      rw
        (empty_at cif2_fields cif0 2 p.structure.cif2, empty_at cif3_fields cif0 3 p.structure.cif3)
        (omega (
          arith,
          enabled-counted cif0 1 cif1_fields p.structure.cif1 _ bit a.cifs.cif1_is inside set,
        ))
  ends_lem (suc (suc zero)) bit known inside set =
      rw (empty_at cif3_fields cif0 3 p.structure.cif3) (
        omega (
          arith,
          enabled-counted cif0 2 cif2_fields p.structure.cif2 _ bit a.cifs.cif2_is inside set,
        ))
  ends_lem (suc (suc (suc zero))) bit known inside set =
      omega
        (arith, enabled-counted cif0 3 cif3_fields p.structure.cif3 _ bit a.cifs.cif3_is inside set)
  ends_lem (suc (suc (suc (suc word)))) bit known inside set = absurd (omega arith)

  pub fixed_size :
      (word bit : ℕ)
      → is_variable_trait word bit ≡ false
      → size_in (field_table word) bit ≡ field_words p.structure word bit
  unfolding field_table
  fixed_size zero bit fixed = ground arith
  fixed_size (suc word) bit fixed = let other : (suc word == 0) ≡ false = ground arith in rw other

  -- Where the variable fields are found.
  pub gps_place : base + 4 * words_before_field p.structure 0 10 ≡ base + 4 * before_gps cif0
  gps_place =
      rw
        (
          empty_at cif1_fields cif0 1 p.structure.cif1,
          empty_at cif2_fields cif0 2 p.structure.cif2,
          empty_at cif3_fields cif0 3 p.structure.cif3,
        )
        (omega (
          arith,
          agree cif0 p.structure.gps_ascii.size_words p.structure.context_assoc.size_words 11
              (omega arith),
        ))

  pub assoc_place :
      base + 4 * words_before_field p.structure 0 9
      ≡ base + 4 * before_assoc cif0 p.structure.gps_ascii.size_words
  assoc_place =
      let g = p.structure.gps_ascii.size_words in
      let l = p.structure.context_assoc.size_words in
      rw
        (
          empty_at cif1_fields cif0 1 p.structure.cif1,
          empty_at cif2_fields cif0 2 p.structure.cif2,
          empty_at cif3_fields cif0 3 p.structure.cif3,
        )
        (omega (
          arith,
          agree cif0 g l 11 (omega arith),
          variable_sum cif0 g l 10 (omega arith),
          words_from-split (size_cif0 g l) cif0 10 11 32 (omega arith) (omega arith),
        ))
