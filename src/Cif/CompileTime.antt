-- ===== src/Cif/CompileTime.antt =====
-- The compile-time offsets are those that the runtime function finds in a packet of the same fields.
use vrtio.Common.{
  ℕ, zero, suc, ◌+◌, ◌*◌, ◌^◌, ◌≤◌, ◌<◌, ◌≡◌, refl, ap, ◌∙◌, sym, u64, List, length, true, false,
  ◌&&◌, not, ◌==◌, leb, if◌then◌else◌, Bool-cases, inl, inr, done, arith,
}
use vrtio.Buffer.{Endian}
use vrtio.Buffer.Bytes.{IsBytes}
use vrtio.Cif.{FieldInfo, has_bit, cif0_fields, cif1_fields, cif2_fields, cif3_fields}
use vrtio.Cif.Masks.{has_bit-zero}
use vrtio.Cif.Offset.{
  add_fixed, is_enable_bit, add_cif0_ct, calculate_field_offset_ct, calculate_context_size_ct,
  calculate_field_offset_runtime,
}
use vrtio.Cif.Sums.{
  words_from, words_from-agree, words_from-le, size_in, size_in-le, size_in-low, tables_small,
  all_small, add_fixed-words_from,
}
use vrtio.Cif.Places.{VariableFields, size_cif0}
use vrtio.Cif.Fields.{
  empty_at, enabled_words, enabled_words-le, words_before, total_words,
  calculate_field_offset_runtime-words_before,
}

-- The loop over CIF0 that skips the enable bits adds up the same words, which the enable bits have none.
skipped : (bit : ℕ) → is_enable_bit bit ≡ true → size_in cif0_fields bit ≡ 0
skipped bit e = size_in-low bit (ground arith)

add_cif0_ct-words_from :
    (cif0 low n acc : ℕ)
    → acc + n * 13 < 2 ^ 64
    → add_cif0_ct cif0 low n acc ≡ acc + words_from (size_in cif0_fields) cif0 low n
unfolding add_cif0_ct words_from
add_cif0_ct-words_from cif0 low zero acc fits = omega arith
add_cif0_ct-words_from cif0 low (suc bit) acc fits =
    let s = size_in-le cif0_fields bit tables_small.0 in
    let w = (if leb low bit && has_bit cif0 bit then size_in cif0_fields bit else 0) in
    let bound : w ≤ 13 = ground arith in
    let next : (if leb low bit && (not (is_enable_bit bit) && has_bit cif0 bit)
          then u64 (acc + size_in cif0_fields bit)
          else acc)
        ≡ acc + w =
      ground (arith, skipped bit) in
    rw next (omega (arith, add_cif0_ct-words_from cif0 low bit (acc + w) (omega arith)))

-- Without variable fields there is nothing that the loops must read.
fixed_fields :
    (host : Endian) (buffer : List ℕ) (cif0 base size : ℕ)
    → has_bit cif0 9 ≡ false
    → has_bit cif0 10 ≡ false
    → VariableFields host buffer cif0 base size 0 0
fixed_fields host buffer cif0 base size no_assoc no_gps = record {
  gps_fits = λ e. absurd (ground (arith, no_gps));
  gps_is = λ e. absurd (ground (arith, no_gps));
  assoc_fits = λ e. absurd (ground (arith, no_assoc));
  assoc_is = λ e. absurd (ground (arith, no_assoc));
}

words_from-none : (size : ℕ → ℕ) (low n : ℕ) → n ≤ 32 → words_from size 0 low n ≡ 0
unfolding words_from
words_from-none size low zero inside = refl
words_from-none size low (suc bit) inside =
    ground (arith, has_bit-zero bit (omega arith), words_from-none size low bit (omega arith))

-- A loop of the compile-time function over CIF1 to CIF3, where a word is 0 unless it is enabled.
ct_loop :
    (cif0 enable : ℕ) (table : List FieldInfo) (cif low w : ℕ)
    → (has_bit cif0 enable ≡ false → cif ≡ 0)
    → all_small table ≡ true
    → w < 2 ^ 62
    → (if not (cif == 0) then add_fixed table cif low 32 w else w)
      ≡ w + enabled_words cif0 enable table cif low
ct_loop cif0 enable table cif low w kept small fits = elim (Bool-cases (cif == 0)) [
  | inl e ↦
      let zero : cif ≡ 0 = ground arith in
      rw zero (ground (arith, words_from-none (size_in table) low 32 (omega arith)))
  | inr e ↦
      let on : has_bit cif0 enable ≡ true = ground (arith, kept) in
      rw (e, on) (add_fixed-words_from table cif low 32 w small (omega arith))
]

module _ (cif0 cif1 cif2 cif3 : ℕ) (no_assoc : has_bit cif0 9 ≡ false)
    (no_gps : has_bit cif0 10 ≡ false) (kept1 : has_bit cif0 1 ≡ false → cif1 ≡ 0)
    (kept2 : has_bit cif0 2 ≡ false → cif2 ≡ 0) (kept3 : has_bit cif0 3 ≡ false → cif3 ≡ 0) where
  first_ct : (low : ℕ) → add_cif0_ct cif0 low 32 0 ≡ words_from (size_cif0 0 0) cif0 low 32
  first_ct low = omega (
    arith,
    add_cif0_ct-words_from cif0 low 32 0 (omega arith),
    words_from-agree (size_in cif0_fields) (size_cif0 0 0) cif0 low 32
        (λ bit h h' set. ground (arith, no_assoc, no_gps)),
  )

  first_ct-le : (low : ℕ) → words_from (size_cif0 0 0) cif0 low 32 ≤ 32 * 13
  first_ct-le low =
      words_from-le (size_cif0 0 0) cif0 low 32 13
        (λ bit h. ground (arith, size_in-le cif0_fields bit tables_small.0))

  module _ (w : ℕ) (fits : w ≤ 416) where
    second_ct :
        (low : ℕ)
        → (if not (cif1 == 0) then add_fixed cif1_fields cif1 low 32 w else w)
          ≡ w + enabled_words cif0 1 cif1_fields cif1 low
    second_ct low = ct_loop cif0 1 cif1_fields cif1 low w kept1 tables_small.1 (omega arith)

    third_ct :
        (low low' : ℕ)
        → let w1 = w + enabled_words cif0 1 cif1_fields cif1 low in
          (if not (cif2 == 0) then add_fixed cif2_fields cif2 low' 32 w1 else w1)
          ≡ w1 + enabled_words cif0 2 cif2_fields cif2 low'
    third_ct low low' =
        ct_loop cif0 2 cif2_fields cif2 low' (w + enabled_words cif0 1 cif1_fields cif1 low) kept2
          tables_small.2
          (omega (arith, enabled_words-le cif0 1 cif1_fields cif1 low tables_small.1))

    fourth_ct :
        (low low' low'' : ℕ)
        → let w2 =
            w
            + enabled_words cif0 1 cif1_fields cif1 low
            + enabled_words cif0 2 cif2_fields cif2 low' in
          (if not (cif3 == 0) then add_fixed cif3_fields cif3 low'' 32 w2 else w2)
          ≡ w2 + enabled_words cif0 3 cif3_fields cif3 low''
    fourth_ct low low' low'' =
        ct_loop cif0 3 cif3_fields cif3 low''
          (w
            + enabled_words cif0 1 cif1_fields cif1 low
            + enabled_words cif0 2 cif2_fields cif2 low')
          kept3 tables_small.3
          (omega (
            arith,
            enabled_words-le cif0 1 cif1_fields cif1 low tables_small.1,
            enabled_words-le cif0 2 cif2_fields cif2 low' tables_small.2,
          ))

  small_words : (word bit : ℕ) → words_before cif0 cif1 cif2 cif3 0 0 word bit ≤ 4 * 416
  small_words word bit = omega (
    arith,
    first_ct-le (if word == 0 then suc bit else if leb word 0 then 32 else 0),
    enabled_words-le cif0 1 cif1_fields cif1
        (if word == 1 then suc bit else if leb word 1 then 32 else 0) tables_small.1,
    enabled_words-le cif0 2 cif2_fields cif2
        (if word == 2 then suc bit else if leb word 2 then 32 else 0) tables_small.2,
    enabled_words-le cif0 3 cif3_fields cif3
        (if word == 3 then suc bit else if leb word 3 then 32 else 0) tables_small.3,
  )

  -- The compile-time offset is the words of the fields before the field.
  offset_ct :
      (word bit : ℕ)
      → word ≤ 3
      → calculate_field_offset_ct cif0 cif1 cif2 cif3 word bit
        ≡ 4 * words_before cif0 cif1 cif2 cif3 0 0 word bit
  unfolding calculate_field_offset_ct
  offset_ct zero bit known = rw (first_ct (suc bit)) (
      omega (
        arith,
        small_words 0 bit,
        empty_at cif1_fields cif0 1 cif1,
        empty_at cif2_fields cif0 2 cif2,
        empty_at cif3_fields cif0 3 cif3,
      ))
  offset_ct (suc zero) bit known =
      rw (first_ct 0, second_ct _ (first_ct-le 0) (suc bit))
        (omega (
          arith,
          small_words 1 bit,
          empty_at cif2_fields cif0 2 cif2,
          empty_at cif3_fields cif0 3 cif3,
        ))
  offset_ct (suc (suc zero)) bit known =
      rw (first_ct 0, second_ct _ (first_ct-le 0) 0, third_ct _ (first_ct-le 0) 0 (suc bit))
        (omega (arith, small_words 2 bit, empty_at cif3_fields cif0 3 cif3))
  offset_ct (suc (suc (suc zero))) bit known =
      rw
        (
          first_ct 0,
          second_ct _ (first_ct-le 0) 0,
          third_ct _ (first_ct-le 0) 0 0,
          fourth_ct _ (first_ct-le 0) 0 0 (suc bit),
        )
        (omega (arith, small_words 3 bit))
  offset_ct (suc (suc (suc (suc word)))) bit known = absurd (omega arith)

  -- In a buffer of bytes, for a base of at most 2^32 and a bit of one of the four CIF words, where
  -- no variable field is present and a CIF word is 0 unless it is enabled, the runtime function
  -- finds the field at the base plus its compile-time offset.
  pub calculate_field_offset_runtime-ct :
      (host : Endian) (buffer : List ℕ) (word bit base : ℕ)
      → IsBytes buffer
      → base ≤ 2 ^ 32
      → word ≤ 3
      → bit < 32
      → calculate_field_offset_runtime host buffer cif0 cif1 cif2 cif3 word bit base (length buffer)
        ≡ done (base + calculate_field_offset_ct cif0 cif1 cif2 cif3 word bit)
  calculate_field_offset_runtime-ct host buffer word bit base octets base_small known inside =
      calculate_field_offset_runtime-words_before host buffer cif0 base (length buffer) 0 0
        (fixed_fields host buffer cif0 base (length buffer) no_assoc no_gps) (omega arith) octets
        base_small cif1 cif2 cif3 word bit known inside
      ∙ ap (λ (w : ℕ). done (base + w)) (sym (offset_ct word bit known))

  -- Where no variable field is present and a CIF word is 0 unless it is enabled, the compile-time
  -- size is the words of all fields.
  pub calculate_context_size_ct-total :
      calculate_context_size_ct cif0 cif1 cif2 cif3 ≡ total_words cif0 cif1 cif2 cif3 0 0
  unfolding calculate_context_size_ct
  calculate_context_size_ct-total = rw (
    first_ct 0,
    second_ct _ (first_ct-le 0) 0,
    third_ct _ (first_ct-le 0) 0 0,
    fourth_ct _ (first_ct-le 0) 0 0 0,
  )
