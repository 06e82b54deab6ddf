-- ===== src/RuntimeContext/Counting.antt =====
-- Step 8 of the parser of context packets: it reads only bytes that it was given, and what it counts.
use vrtio.Common.{
  ℕ, ◌+◌, ◌*◌, ◌^◌, ◌≤◌, ◌<◌, ◌≡◌, refl, u64, length, true, false, ◌==◌, if◌then◌else◌, Bool-cases,
  inl, inr, done, arith,
}
use vrtio.Buffer.{Endian}
use vrtio.Buffer.Access.{word_at, read_u32-done}
use vrtio.Memory.{Pointer, memory}
use vrtio.Types.{ValidationError, unsupported_field, size_field_mismatch}
use vrtio.Header.{DecodedHeader}
use vrtio.Cif.{has_bit, cif1_fields, cif2_fields, cif3_fields}
use vrtio.Cif.Offset.{
  gps_words, assoc_words, read_gps_ascii_length_words, read_context_assoc_length_words,
}
use vrtio.Cif.Places.{
  before_gps, before_assoc, after_assoc, size_cif0-total, before_gps-le, gps_words-le,
  assoc_words-le,
}
use vrtio.Cif.Fields.{enabled_words-le, total_words}
use vrtio.Cif.Sums.{tables_small}
use vrtio.RuntimeContext.{
  ContextStructure, VariableFieldInfo, absent, has_unsupported_bits, check_size, beyond,
  count_context_assoc, count_gps_ascii, count_fields, add_cif_words,
}
use vrtio.RuntimeContext.Layout.{
  context_prologue, IsContextHeader, HasCifs, base_words, AcceptsContext, add_cif_words-sum,
  add_cif0_fixed-before_gps,
}
use vrtio.RuntimeContext.Answers.{
  Answers, refuses, same_answer, guarded, guarded_done, shape, fits_word,
}

module _ (host : Endian) (ptr : Pointer) (size : ℕ) (given : size ≤ length (memory ptr))
    (h : DecodedHeader) (good : IsContextHeader size h) (small : h.size_words ≤ 65535) where
  unfoldable pub Good : ContextStructure → Type 0
  Good s = AcceptsContext host (memory ptr) size h s

  module _ (c0 c1 c2 c3 : ℕ)
      (cifs : HasCifs host (memory ptr) (context_prologue h) c0 c1 c2 c3) where
    abbrev w : ℕ
    w = base_words (context_prologue h) c0

    abbrev base : ℕ
    base = 4 * base_words (context_prologue h) c0

    w-le : base_words (context_prologue h) c0 ≤ 11
    w-le = ground arith

    abbrev gps_found : VariableFieldInfo
    gps_found =
        if has_bit c0 10
        then record {
          present = true;
          offset_bytes = base + 4 * before_gps c0;
          size_words = gps_words (word_at host 4 (memory ptr) (base + 4 * before_gps c0));
        }
        else absent

    abbrev assoc_found : ℕ → VariableFieldInfo
    assoc_found g =
        if has_bit c0 9
        then record {
          present = true;
          offset_bytes = base + 4 * before_assoc c0 g;
          size_words = assoc_words (word_at host 4 (memory ptr) (base + 4 * before_assoc c0 g));
        }
        else absent

    gps-le : gps_found.size_words ≤ 2 ^ 30 + 1
    gps-le = elim (Bool-cases (has_bit c0 10)) [
      | inl e ↦ rw e (gps_words-le _)
      | inr e ↦ rw e (omega arith)
    ]

    assoc-le : (g : ℕ) → (assoc_found g).size_words ≤ 131071
    assoc-le g = elim (Bool-cases (has_bit c0 9)) [
      | inl e ↦ rw e (assoc_words-le _)
      | inr e ↦ rw e (omega arith)
    ]

    module _ (gps assoc : VariableFieldInfo) (gps_same : gps ≡ gps_found) where
      before_assoc-le : before_assoc c0 gps.size_words ≤ 2 ^ 31
      before_assoc-le =
          let many : gps.size_words ≤ 2 ^ 30 + 1 = rw gps_same gps-le in
          ground (arith, before_gps-le c0)

      abbrev found : ContextStructure
      found = shape h c0 c1 c2 c3 gps assoc base

      -- The size that the parser calculates is the sum of the words of all the fields.
      size_sum :
          (fields : ℕ)
          → assoc ≡ assoc_found gps.size_words
          → fields ≡ after_assoc c0 gps.size_words assoc.size_words
          → u64 (w + add_cif_words found fields)
            ≡ w + total_words c0 c1 c2 c3 gps.size_words assoc.size_words
      size_sum fields assoc_same all =
          let few : assoc.size_words ≤ 131071 = rw assoc_same (assoc-le gps.size_words) in
          let bound : fields < 2 ^ 33 = ground (arith, before_assoc-le) in
          omega (
            arith,
            w-le,
            bound,
            all,
            add_cif_words-sum found fields bound,
            size_cif0-total c0 gps.size_words assoc.size_words,
            enabled_words-le c0 1 cif1_fields c1 0 tables_small.1,
            enabled_words-le c0 2 cif2_fields c2 0 tables_small.2,
            enabled_words-le c0 3 cif3_fields c3 0 tables_small.3,
          )

      check-Answers :
          (fields : ℕ)
          → assoc ≡ assoc_found gps.size_words
          → fields ≡ after_assoc c0 gps.size_words assoc.size_words
          → has_unsupported_bits found ≡ false
          → Answers (done (check_size w fields found)) Good
      unfolding check_size has_unsupported_bits Good
      check-Answers fields assoc_same all supported =
          elim (Bool-cases (u64 (w + add_cif_words found fields) == h.size_words)) [
            | inl e ↦ record {
              verdict = (ValidationError.none, final);
              returns = rw e;
              accepts = λ ok. record {
                header_kept = refl;
                header_good = good;
                stream_kept = refl;
                cifs = cifs;
                supported = supported;
                base_at = refl;
                gps_is = gps_same;
                assoc_is = assoc_same;
                ends = ground (arith, size_sum fields assoc_same all, e);
              };
            }
            | inr e ↦ refuses (size_field_mismatch, final) (rw e) (λ k. ground arith)
          ]
        where
          final : ContextStructure
          final = record found { calculated_size_words = u64 (w + add_cif_words found fields) }

    -- The association lists are counted with what comes before them.
    assoc-Answers :
        (gps : VariableFieldInfo)
        → gps ≡ gps_found
        → has_unsupported_bits (shape h c0 c1 c2 c3 gps absent base) ≡ false
        → Answers
            (count_context_assoc host ptr size w
              (before_assoc c0 gps.size_words)
              (shape h c0 c1 c2 c3 gps absent base))
            Good
    unfolding count_context_assoc read_context_assoc_length_words has_unsupported_bits
    assoc-Answers gps gps_same supported = elim (Bool-cases (has_bit c0 9)) [
      | inl e ↦ rw e (
          guarded (beyond size (w + before + 1)) _ (λ f.
            let few = before_assoc-le gps absent gps_same in
            let fit = fits_word size (w + before + 1) (omega (arith, w-le)) f in
            let cut : u64 ((w + before) * 4) ≡ base + 4 * before = omega (arith, w-le) in
            rw
              (cut, read_u32-done host (memory ptr) (base + 4 * before) (omega (arith, fit, given)))
              (guarded_done (beyond size (w + before + counted.size_words)) _ (λ k.
                check-Answers gps counted gps_same (before + counted.size_words) (rw e) (rw e)
                  supported))))
      | inr e ↦
          same_answer (rw e)
            (check-Answers gps absent gps_same before (rw e) (rw e (omega arith)) supported)
    ]
      where
        before : ℕ
        before = before_assoc c0 gps.size_words

        counted : VariableFieldInfo
        counted = record {
          present = true;
          offset_bytes = base + 4 * before;
          size_words = assoc_words (word_at host 4 (memory ptr) (base + 4 * before));
        }

    -- The GPS text and the association lists.
    gps-Answers :
        has_unsupported_bits (shape h c0 c1 c2 c3 absent absent base) ≡ false
        → Answers
            (count_gps_ascii host ptr size w
              (before_gps c0)
              (shape h c0 c1 c2 c3 absent absent base))
            Good
    unfolding count_gps_ascii read_gps_ascii_length_words has_unsupported_bits
    gps-Answers supported = elim (Bool-cases (has_bit c0 10)) [
      | inl e ↦ rw e (
          guarded (beyond size (w + before_gps c0 + 1)) _ (λ f.
            let few = before_gps-le c0 in
            let fit = fits_word size (w + before_gps c0 + 1) (omega (arith, w-le)) f in
            let cut : u64 ((w + before_gps c0) * 4) ≡ base + 4 * before_gps c0 =
              omega (arith, w-le) in
            rw
              (
                cut,
                read_u32-done host (memory ptr) (base + 4 * before_gps c0)
                    (omega (arith, fit, given)),
              )
              (guarded (beyond size (w + before_gps c0 + counted.size_words)) _
                (λ k. rw (grown counted e) (assoc-Answers counted (rw e) supported)))))
      | inr e ↦ rw (e, grown_none e) (assoc-Answers absent (rw e) supported)
    ]
      where
        counted : VariableFieldInfo
        counted = record {
          present = true;
          offset_bytes = base + 4 * before_gps c0;
          size_words = gps_words (word_at host 4 (memory ptr) (base + 4 * before_gps c0));
        }

        grown :
            (gps : VariableFieldInfo)
            → has_bit c0 10 ≡ true
            → before_gps c0 + gps.size_words ≡ before_assoc c0 gps.size_words
        grown gps e = rw e

        grown_none : has_bit c0 10 ≡ false → before_gps c0 ≡ before_assoc c0 0
        grown_none e = rw e (omega arith)

    -- From the checks of the masks on.
    pub fields-Answers :
        Answers (count_fields host ptr size w (shape h c0 c1 c2 c3 absent absent 0)) Good
    unfolding count_fields has_unsupported_bits
    fields-Answers =
        elim (Bool-cases (has_unsupported_bits (shape h c0 c1 c2 c3 absent absent 0))) [
          | inl e ↦ rw e (
              refuses (unsupported_field, shape h c0 c1 c2 c3 absent absent 0) refl
                (λ k. ground arith))
          | inr e ↦
              let cut : u64 (w * 4) ≡ base = omega (arith, w-le) in
              rw (e, add_cif0_fixed-before_gps c0, cut) (gps-Answers e)
        ]
