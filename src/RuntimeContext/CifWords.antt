-- ===== src/RuntimeContext/CifWords.antt =====
-- Step 7 of the parser of context packets: the CIF words.
use vrtio.Common.{
  ℕ, ◌+◌, ◌*◌, ◌≤◌, ◌≡◌, refl, length, false, bit_of, if◌then◌else◌, Bool-cases, inl, inr, done,
  arith,
}
use vrtio.Buffer.{Endian, read_u32}
use vrtio.Buffer.Access.{word_at, read_u32-done}
use vrtio.Memory.{Pointer, memory}
use vrtio.Header.{DecodedHeader}
use vrtio.Cif.{has_bit}
use vrtio.RuntimeContext.{
  ContextStructure, absent, beyond, read_cif3, read_cif2, read_cif1, read_cif0, count_fields,
}
use vrtio.RuntimeContext.Layout.{context_prologue, IsContextHeader, base_words}
use vrtio.RuntimeContext.Counting.{Good, fields-Answers}
use vrtio.RuntimeContext.Answers.{Answers, shape, guarded, fits_word}

module _ (host : Endian) (ptr : Pointer) (size : ℕ) (given : size ≤ length (memory ptr))
    (h : DecodedHeader) (good : IsContextHeader size h) (small : h.size_words ≤ 65535) where
  abbrev p : ℕ
  p = context_prologue h

  abbrev word : ℕ → ℕ
  word offset_words = word_at host 4 (memory ptr) (4 * offset_words)

  unfoldable pub IsGood : ContextStructure → Type 0
  IsGood = Good host ptr size given h good small

  -- A CIF word that the checks let through is read within the buffer.
  read_word_at :
      (offset_words : ℕ)
      → offset_words ≤ 10
      → beyond size (offset_words + 1) ≡ false
      → read_u32 host (memory ptr) (offset_words * 4) ≡ done (word offset_words)
  read_word_at offset_words few e =
      let fit = fits_word size (offset_words + 1) (omega arith) e in
      let turn : offset_words * 4 ≡ 4 * offset_words = omega arith in
      rw (turn, read_u32-done host (memory ptr) (4 * offset_words) (omega (arith, fit, given)))

  p-le : context_prologue h ≤ 7
  p-le = ground arith

  cif3-Answers :
      (c0 c1 c2 : ℕ)
      → c0 ≡ word p
      → c1 ≡ (if has_bit c0 1 then word (p + 1) else 0)
      → c2 ≡ (if has_bit c0 2 then word (p + 1 + bit_of (has_bit c0 1)) else 0)
      → Answers
          (read_cif3 host ptr size
            (p + 1 + bit_of (has_bit c0 1) + bit_of (has_bit c0 2))
            (shape h c0 c1 c2 0 absent absent 0))
          IsGood
  unfolding read_cif3 IsGood
  cif3-Answers c0 c1 c2 is0 is1 is2 = elim (Bool-cases (has_bit c0 3)) [
    | inl e ↦ rw e (
        guarded (beyond size (offset + 1)) _
          (λ f. rw (read_word_at offset offset-le f) (next (word offset) (rw e) (rw e refl))))
    | inr e ↦ rw e (next 0 (rw e) (rw e (omega arith)))
  ]
    where
      offset : ℕ
      offset = p + 1 + bit_of (has_bit c0 1) + bit_of (has_bit c0 2)

      offset-le : p + 1 + bit_of (has_bit c0 1) + bit_of (has_bit c0 2) ≤ 10
      offset-le = ground (arith, p-le)

      next :
          (c3 : ℕ)
          → c3 ≡ (if has_bit c0 3 then word offset else 0)
          → {w : ℕ} → w ≡ base_words p c0
          → Answers (count_fields host ptr size w (shape h c0 c1 c2 c3 absent absent 0)) IsGood
      next c3 is3 {w} e = rw e (
          fields-Answers host ptr size given h good small c0 c1 c2 c3
            (record { cif0_is = is0; cif1_is = is1; cif2_is = is2; cif3_is = is3 }))

  cif2-Answers :
      (c0 c1 : ℕ)
      → c0 ≡ word p
      → c1 ≡ (if has_bit c0 1 then word (p + 1) else 0)
      → Answers
          (read_cif2 host ptr size
            (p + 1 + bit_of (has_bit c0 1))
            (shape h c0 c1 0 0 absent absent 0))
          IsGood
  unfolding read_cif2
  cif2-Answers c0 c1 is0 is1 = elim (Bool-cases (has_bit c0 2)) [
    | inl e ↦ rw e (
        guarded (beyond size (offset + 1)) _
          (λ f. rw (read_word_at offset offset-le f) (next (word offset) (rw e) (rw e refl))))
    | inr e ↦ rw e (next 0 (rw e) (rw e (omega arith)))
  ]
    where
      offset : ℕ
      offset = p + 1 + bit_of (has_bit c0 1)

      offset-le : p + 1 + bit_of (has_bit c0 1) ≤ 10
      offset-le = ground (arith, p-le)

      next :
          (c2 : ℕ)
          → c2 ≡ (if has_bit c0 2 then word offset else 0)
          → {w : ℕ} → w ≡ p + 1 + bit_of (has_bit c0 1) + bit_of (has_bit c0 2)
          → Answers (read_cif3 host ptr size w (shape h c0 c1 c2 0 absent absent 0)) IsGood
      next c2 is2 {w} e = rw e (cif3-Answers c0 c1 c2 is0 is1 is2)

  cif1-Answers :
      (c0 : ℕ)
      → c0 ≡ word p
      → Answers (read_cif1 host ptr size (p + 1) (shape h c0 0 0 0 absent absent 0)) IsGood
  unfolding read_cif1
  cif1-Answers c0 is0 = elim (Bool-cases (has_bit c0 1)) [
    | inl e ↦ rw e (
        guarded (beyond size (p + 1 + 1)) _ (λ f.
          rw (read_word_at (p + 1) (omega (arith, p-le)) f)
            (next (word (p + 1)) (rw e) (rw e refl))))
    | inr e ↦ rw e (next 0 (rw e) (rw e (omega arith)))
  ]
    where
      next :
          (c1 : ℕ)
          → c1 ≡ (if has_bit c0 1 then word (p + 1) else 0)
          → {w : ℕ} → w ≡ p + 1 + bit_of (has_bit c0 1)
          → Answers (read_cif2 host ptr size w (shape h c0 c1 0 0 absent absent 0)) IsGood
      next c1 is1 {w} e = rw e (cif2-Answers c0 c1 is0 is1)

  pub cif0-Answers : Answers (read_cif0 host ptr size p (shape h 0 0 0 0 absent absent 0)) IsGood
  unfolding read_cif0
  cif0-Answers =
      guarded (beyond size (p + 1)) _
        (λ f. rw (read_word_at p (omega (arith, p-le)) f) (cif1-Answers (word p) refl))
