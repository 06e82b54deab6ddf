-- ===== src/Cif/Places.antt =====
-- Where the fields stand: what the loop over CIF0 finds when its variable fields are in the buffer.
use vrtio.Common.{
  ℕ, zero, suc, ◌+◌, ◌*◌, ◌/◌, ◌^◌, ◌≤◌, ◌<◌, ◌≡◌, refl, ap, ◌∙◌, sym, u64, size_max, List, length,
  true, false, ◌==◌, ltb, leb, if◌then◌else◌, Bool-cases, inl, inr, done, arith,
}
use mathlib.Core.Option.{some}
use vrtio.Common.Bits.{bit_and_mask}
use vrtio.Buffer.{Endian}
use vrtio.Buffer.Access.{word_at, word_at-lt, read_u32-done}
use vrtio.Buffer.Bytes.{IsBytes}
use vrtio.Cif.{field_at, has_bit, cif0_fields}
use vrtio.Cif.Offset.{
  add_cif0, cif0_round, go_on, dispatch_branch, compute_variable_field_size, gps_ascii_trait_size,
  context_assoc_trait_size, gps_trait_words, gps_words, assoc_words, assoc_trait_words,
}
use vrtio.Cif.Sums.{
  words_from, words_from-split, words_from-agree, words_from-le, size_in, size_in-le, size_in-low,
  tables_small, add_cif0-above, add_cif0-upper, is_variable-places,
}

pub gps_trait_words-same : (c : ℕ) → gps_trait_words c ≡ gps_words c
unfolding gps_trait_words gps_words
gps_trait_words-same c = refl

pub gps_words-le : (c : ℕ) → gps_words c ≤ 2 ^ 30 + 1
unfolding gps_words
gps_words-le c = omega arith

pub assoc_words-le : (c : ℕ) → assoc_words c ≤ 131071
unfolding assoc_words
assoc_words-le c = omega arith

pub one-le-words : (c : ℕ) → (1 ≤ gps_words c) × (1 ≤ assoc_words c)
unfolding gps_words assoc_words
one-le-words c = (omega arith, omega arith)

-- The two ways to count the words of the association lists agree on words of 32 bits.
pub assoc_trait_words-same : (c : ℕ) → c < 2 ^ 32 → assoc_trait_words c ≡ assoc_words c
unfolding assoc_trait_words assoc_words
assoc_trait_words-same c h = rw (bit_and_mask 16 c, bit_and_mask 16 (c / 2 ^ 16)) (omega arith)

-- The words of the fields of CIF0, the variable ones with `g` and `a` words.
abbrev pub size_cif0 : ℕ → ℕ → ℕ → ℕ
size_cif0 g a bit = if bit == 10 then g else if bit == 9 then a else size_in cif0_fields bit

-- The words before the variable fields, and before the second of them.
abbrev pub before_gps : ℕ → ℕ
before_gps cif0 = words_from (size_in cif0_fields) cif0 11 32

abbrev pub before_assoc : ℕ → ℕ → ℕ
before_assoc cif0 g = before_gps cif0 + (if has_bit cif0 10 then g else 0)

pub before_gps-le : (cif0 : ℕ) → before_gps cif0 ≤ 416
before_gps-le cif0 =
    words_from-le (size_in cif0_fields) cif0 11 32 13
      (λ bit h. size_in-le cif0_fields bit tables_small.0)

abbrev pub after_assoc : ℕ → ℕ → ℕ → ℕ
after_assoc cif0 g a = before_assoc cif0 g + (if has_bit cif0 9 then a else 0)

module _ (cif0 g a : ℕ) where
  -- The words of the fields `low` to 8 are none.
  no_words : (low : ℕ) → words_from (size_cif0 g a) cif0 low 9 ≡ 0
  no_words low =
      let none : words_from (size_cif0 g a) cif0 low 9 ≤ 9 * 0 =
        words_from-le (size_cif0 g a) cif0 low 9 0 (λ bit h. ground (arith, size_in-low bit h)) in
      omega arith

  pub variable_sum :
      (low : ℕ)
      → low ≤ 10
      → before_gps cif0 + words_from (size_cif0 g a) cif0 low 11
        ≡ (if leb low 9 then after_assoc cif0 g a else before_assoc cif0 g)
  unfolding words_from
  variable_sum low inside =
      let ten : leb low 10 ≡ true = ground arith in
      rw (no_words low, ten)
        (elim (Bool-cases (leb low 9)) [
          | inl e ↦ rw e (ground arith)
          | inr e ↦ rw e (ground arith)
        ])

  pub agree :
      (k : ℕ)
      → 11 ≤ k
      → words_from (size_in cif0_fields) cif0 k 32 ≡ words_from (size_cif0 g a) cif0 k 32
  agree k h =
      words_from-agree (size_in cif0_fields) (size_cif0 g a) cif0 k 32
        (λ bit l l' set. ground arith)

  pub size_cif0-total : words_from (size_cif0 g a) cif0 0 32 ≡ after_assoc cif0 g a
  size_cif0-total = omega (
    arith,
    variable_sum 0 (omega arith),
    words_from-split (size_cif0 g a) cif0 0 11 32 (omega arith) (omega arith),
    agree 11 (omega arith),
  )

-- The variable fields that are present start within the first `size` bytes of the buffer, and `g` and
-- `a` are their words.
pub record VariableFields (host : Endian) (buffer : List ℕ) (cif0 base size g a : ℕ) : Type 0 where
  pub gps_fits : has_bit cif0 10 ≡ true → base + 4 * before_gps cif0 + 4 ≤ size
  pub gps_is :
      has_bit cif0 10 ≡ true → g ≡ gps_words (word_at host 4 buffer (base + 4 * before_gps cif0))
  pub assoc_fits : has_bit cif0 9 ≡ true → base + 4 * before_assoc cif0 g + 4 ≤ size
  pub assoc_is :
      has_bit cif0 9 ≡ true
      → a ≡ assoc_words (word_at host 4 buffer (base + 4 * before_assoc cif0 g))

module _ (host : Endian) (buffer : List ℕ) (cif0 base size g a : ℕ)
    (fields : VariableFields host buffer cif0 base size g a) (given : size ≤ length buffer)
    (bytes : IsBytes buffer) (base_small : base ≤ 2 ^ 32) where
  gps_round :
      cif0_round (dispatch_branch host buffer) cif0 base size 10 (before_gps cif0)
      ≡ done (some (before_assoc cif0 g))
  unfolding cif0_round dispatch_branch compute_variable_field_size gps_ascii_trait_size field_at
  gps_round = elim (Bool-cases (has_bit cif0 10)) [
    | inl e ↦
        let b = before_gps-le cif0 in
        let fit = fields.gps_fits e in
        let place : u64 (base + u64 (before_gps cif0 * 4)) ≡ base + 4 * before_gps cif0 =
          omega arith in
        let inside : ltb size (u64 (base + 4 * before_gps cif0 + 4)) ≡ false = ground arith in
        let many = gps_words-le (word_at host 4 buffer (base + 4 * before_gps cif0)) in
        let known : (gps_words (word_at host 4 buffer (base + 4 * before_gps cif0)) == size_max)
            ≡ false =
          ground arith in
        let cut : u64 (before_gps cif0 + g) ≡ before_gps cif0 + g =
          omega (arith, fields.gps_is e) in
        rw (
          e,
          place,
          inside,
          read_u32-done host buffer (base + 4 * before_gps cif0) (omega arith),
          gps_trait_words-same (word_at host 4 buffer (base + 4 * before_gps cif0)),
          known,
          sym (fields.gps_is e),
          cut,
        )
    | inr e ↦ rw e (ap (λ (w : ℕ). done (some w)) (omega arith))
  ]

  g-le : before_assoc cif0 g ≤ 2 ^ 31
  g-le = elim (Bool-cases (has_bit cif0 10)) [
    | inl e ↦
        let many = gps_words-le (word_at host 4 buffer (base + 4 * before_gps cif0)) in
        rw e (omega (arith, before_gps-le cif0, fields.gps_is e))
    | inr e ↦ rw e (omega (arith, before_gps-le cif0))
  ]

  assoc_round :
      cif0_round (dispatch_branch host buffer) cif0 base size 9 (before_assoc cif0 g)
      ≡ done (some (after_assoc cif0 g a))
  unfolding cif0_round dispatch_branch compute_variable_field_size context_assoc_trait_size field_at
  assoc_round = elim (Bool-cases (has_bit cif0 9)) [
    | inl e ↦
        let b = g-le in
        let before = before_assoc cif0 g in
        let fit = fields.assoc_fits e in
        let place : u64 (base + u64 (before_assoc cif0 g * 4)) ≡ base + 4 * before_assoc cif0 g =
          omega arith in
        let word = word_at host 4 buffer (base + 4 * before_assoc cif0 g) in
        let inside : ltb size (u64 (base + 4 * before_assoc cif0 g + 4)) ≡ false = ground arith in
        let many = assoc_words-le word in
        let same =
          assoc_trait_words-same word
            (word_at-lt host 4 buffer (base + 4 * before_assoc cif0 g) (omega arith) bytes) in
        let known : (assoc_words word == size_max) ≡ false = ground arith in
        let cut : u64 (before_assoc cif0 g + a) ≡ before_assoc cif0 g + a =
          omega (arith, fields.assoc_is e) in
        rw (
          e,
          place,
          inside,
          read_u32-done host buffer (base + 4 * before_assoc cif0 g) (omega arith),
          same,
          known,
          sym (fields.assoc_is e),
          cut,
        )
    | inr e ↦ rw e (ap (λ (w : ℕ). done (some w)) (omega arith))
  ]

  after_assoc-small : after_assoc cif0 g a < 2 ^ 32
  after_assoc-small = elim (Bool-cases (has_bit cif0 9)) [
    | inl e ↦
        let many = assoc_words-le (word_at host 4 buffer (base + 4 * before_assoc cif0 g)) in
        rw e (omega (arith, g-le, fields.assoc_is e))
    | inr e ↦ rw e (omega (arith, g-le))
  ]

  low_round :
      (bit acc : ℕ)
      → bit < 9
      → acc < 2 ^ 64
      → cif0_round (dispatch_branch host buffer) cif0 base size bit acc ≡ done (some acc)
  unfolding cif0_round
  low_round bit acc h fits =
      let fixed : (field_at cif0_fields bit).is_variable ≡ false =
        ground (arith, is_variable-places bit (omega arith)) in
      let cut : u64 (acc + size_in cif0_fields bit) ≡ acc = omega (arith, size_in-low bit h) in
      elim (Bool-cases (has_bit cif0 bit)) [ inl e ↦ rw (e, fixed, cut) | inr e ↦ rw e ]

  lowest :
      (low n acc : ℕ)
      → n ≤ 9
      → acc < 2 ^ 64
      → add_cif0 (dispatch_branch host buffer) cif0 base size low n acc ≡ done (some acc)
  unfolding add_cif0 go_on
  lowest low zero acc h fits = refl
  lowest low (suc bit) acc h fits = elim (Bool-cases (leb low bit)) [
    | inl e ↦ rw (e, low_round bit acc (omega arith) fits) (lowest low bit acc (omega arith) fits)
    | inr e ↦ rw e
  ]

  variable_rounds :
      (low : ℕ)
      → low ≤ 10
      → add_cif0 (dispatch_branch host buffer) cif0 base size low 11 (before_gps cif0)
        ≡ done (some (if leb low 9 then after_assoc cif0 g a else before_assoc cif0 g))
  unfolding add_cif0 go_on
  variable_rounds low inside =
      let ten : leb low 10 ≡ true = ground arith in
      rw (ten, gps_round)
        (elim (Bool-cases (leb low 9)) [
          | inl e ↦
              rw (e, assoc_round)
                (lowest low 9 (after_assoc cif0 g a) (omega arith)
                  (omega (arith, after_assoc-small)))
          | inr e ↦ rw e
        ])

  -- The loop over CIF0 finds the words of the fields from `low` on.
  pub add_cif0-words_from :
      (low : ℕ)
      → low ≤ 32
      → add_cif0 (dispatch_branch host buffer) cif0 base size low 32 0
        ≡ done (some (words_from (size_cif0 g a) cif0 low 32))
  add_cif0-words_from low inside = elim (Bool-cases (leb 11 low)) [
    | inl e ↦
        add_cif0-above (dispatch_branch host buffer) cif0 base size low 32 0 (omega arith)
          (ground arith) (omega arith)
        ∙ ap (λ (w : ℕ). done (some w)) (omega (arith, agree cif0 g a low (ground arith)))
    | inr e ↦
        add_cif0-upper (dispatch_branch host buffer) cif0 base size low 32 0 (omega arith)
          (omega arith) (ground arith) (omega arith)
        ∙ ap (add_cif0 (dispatch_branch host buffer) cif0 base size low 11) (omega arith)
        ∙ variable_rounds low (ground arith)
        ∙ ap (λ (w : ℕ). done (some w))
            (omega (
              arith,
              variable_sum cif0 g a low (ground arith),
              words_from-split (size_cif0 g a) cif0 low 11 32 (ground arith) (omega arith),
              agree cif0 g a 11 (omega arith),
            ))
  ]

  pub size_cif0-small : (low : ℕ) → low ≤ 32 → words_from (size_cif0 g a) cif0 low 32 < 2 ^ 33
  size_cif0-small low inside = elim (Bool-cases (leb 11 low)) [
    | inl e ↦ omega (arith, agree cif0 g a low (ground arith), upper low)
    | inr e ↦
        let few : before_gps cif0 + words_from (size_cif0 g a) cif0 low 11 < 2 ^ 32 =
          rw (variable_sum cif0 g a low (ground arith)) (ground (arith, after_assoc-small, g-le)) in
        omega (
          arith,
          words_from-split (size_cif0 g a) cif0 low 11 32 (ground arith) (omega arith),
          agree cif0 g a 11 (omega arith),
          few,
        )
  ]
    where
      upper : (k : ℕ) → words_from (size_in cif0_fields) cif0 k 32 ≤ 32 * 13
      upper k =
          words_from-le (size_in cif0_fields) cif0 k 32 13
            (λ bit h. size_in-le cif0_fields bit tables_small.0)
