-- ===== src/Cif/Fields.antt =====
-- The offset of any field of a packet: the words of all the fields before it.
use vrtio.Common.{
  ℕ, zero, suc, ◌+◌, ◌*◌, ◌^◌, ◌≤◌, ◌<◌, ◌≡◌, refl, ap, ◌∙◌, u64, List, length, true, false, ◌==◌,
  leb, if◌then◌else◌, Bool-cases, inl, inr, done, arith,
}
use vrtio.Buffer.{Endian}
use vrtio.Buffer.Bytes.{IsBytes}
use vrtio.Cif.{FieldInfo, has_bit, cif1_fields, cif2_fields, cif3_fields}
use vrtio.Cif.Offset.{add_fixed, add_later, offset_runtime, calculate_field_offset_runtime}
use vrtio.Cif.Sums.{
  words_from, words_from-le, words_from-empty, size_in, size_in-le, tables_small, all_small,
  add_fixed-words_from,
}
use vrtio.Cif.Places.{VariableFields, size_cif0, add_cif0-words_from, size_cif0-small}

-- The words of the fields of CIF1, 2 or 3 from `low` on, if its enable bit in CIF0 is set.
abbrev pub enabled_words : ℕ → ℕ → List FieldInfo → ℕ → ℕ → ℕ
enabled_words cif0 enable table cif low =
    if has_bit cif0 enable then words_from (size_in table) cif low 32 else 0

-- The words of the fields of a packet that come before the field `bit` of CIF word `word`: the CIF words
-- in ascending order, the bits of each in descending order. `g` and `a` are the words of the variable
-- fields.
abbrev pub words_before : ℕ → ℕ → ℕ → ℕ → ℕ → ℕ → ℕ → ℕ → ℕ
words_before cif0 cif1 cif2 cif3 g a word bit =
    let from = λ (k : ℕ). if word == k then suc bit else if leb word k then 32 else 0 in
    words_from (size_cif0 g a) cif0 (from 0) 32
    + enabled_words cif0 1 cif1_fields cif1 (from 1)
    + enabled_words cif0 2 cif2_fields cif2 (from 2)
    + enabled_words cif0 3 cif3_fields cif3 (from 3)

later :
    (table : List FieldInfo) (cif low : ℕ)
    → all_small table ≡ true
    → words_from (size_in table) cif low 32 ≤ 416
later table cif low small =
    words_from-le (size_in table) cif low 32 13 (λ bit h. size_in-le table bit small)

pub enabled_words-le :
    (cif0 enable : ℕ) (table : List FieldInfo) (cif low : ℕ)
    → all_small table ≡ true
    → enabled_words cif0 enable table cif low ≤ 416
enabled_words-le cif0 enable table cif low small = ground (arith, later table cif low small)

-- A loop over CIF1 to CIF3 under its test.
enabled_loop :
    (cif0 enable : ℕ) (table : List FieldInfo) (cif low w : ℕ)
    → all_small table ≡ true
    → w < 2 ^ 62
    → (if has_bit cif0 enable then add_fixed table cif low 32 w else w)
      ≡ w + enabled_words cif0 enable table cif low
enabled_loop cif0 enable table cif low w small fits = elim (Bool-cases (has_bit cif0 enable)) [
  | inl e ↦ rw e (add_fixed-words_from table cif low 32 w small (omega arith))
  | inr e ↦ rw e (omega arith)
]

pub empty_at :
    (table : List FieldInfo) (cif0 enable cif : ℕ) → enabled_words cif0 enable table cif 32 ≡ 0
empty_at table cif0 enable cif = ground (arith, words_from-empty (size_in table) cif 32 32)

-- The three loops, where the field is in CIF1, CIF2 or CIF3.
later_words : ℕ → ℕ → ℕ → ℕ → ℕ → ℕ → ℕ
later_words cif0 cif1 cif2 cif3 word bit =
    let from = λ (k : ℕ). if word == k then suc bit else if leb word k then 32 else 0 in
    enabled_words cif0 1 cif1_fields cif1 (from 1)
    + enabled_words cif0 2 cif2_fields cif2 (from 2)
    + enabled_words cif0 3 cif3_fields cif3 (from 3)

module _ (cif0 cif1 cif2 cif3 bit w : ℕ) (fits : w < 2 ^ 33) where
  pub first :
      (low : ℕ)
      → (if has_bit cif0 1 then add_fixed cif1_fields cif1 low 32 w else w)
        ≡ w + enabled_words cif0 1 cif1_fields cif1 low
  first low = enabled_loop cif0 1 cif1_fields cif1 low w tables_small.1 (omega arith)

  pub second :
      (low low' : ℕ)
      → let w1 = w + enabled_words cif0 1 cif1_fields cif1 low in
        (if has_bit cif0 2 then add_fixed cif2_fields cif2 low' 32 w1 else w1)
        ≡ w1 + enabled_words cif0 2 cif2_fields cif2 low'
  second low low' =
      enabled_loop cif0 2 cif2_fields cif2 low' _ tables_small.2
        (omega (arith, enabled_words-le cif0 1 cif1_fields cif1 low tables_small.1))

  pub third :
      (low low' low'' : ℕ)
      → let w2 =
          w
          + enabled_words cif0 1 cif1_fields cif1 low
          + enabled_words cif0 2 cif2_fields cif2 low' in
        (if has_bit cif0 3 then add_fixed cif3_fields cif3 low'' 32 w2 else w2)
        ≡ w2 + enabled_words cif0 3 cif3_fields cif3 low''
  third low low' low'' = enabled_loop cif0 3 cif3_fields cif3 low'' _ tables_small.3 (
      omega (
        arith,
        enabled_words-le cif0 1 cif1_fields cif1 low tables_small.1,
        enabled_words-le cif0 2 cif2_fields cif2 low' tables_small.2,
      ))

  add_later-one : add_later cif0 cif1 cif2 cif3 1 bit w ≡ w + later_words cif0 cif1 cif2 cif3 1 bit
  unfolding add_later later_words
  add_later-one =
      rw (first (suc bit), empty_at cif2_fields cif0 2 cif2, empty_at cif3_fields cif0 3 cif3)
        (omega arith)

  add_later-two : add_later cif0 cif1 cif2 cif3 2 bit w ≡ w + later_words cif0 cif1 cif2 cif3 2 bit
  unfolding add_later later_words
  add_later-two = rw (first 0, second 0 (suc bit), empty_at cif3_fields cif0 3 cif3) (omega arith)

  add_later-three :
      add_later cif0 cif1 cif2 cif3 3 bit w ≡ w + later_words cif0 cif1 cif2 cif3 3 bit
  unfolding add_later later_words
  add_later-three = rw (first 0, second 0 0, third 0 0 (suc bit)) (omega arith)

abbrev pub total_words : ℕ → ℕ → ℕ → ℕ → ℕ → ℕ → ℕ
total_words cif0 cif1 cif2 cif3 g a =
    words_from (size_cif0 g a) cif0 0 32
    + enabled_words cif0 1 cif1_fields cif1 0
    + enabled_words cif0 2 cif2_fields cif2 0
    + enabled_words cif0 3 cif3_fields cif3 0

later_words-le :
    (cif0 cif1 cif2 cif3 word bit : ℕ) → later_words cif0 cif1 cif2 cif3 word bit ≤ 1248
unfolding later_words
later_words-le cif0 cif1 cif2 cif3 word bit = omega (
  arith,
  enabled_words-le cif0 1 cif1_fields cif1 _ tables_small.1,
  enabled_words-le cif0 2 cif2_fields cif2 _ tables_small.2,
  enabled_words-le cif0 3 cif3_fields cif3 _ tables_small.3,
)

module _ (host : Endian) (buffer : List ℕ) (cif0 base size g a : ℕ)
    (fields : VariableFields host buffer cif0 base size g a) (given : size ≤ length buffer)
    (bytes : IsBytes buffer) (base_small : base ≤ 2 ^ 32) (cif1 cif2 cif3 : ℕ) where
  finish : (w : ℕ) → w < 2 ^ 34 → u64 (base + u64 (w * 4)) ≡ base + 4 * w
  finish w h = omega arith

  all_cif0 : words_from (size_cif0 g a) cif0 0 32 < 2 ^ 33
  all_cif0 =
      size_cif0-small host buffer cif0 base size g a fields given bytes base_small 0 (omega arith)

  -- With the later CIF words already summed.
  in_later :
      (word bit : ℕ)
      → (word == 0) ≡ false
      → add_later cif0 cif1 cif2 cif3 word bit (words_from (size_cif0 g a) cif0 0 32)
        ≡ words_from (size_cif0 g a) cif0 0 32 + later_words cif0 cif1 cif2 cif3 word bit
      → calculate_field_offset_runtime host buffer cif0 cif1 cif2 cif3 word bit base size
        ≡ done (
            base
            + 4 * (words_from (size_cif0 g a) cif0 0 32 + later_words cif0 cif1 cif2 cif3 word bit))
  unfolding calculate_field_offset_runtime offset_runtime
  in_later word bit other sum = rw (
    other,
    add_cif0-words_from host buffer cif0 base size g a fields given bytes base_small 0
        (omega arith),
    other,
    sum,
    finish (words_from (size_cif0 g a) cif0 0 32 + later_words cif0 cif1 cif2 cif3 word bit)
        (omega (arith, all_cif0, later_words-le cif0 cif1 cif2 cif3 word bit)),
  )

  in_cif0 :
      (bit : ℕ)
      → bit < 32
      → calculate_field_offset_runtime host buffer cif0 cif1 cif2 cif3 0 bit base size
        ≡ done (base + 4 * words_from (size_cif0 g a) cif0 (suc bit) 32)
  unfolding calculate_field_offset_runtime offset_runtime
  in_cif0 bit inside = rw (
    add_cif0-words_from host buffer cif0 base size g a fields given bytes base_small (suc bit)
        (omega arith),
    finish (words_from (size_cif0 g a) cif0 (suc bit) 32) (
        omega (
          arith,
          size_cif0-small host buffer cif0 base size g a fields given bytes base_small (suc bit)
              (omega arith),
        )),
  )

  none_after :
      (bit : ℕ)
      → words_before cif0 cif1 cif2 cif3 g a 0 bit ≡ words_from (size_cif0 g a) cif0 (suc bit) 32
  none_after bit =
      rw
        (
          empty_at cif1_fields cif0 1 cif1,
          empty_at cif2_fields cif0 2 cif2,
          empty_at cif3_fields cif0 3 cif3,
        )
        (omega arith)

  -- Where the variable fields that are present start within the buffer, the offset of a field is the
  -- base plus the words of the fields before it, whatever CIF word the field is in.
  pub calculate_field_offset_runtime-words_before :
      (word bit : ℕ)
      → word ≤ 3
      → bit < 32
      → calculate_field_offset_runtime host buffer cif0 cif1 cif2 cif3 word bit base size
        ≡ done (base + 4 * words_before cif0 cif1 cif2 cif3 g a word bit)
  unfolding later_words
  calculate_field_offset_runtime-words_before zero bit known inside =
      rw (none_after bit) (in_cif0 bit inside)
  calculate_field_offset_runtime-words_before (suc zero) bit known inside =
      in_later 1 bit refl (add_later-one cif0 cif1 cif2 cif3 bit _ all_cif0)
      ∙ ap (λ (w : ℕ). done (base + 4 * w)) (omega arith)
  calculate_field_offset_runtime-words_before (suc (suc zero)) bit known inside =
      in_later 2 bit refl (add_later-two cif0 cif1 cif2 cif3 bit _ all_cif0)
      ∙ ap (λ (w : ℕ). done (base + 4 * w)) (omega arith)
  calculate_field_offset_runtime-words_before (suc (suc (suc zero))) bit known inside =
      in_later 3 bit refl (add_later-three cif0 cif1 cif2 cif3 bit _ all_cif0)
      ∙ ap (λ (w : ℕ). done (base + 4 * w)) (omega arith)
  calculate_field_offset_runtime-words_before (suc (suc (suc (suc word)))) bit known inside =
      absurd (omega arith)
