-- ===== src/Cif/Masks.antt =====
-- detail/cif.hpp: the masks of supported fields.
use vrtio.Common.{
  ℕ, suc, ◌*◌, ◌^◌, ◌<◌, ◌≡◌, ◌↔◌, refl, ap, ◌∙◌, bit_and, bit_or, ◌<<<◌, u32, complement32, List,
  [], ◌∷◌, Bool, true, false, ◌&&◌, not, ◌==◌, to_bool, if◌then◌else◌, Bool-cases, inl, inr, ◌≤◌,
  arith,
}
use vrtio.Common.Bits.{digit, digit-bit_and, digit_ext, bit_and-lt, digit-shift}
use vrtio.Common.Fields.{and_high, digit-lt, digit-zero, all_below, all_below-holds}
use native.Mathlib.Nat.{one-le-pow}
use vrtio.Cif.{FieldInfo, field_at, has_bit, cif0_fields, cif1_fields, cif2_fields, cif3_fields}

-- `(1U << a) | (1U << b) | ...`.
abbrev bits_or : List ℕ → ℕ
bits_or [] = 0
bits_or (bit ∷ bits) = bit_or (1 <<< bit) (bits_or bits)

abbrev pub cif0_supported_mask : ℕ
cif0_supported_mask = bits_or (
    1 ∷ 2 ∷ 3 ∷ 9 ∷ 10 ∷ 11 ∷ 12 ∷ 13 ∷ 14 ∷ 15 ∷ 16 ∷ 17 ∷ 18 ∷ 19 ∷ 20 ∷ 21 ∷ 22 ∷ 23 ∷ 24 ∷ 25
    ∷ 26 ∷ 27 ∷ 28 ∷ 29 ∷ 30 ∷ 31 ∷ [])

abbrev pub cif1_supported_mask : ℕ
cif1_supported_mask = bits_or (
    1 ∷ 2 ∷ 3 ∷ 4 ∷ 5 ∷ 6 ∷ 10 ∷ 13 ∷ 14 ∷ 15 ∷ 16 ∷ 17 ∷ 18 ∷ 19 ∷ 20 ∷ 24 ∷ 25 ∷ 26 ∷ 27 ∷ 29 ∷ 30
    ∷ 31 ∷ [])

abbrev pub cif2_supported_mask : ℕ
cif2_supported_mask = bits_or (
    3 ∷ 4 ∷ 5 ∷ 6 ∷ 7 ∷ 8 ∷ 9 ∷ 10 ∷ 11 ∷ 12 ∷ 13 ∷ 14 ∷ 15 ∷ 16 ∷ 17 ∷ 18 ∷ 19 ∷ 20 ∷ 21 ∷ 22 ∷ 23
    ∷ 24 ∷ 25 ∷ 26 ∷ 27 ∷ 28 ∷ 29 ∷ 30 ∷ 31 ∷ [])

abbrev pub cif3_supported_mask : ℕ
cif3_supported_mask =
    bits_or (1 ∷ 2 ∷ 3 ∷ 4 ∷ 5 ∷ 6 ∷ 7 ∷ 20 ∷ 21 ∷ 22 ∷ 23 ∷ 24 ∷ 25 ∷ 26 ∷ 27 ∷ 30 ∷ 31 ∷ [])

abbrev pub cif0_variable_mask : ℕ
cif0_variable_mask = bits_or (10 ∷ 9 ∷ [])

abbrev pub cif0_compiletime_supported_mask : ℕ
cif0_compiletime_supported_mask = bit_and cif0_supported_mask (complement32 cif0_variable_mask)

-- `for (i = 0; i < N; ++i)` over the table, from entry `i` on.
mask_from : ℕ → ℕ → List FieldInfo → ℕ
mask_from i mask [] = mask
mask_from i mask (info ∷ table) =
    mask_from (suc i) (if info.is_supported then bit_or mask (u32 (1 <<< i)) else mask) table

unfoldable pub build_supported_mask : List FieldInfo → ℕ
unfolding mask_from
build_supported_mask table = mask_from 0 0 table

-- The static assertions on the masks.
pub masks_match :
    (build_supported_mask cif0_fields ≡ cif0_supported_mask)
    × (build_supported_mask cif1_fields ≡ cif1_supported_mask)
    × (build_supported_mask cif2_fields ≡ cif2_supported_mask)
    × (build_supported_mask cif3_fields ≡ cif3_supported_mask)
unfolding build_supported_mask mask_from
masks_match = (refl, refl, refl, refl)

-- `structure_.cif0 & ~CIF0_SUPPORTED_MASK` as a condition.
unfoldable pub has_unsupported : ℕ → ℕ → Bool
has_unsupported mask cif = to_bool (bit_and cif (complement32 mask))

-- Every bit of the word that is set names a field that the table supports.
abbrev pub IsSupported : List FieldInfo → ℕ → Type 0
IsSupported table cif =
    (bit : ℕ) → bit < 32 → has_bit cif bit ≡ true → (field_at table bit).is_supported ≡ true

pub has_bit-digit : (cif bit : ℕ) → bit < 32 → has_bit cif bit ≡ (digit bit cif == 1)
unfolding has_bit
has_bit-digit cif bit h = elim (Bool-cases (digit bit cif == 1)) [
  | inl e ↦
      let one : digit bit cif ≡ 1 = ground arith in
      let some : bit_and cif (1 * 2 ^ bit) ≡ 2 ^ bit = masked ∙ rw one (omega arith) in
      let big : 1 ≤ 2 ^ bit = one-le-pow bit 2 (omega arith) in rw (e, some) (ground (arith, big))
  | inr e ↦
      let none : digit bit cif ≡ 0 = ground (arith, digit-lt bit cif) in
      let zero : bit_and cif (1 * 2 ^ bit) ≡ 0 = masked ∙ rw none (omega arith) in rw (e, zero)
]
  where
    masked : bit_and cif (1 * 2 ^ bit) ≡ digit bit cif * 2 ^ bit
    masked = and_high 1 bit cif ∙ ap (λ (d : ℕ). d * 2 ^ bit) (digit-shift bit cif)

pub has_bit-zero : (bit : ℕ) → bit < 32 → has_bit 0 bit ≡ false
has_bit-zero bit inside = rw (has_bit-digit 0 bit inside, digit-zero bit)

complement_digit : List FieldInfo → ℕ → ℕ → Bool
complement_digit table mask bit =
    digit bit (complement32 mask) == (if (field_at table bit).is_supported then 0 else 1)

module _ (table : List FieldInfo) (mask : ℕ)
    (match : (bit : ℕ) → bit < 32 → complement_digit table mask bit ≡ true) where
  unsupported_digit :
      (cif bit : ℕ)
      → bit < 32
      → digit bit (bit_and cif (complement32 mask))
        ≡ (if has_bit cif bit && not (field_at table bit).is_supported then 1 else 0)
  unfolding complement_digit
  unsupported_digit cif bit h = ground (
    arith,
    digit-bit_and bit cif (complement32 mask),
    match bit h,
    has_bit-digit cif bit h,
    digit-lt bit cif,
  )

  allowed : (cif : ℕ) → cif < 2 ^ 32 → (has_unsupported mask cif ≡ false) ↔ IsSupported table cif
  unfolding has_unsupported
  allowed cif small = (there, back)
    where
      there : has_unsupported mask cif ≡ false → IsSupported table cif
      there clear bit h set =
          let zero : bit_and cif (complement32 mask) ≡ 0 = ground (arith, clear) in
          ground (arith, unsupported_digit cif bit h, ap (digit bit) zero, digit-zero bit)

      back : IsSupported table cif → has_unsupported mask cif ≡ false
      back all =
          let zero : bit_and cif (complement32 mask) ≡ 0 =
            digit_ext 32 _ 0 (bit_and-lt 32 cif (complement32 mask) small) (omega arith)
              (λ k h. ground (arith, unsupported_digit cif k h, all k h, digit-zero k)) in
          rw zero

matches : List FieldInfo → ℕ → Bool
unfolding complement_digit
matches table mask = all_below 32 (complement_digit table mask)

allowed_by :
    (table : List FieldInfo) (mask : ℕ)
    → matches table mask ≡ true
    → (cif : ℕ) → cif < 2 ^ 32
    → (has_unsupported mask cif ≡ false) ↔ IsSupported table cif
unfolding matches
allowed_by table mask all cif small =
    allowed table mask (λ bit h. all_below-holds 32 (complement_digit table mask) bit all h) cif
      small

-- The test of a CIF word of 32 bits by its mask passes if and only if every bit that is set names a
-- field that the table of that word supports, for each of the four words.
pub has_unsupported-IsSupported :
    (cif : ℕ)
    → cif < 2 ^ 32
    → ((has_unsupported cif0_supported_mask cif ≡ false) ↔ IsSupported cif0_fields cif)
      × ((has_unsupported cif1_supported_mask cif ≡ false) ↔ IsSupported cif1_fields cif)
      × ((has_unsupported cif2_supported_mask cif ≡ false) ↔ IsSupported cif2_fields cif)
      × ((has_unsupported cif3_supported_mask cif ≡ false) ↔ IsSupported cif3_fields cif)
unfolding matches all_below field_at complement_digit
has_unsupported-IsSupported cif small = (
  allowed_by cif0_fields cif0_supported_mask refl cif small,
  allowed_by cif1_fields cif1_supported_mask refl cif small,
  allowed_by cif2_fields cif2_supported_mask refl cif small,
  allowed_by cif3_fields cif3_supported_mask refl cif small,
)
