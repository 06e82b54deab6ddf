-- ===== src/Cif/Tests.antt =====
-- CIF words, their masks and the offsets of their fields at concrete values.
use vrtio.Common.{ℕ, ◌+◌, ◌≡◌, ◌↔◌, refl, List, [], ◌∷◌, true, false, done, arith}
use vrtio.Buffer.{little}
use vrtio.Cif.{field_at, has_bit, cif0_fields, cif1_fields, cif2_fields, cif3_fields}
use vrtio.Cif.Masks.{
  has_unsupported, IsSupported, has_unsupported-IsSupported, cif0_supported_mask,
  cif1_supported_mask, cif2_supported_mask, cif3_supported_mask,
}
use vrtio.Cif.Offset.{
  calculate_field_offset_runtime, calculate_field_offset_ct, calculate_context_size_ct, add_cif0_ct,
  add_fixed,
}
use vrtio.Cif.Deprecated.{deprecated_field_offset_runtime}
use vrtio.Cif.Versions.{deprecated-calculate}
use vrtio.Cif.CompileTime.{calculate_field_offset_runtime-ct}

cif_program : Unit {0}
unfolding calculate_field_offset_ct calculate_context_size_ct add_cif0_ct add_fixed field_at has_bit
    has_unsupported
cif_program = tt

-- Bandwidth and gain, with CIF1 enabled; the gain stands behind the two words of the bandwidth.
abbrev gain_word : ℕ
gain_word = 0x2080_0002

gain_offset : calculate_field_offset_ct gain_word 0x4000 0 0 0 23 ≡ 8
unfolding cif_program
gain_offset = refl

gain_size : calculate_context_size_ct gain_word 0x4000 0 0 ≡ 4
unfolding cif_program
gain_size = refl

has_unsupported-IsSupported_example :
    ((has_unsupported cif0_supported_mask gain_word ≡ false) ↔ IsSupported cif0_fields gain_word)
    × ((has_unsupported cif1_supported_mask gain_word ≡ false) ↔ IsSupported cif1_fields gain_word)
    × ((has_unsupported cif2_supported_mask gain_word ≡ false) ↔ IsSupported cif2_fields gain_word)
    × ((has_unsupported cif3_supported_mask gain_word ≡ false) ↔ IsSupported cif3_fields gain_word)
has_unsupported-IsSupported_example = has_unsupported-IsSupported gain_word (omega arith)

-- GPS text of five characters.
abbrev gps_bytes : List ℕ
gps_bytes = 0 ∷ 0 ∷ 0 ∷ 5 ∷ 0x24 ∷ 0x47 ∷ 0x50 ∷ 0x47 ∷ 0x53 ∷ 0 ∷ 0 ∷ 0 ∷ []

deprecated-calculate_example :
    deprecated_field_offset_runtime little gps_bytes 0x600 0 0 0 0 9 0 12
    ≡ calculate_field_offset_runtime little gps_bytes 0x600 0 0 0 0 9 0 12
deprecated-calculate_example =
    deprecated-calculate little gps_bytes (omega arith) 0x600 0 12 0 0 0 0 9

-- The bits of `gain_word` that the compile-time functions ask about.
gain_bits :
    (has_bit gain_word 9 ≡ false) × (has_bit gain_word 10 ≡ false) × (has_bit gain_word 1 ≡ true)
unfolding cif_program
gain_bits = (refl, refl, refl)

calculate_field_offset_runtime-ct_example :
    calculate_field_offset_runtime little gps_bytes gain_word 0x4000 0 0 1 14 0 12
    ≡ done (0 + calculate_field_offset_ct gain_word 0x4000 0 0 1 14)
calculate_field_offset_runtime-ct_example =
    calculate_field_offset_runtime-ct gain_word 0x4000 0 0 gain_bits.0 gain_bits.1
      (λ e. absurd (ground (arith, gain_bits.2))) (λ e. refl) (λ e. refl) little gps_bytes 1 14 0
      (omega arith) (omega arith) (omega arith) (omega arith)
