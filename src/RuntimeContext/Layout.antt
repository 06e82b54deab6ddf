-- ===== src/RuntimeContext/Layout.antt =====
-- What the parser of context packets counts, and what an accepted packet is known for.
use vrtio.Common.{
  ℕ, zero, suc, ◌+◌, ◌*◌, ◌^◌, ◌≤◌, ◌<◌, ◌≡◌, refl, u64, List, true, false, not, ◌&&◌, ◌||◌, ◌==◌,
  bit_of, if◌then◌else◌, arith,
}
use vrtio.Common.Fields.{all_below, all_below-holds}
use vrtio.Buffer.{Endian}
use vrtio.Buffer.Access.{word_at}
use vrtio.Types.{has_tsi, has_tsf}
use vrtio.Header.{DecodedHeader}
use vrtio.Cif.{field_at, has_bit, cif0_fields, cif1_fields, cif2_fields, cif3_fields}
use vrtio.Cif.Offset.{gps_words, assoc_words}
use vrtio.Cif.Sums.{words_from, words_from-le, words_from-split, size_in, size_in-le, tables_small}
use vrtio.Cif.Places.{before_gps, before_assoc}
use vrtio.Cif.Fields.{total_words, enabled_words, first, second, third}
use vrtio.RuntimeContext.{
  ContextStructure, absent, is_context_type, has_unsupported_bits, add_cif0_fixed, add_cif_words,
}

-- The words before CIF0: header, stream id, class id, integer and fractional timestamp.
abbrev pub context_prologue : DecodedHeader → ℕ
context_prologue h =
    2 + 2 * bit_of h.has_class_id + bit_of (has_tsi h.tsi) + 2 * bit_of (has_tsf h.tsf)

-- The header of an accepted packet.
pub record IsContextHeader (size : ℕ) (h : DecodedHeader) : Type 0 where
  pub context_type : is_context_type h.type ≡ true
  pub reserved_clear : h.bit_26 ≡ false
  pub in_buffer : 4 * h.size_words ≤ size

-- The CIF words are those that follow the prologue; one that is not enabled is 0.
pub record HasCifs (host : Endian) (buffer : List ℕ) (prologue cif0 cif1 cif2 cif3 : ℕ)
    : Type 0 where
  pub cif0_is : cif0 ≡ word_at host 4 buffer (4 * prologue)
  pub cif1_is : cif1 ≡ (if has_bit cif0 1 then word_at host 4 buffer (4 * (prologue + 1)) else 0)
  pub cif2_is : cif2 ≡ (
      if has_bit cif0 2
      then word_at host 4 buffer (4 * (prologue + 1 + bit_of (has_bit cif0 1)))
      else 0)
  pub cif3_is : cif3 ≡ (
      if has_bit cif0 3
      then word_at host 4 buffer
          (4 * (prologue + 1 + bit_of (has_bit cif0 1) + bit_of (has_bit cif0 2)))
      else 0)

-- The words before the first field.
abbrev pub base_words : ℕ → ℕ → ℕ
base_words prologue cif0 =
    prologue + 1 + bit_of (has_bit cif0 1) + bit_of (has_bit cif0 2) + bit_of (has_bit cif0 3)

-- An accepted context packet.
pub record AcceptsContext (host : Endian) (buffer : List ℕ) (size : ℕ) (h : DecodedHeader)
    (s : ContextStructure) : Type 0 where
  pub header_kept : s.header ≡ h
  pub header_good : IsContextHeader size h
  pub stream_kept : s.has_stream_id ≡ true
  pub cifs : HasCifs host buffer (context_prologue h) s.cif0 s.cif1 s.cif2 s.cif3
  pub supported : has_unsupported_bits s ≡ false
  pub base_at : s.context_base_bytes ≡ 4 * base_words (context_prologue h) s.cif0
  pub gps_is : s.gps_ascii ≡ (
      if has_bit s.cif0 10
      then record {
        present = true;
        offset_bytes = s.context_base_bytes + 4 * before_gps s.cif0;
        size_words =
            gps_words (word_at host 4 buffer (s.context_base_bytes + 4 * before_gps s.cif0));
      }
      else absent)
  pub assoc_is : s.context_assoc ≡ (
      if has_bit s.cif0 9
      then record {
        present = true;
        offset_bytes = s.context_base_bytes + 4 * before_assoc s.cif0 s.gps_ascii.size_words;
        size_words = assoc_words (
            word_at host 4 buffer
              (s.context_base_bytes + 4 * before_assoc s.cif0 s.gps_ascii.size_words));
      }
      else absent)
  pub ends :
      s.context_base_bytes
        + 4
          * total_words s.cif0 s.cif1 s.cif2 s.cif3 s.gps_ascii.size_words
              s.context_assoc.size_words
      ≡ 4 * s.header.size_words

low_zero : all_below 11 (λ bit. (field_at cif0_fields bit).size_words == 0) ≡ true
unfolding all_below field_at
low_zero = refl

small_zero : (bit : ℕ) → bit < 11 → size_in cif0_fields bit ≡ 0
small_zero bit h = ground (arith, all_below-holds 11 _ bit low_zero h)

fixed_loop :
    (cif0 n acc : ℕ)
    → acc + n * 13 < 2 ^ 64
    → add_cif0_fixed cif0 n acc ≡ acc + words_from (size_in cif0_fields) cif0 0 n
unfolding add_cif0_fixed words_from
fixed_loop cif0 zero acc fits = omega arith
fixed_loop cif0 (suc bit) acc fits =
    let s = size_in-le cif0_fields bit tables_small.0 in
    let w = (if has_bit cif0 bit then size_in cif0_fields bit else 0) in
    let bound : w ≤ 13 = ground arith in
    let next : (if not (bit == 10 || bit == 9) && has_bit cif0 bit
          then u64 (acc + size_in cif0_fields bit)
          else acc)
        ≡ acc + w =
      ground (arith, small_zero bit) in
    rw next (ground (arith, fixed_loop cif0 bit (acc + w) (omega arith)))

-- The first loop of step 8 counts the words before the variable fields.
pub add_cif0_fixed-before_gps : (cif0 : ℕ) → add_cif0_fixed cif0 32 0 ≡ before_gps cif0
add_cif0_fixed-before_gps cif0 =
    let none : words_from (size_in cif0_fields) cif0 0 11 ≤ 11 * 0 =
      words_from-le (size_in cif0_fields) cif0 0 11 0 (λ bit h. omega (arith, small_zero bit h)) in
    omega (
      arith,
      fixed_loop cif0 32 0 (omega arith),
      words_from-split (size_in cif0_fields) cif0 0 11 32 (omega arith) (omega arith),
    )

-- The loops of step 8 on CIF1 to CIF3.
pub add_cif_words-sum :
    (s : ContextStructure) (w : ℕ)
    → w < 2 ^ 33
    → add_cif_words s w
      ≡ w
        + enabled_words s.cif0 1 cif1_fields s.cif1 0
        + enabled_words s.cif0 2 cif2_fields s.cif2 0
        + enabled_words s.cif0 3 cif3_fields s.cif3 0
unfolding add_cif_words
add_cif_words-sum s w fits = rw (
  first s.cif0 s.cif1 s.cif2 s.cif3 0 w fits 0,
  second s.cif0 s.cif1 s.cif2 s.cif3 0 w fits 0 0,
  third s.cif0 s.cif1 s.cif2 s.cif3 0 w fits 0 0 0,
)
