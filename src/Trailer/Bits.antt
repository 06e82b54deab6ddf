-- ===== src/Trailer/Bits.antt =====
-- What the helpers of trailer.hpp do to each bit of the word.
use vrtio.Common.{
  ℕ, suc, ◌+◌, ◌-◌, ◌*◌, ◌/◌, ◌%◌, ◌^◌, ◌≤◌, ◌<◌, ◌≡◌, ap, ◌∙◌, sym, bit_and, Bool, true, false,
  to_bool, bit_of, ◌==◌, if◌then◌else◌, arith,
}
use vrtio.Common.Bits.{bit_and_mask, digit, digit-shift, digit-bit_and, digit-bit_or}
use vrtio.Common.Fields.{digit-place, digit-complement_place, digit-lt, digit-zero, write_field}
use vrtio.Trailer.{
  extract_bit, set_bit, clear_bit, extract_field, set_field, context_packet_count_mask,
  context_packet_count_shift,
}

pub extract_bit-digit : (k w : ℕ) → extract_bit k w ≡ to_bool (digit k w)
unfolding extract_bit
extract_bit-digit k w = rw (bit_and_mask 1 (w / 2 ^ k), digit-shift k w)

one_place : (b : ℕ) → 1 * 2 ^ b ≡ 2 ^ b
one_place b = omega arith

pub digit-clear_bit :
    (b k w : ℕ) → b < 32 → k < 32 → digit k (clear_bit b w) ≡ (if b == k then 0 else digit k w)
unfolding clear_bit
digit-clear_bit b k w hb hk =
    rw (one_place b, digit-bit_and k w (2 ^ 32 - 1 - 2 ^ b), digit-complement_place b k hb hk)
      (ground (arith, digit-lt k w))

digit-chosen :
    (b k : ℕ) (x : Bool)
    → b < 32
    → k < 32
    → digit k (if x then 1 * 2 ^ b else 0) ≡ (if b == k then bit_of x else 0)
digit-chosen b k true hb hk = rw one_place (digit-place b k hb hk)
digit-chosen b k false hb hk = digit-zero k ∙ ground arith

pub digit-set_bit :
    (b k w : ℕ) (x : Bool)
    → b < 32
    → k < 32
    → digit k (set_bit b w x) ≡ (if b == k then bit_of x else digit k w)
unfolding set_bit
digit-set_bit b k w x hb hk =
    rw
      (
        digit-bit_or k (bit_and w (2 ^ 32 - 1 - 1 * 2 ^ b)) (if x then 1 * 2 ^ b else 0),
        digit-chosen b k x hb hk,
        one_place b,
        digit-bit_and k w (2 ^ 32 - 1 - 2 ^ b),
        digit-complement_place b k hb hk,
      )
      (ground (arith, digit-lt k w))

-- Of the 32 bits of a word, one that was set or cleared reads as such, and every other one as
-- before.
pub extract_bit-set_bit :
    (b k w : ℕ) (x : Bool)
    → b < 32
    → k < 32
    → (extract_bit k (set_bit b w x) ≡ (if b == k then x else extract_bit k w))
      × (extract_bit k (clear_bit b w) ≡ (if b == k then false else extract_bit k w))
extract_bit-set_bit b k w x hb hk = (
  ground (
    arith,
    extract_bit-digit k (set_bit b w x),
    extract_bit-digit k w,
    digit-set_bit b k w x hb hk,
  ),
  ground (
    arith,
    extract_bit-digit k (clear_bit b w),
    extract_bit-digit k w,
    digit-clear_bit b k w hb hk,
  ),
)

-- The context packet count stands in the seven lowest bits.
abbrev pub count_field : ℕ → ℕ
count_field w = extract_field context_packet_count_shift context_packet_count_mask w

pub count_field-low : (w : ℕ) → count_field w ≡ w % 128
unfolding extract_field
count_field-low w = omega (arith, bit_and_mask 7 (w / 2 ^ 0))

abbrev pub set_count_field : ℕ → ℕ → ℕ
set_count_field w n = set_field context_packet_count_shift context_packet_count_mask w n

pub set_count_field-sum : (w n : ℕ) → w < 2 ^ 32 → set_count_field w n ≡ w / 128 * 128 + n % 128
unfolding set_field
set_count_field-sum w n h = rw (bit_and_mask 7 n) (write_field 25 7 0 w n ∙ omega arith)

-- Numbers that agree but for the seven lowest digits.
digit_above : (k v w : ℕ) → v / 128 ≡ w / 128 → 7 ≤ k → digit k v ≡ digit k w
digit_above k v w e h =
    ap (λ (j : ℕ). digit j v) at
    ∙ ap (digit (k - 7)) (same v)
    ∙ ap (digit (k - 7)) e
    ∙ sym (ap (digit (k - 7)) (same w))
    ∙ sym (ap (λ (j : ℕ). digit j w) at)
  where
    at : k ≡ suc (suc (suc (suc (suc (suc (suc (k - 7)))))))
    at = omega arith

    same : (x : ℕ) → x / 2 / 2 / 2 / 2 / 2 / 2 / 2 ≡ x / 128
    same x = omega arith

pub extract_bit-set_count_field :
    (k w n : ℕ) → w < 2 ^ 32 → 7 ≤ k → extract_bit k (set_count_field w n) ≡ extract_bit k w
extract_bit-set_count_field k w n h above =
    extract_bit-digit k (set_count_field w n)
    ∙ ap (λ (d : ℕ). to_bool d)
        (digit_above k (set_count_field w n) w (omega (arith, set_count_field-sum w n h)) above)
    ∙ sym (extract_bit-digit k w)
