-- ===== src/Common/Fields.antt =====
-- Bit fields of a word: clearing one, writing one and single bits, as numbers.
use vrtio.Common.Bits.{
  bit_and_mask, bit_and_halves, bit_or_halves, bit_or_disjoint, half_div, half_mod, digit,
}
use Prim.Native.Nat.{ℕ, zero, suc, ◌+◌, ◌-◌, ◌*◌, ◌/◌, ◌%◌, ◌^◌, ◌<◌, bit_and, bit_or}
use mathlib.Core.Path.{◌≡◌, refl, ap, ◌∙◌}
use mathlib.Core.Bool.{Bool, true, ◌&&◌}
use vrtio.Common.Tests.{◌==◌, if◌then◌else◌}
use native.Mathlib.Nat.{pow-suc, pow-succ', one-le-pow, mod-lt, mul-mod_left}
use native.Mathlib.Omega.{arith}

and_double : (w m : ℕ) → bit_and w (2 * m) ≡ 2 * bit_and (w / 2) m
and_double w m = ground (arith, bit_and_halves w (2 * m))

and_double_one : (w m : ℕ) → bit_and w (2 * m + 1) ≡ 2 * bit_and (w / 2) m + w % 2
and_double_one w m = ground (arith, bit_and_halves w (2 * m + 1))

-- A mask of `r` digits above `n` zeros.
pub and_high : (r n w : ℕ) → bit_and w ((2 ^ r - 1) * 2 ^ n) ≡ w / 2 ^ n % 2 ^ r * 2 ^ n
and_high r zero w = ground (arith, bit_and_mask r w)
and_high r (suc n) w =
    ap (bit_and w) doubled
    ∙ and_double w ((2 ^ r - 1) * 2 ^ n)
    ∙ rw (and_high r n (w / 2), half_div n w, pow-succ' 2 n) (omega arith)
  where
    doubled : (2 ^ r - 1) * 2 ^ suc n ≡ 2 * ((2 ^ r - 1) * 2 ^ n)
    doubled = omega (arith, ap (λ (t : ℕ). (2 ^ r - 1) * t) (pow-suc 2 n))

-- `&` with all ones but a field of `n` digits above `s` others, in a word of `s + n + r` digits.
pub and_cleared :
    (r n s w : ℕ)
    → bit_and w ((2 ^ r - 1) * 2 ^ n * 2 ^ s + (2 ^ s - 1))
      ≡ w / 2 ^ s / 2 ^ n % 2 ^ r * 2 ^ n * 2 ^ s + w % 2 ^ s
and_cleared r n zero w = ground (arith, and_high r n w)
and_cleared r n (suc s) w =
    ap (bit_and w) doubled
    ∙ and_double_one w ((2 ^ r - 1) * 2 ^ n * 2 ^ s + (2 ^ s - 1))
    ∙ rw (and_cleared r n s (w / 2), half_div s w, half_mod s w, pow-succ' 2 s) (omega arith)
  where
    doubled :
        (2 ^ r - 1) * 2 ^ n * 2 ^ suc s + (2 ^ suc s - 1)
        ≡ 2 * ((2 ^ r - 1) * 2 ^ n * 2 ^ s + (2 ^ s - 1)) + 1
    doubled =
        omega (
          arith,
          pow-suc 2 s,
          one-le-pow s 2,
          ap (λ (t : ℕ). (2 ^ r - 1) * 2 ^ n * t) (pow-suc 2 s),
        )

or_shift :
    (s a b low : ℕ) → low < 2 ^ s → bit_or (a * 2 ^ s + low) (b * 2 ^ s) ≡ bit_or a b * 2 ^ s + low
or_shift zero a b low h = ground arith
or_shift (suc s) a b low h = ground (
  arith,
  bit_or_halves (a * 2 ^ suc s + low) (b * 2 ^ suc s),
  or_shift s a b (low / 2),
  pow-suc 2 s,
  ap (λ (t : ℕ). a * t) (pow-suc 2 s),
  ap (λ (t : ℕ). b * t) (pow-suc 2 s),
  ap (λ (t : ℕ). bit_or a b * t) (pow-suc 2 s),
)

-- Writing `value` into a field of `n` digits above `s` others: the field is `value`, cut to `n` digits,
-- and every other digit of the word stays.
pub write_field :
    (r n s w value : ℕ)
    → bit_or (bit_and w ((2 ^ r - 1) * 2 ^ n * 2 ^ s + (2 ^ s - 1))) (value % 2 ^ n * 2 ^ s)
      ≡ (w / 2 ^ s / 2 ^ n % 2 ^ r * 2 ^ n + value % 2 ^ n) * 2 ^ s + w % 2 ^ s
write_field r n s w value = rw (
  and_cleared r n s w,
  or_shift s (w / 2 ^ s / 2 ^ n % 2 ^ r * 2 ^ n) (value % 2 ^ n) (w % 2 ^ s)
      (mod-lt w (one-le-pow s 2 (omega arith))),
  bit_or_disjoint n (w / 2 ^ s / 2 ^ n % 2 ^ r * 2 ^ n) (value % 2 ^ n)
      (mul-mod_left (w / 2 ^ s / 2 ^ n % 2 ^ r) (2 ^ n))
      (mod-lt value (one-le-pow n 2 (omega arith))),
)

-- A test of every number below a bound, by evaluation.
unfoldable pub all_below : ℕ → (ℕ → Bool) → Bool
all_below zero test = true
all_below (suc last) test = test last && all_below last test

pub all_below-holds :
    (bound : ℕ) (test : ℕ → Bool) (k : ℕ) → all_below bound test ≡ true → k < bound → test k ≡ true
unfolding all_below
all_below-holds (suc last) test k all below =
    let lower = all_below-holds last test k in ground (arith, lower)
all_below-holds zero test k all below = absurd (omega arith)

-- Single digits of `1 << b` and of its complement: a table over the 32 places.
abbrev digits_agree : ℕ → ℕ → Bool
digits_agree b k =
    (digit k (2 ^ b) == (if b == k then 1 else 0))
    && (digit k (2 ^ 32 - 1 - 2 ^ b) == (if b == k then 0 else 1))

place_table : all_below 32 (λ b. all_below 32 (digits_agree b)) ≡ true
unfolding all_below
place_table = refl

place_agree : (b k : ℕ) → b < 32 → k < 32 → digits_agree b k ≡ true
place_agree b k hb hk =
    all_below-holds 32 (digits_agree b) k
      (all_below-holds 32 (λ j. all_below 32 (digits_agree j)) b place_table hb) hk

pub digit-place : (b k : ℕ) → b < 32 → k < 32 → digit k (2 ^ b) ≡ (if b == k then 1 else 0)
digit-place b k hb hk = ground (arith, place_agree b k hb hk)

pub digit-complement_place :
    (b k : ℕ) → b < 32 → k < 32 → digit k (2 ^ 32 - 1 - 2 ^ b) ≡ (if b == k then 0 else 1)
digit-complement_place b k hb hk = ground (arith, place_agree b k hb hk)

pub digit-lt : (k a : ℕ) → digit k a < 2
digit-lt zero a = omega arith
digit-lt (suc k) a = digit-lt k (a / 2)

pub digit-zero : (k : ℕ) → digit k 0 ≡ 0
digit-zero zero = refl
digit-zero (suc k) = digit-zero k
