-- ===== src/Trailer/State.antt =====
-- What a trailer says, without its bits: a count, eight indicators and four flags; and that the word
-- operations of trailer_view.hpp do on the word what these say of the state.
use vrtio.Common.{ℕ, ◌+◌, ◌%◌, ◌^◌, ◌≤◌, ◌<◌, ◌≡◌, Bool, true, false, ◌==◌, if◌then◌else◌, arith}
use mathlib.Core.Path.{fun_ext}
use mathlib.Core.Option.{Option}
use vrtio.Common.Bits.{bit_or-lt, bit_and-lt, digit_ext_mod}
use native.Mathlib.Nat.{pow-le-pow_right}
use vrtio.Trailer.{
  Indicator, Flag, enable_bit, indicator_bit, flag_bit, extract_bit, set_bit, clear_bit,
}
use vrtio.Trailer.Bits.{extract_bit-set_bit, count_field-low, digit-set_bit, digit-clear_bit}
use vrtio.Trailer.View.{count_of, indicator_of}

pub record TrailerState : Type 0 where
  pub count : Option ℕ
  pub indicators : Indicator → Option Bool
  pub flags : Flag → Bool

abbrev pub state_of : ℕ → TrailerState
state_of word = record {
  count = count_of word;
  indicators = λ i. indicator_of (enable_bit i) (indicator_bit i) word;
  flags = λ f. extract_bit (flag_bit f) word;
}

abbrev pub same_indicator : Indicator → Indicator → Bool
same_indicator i j = indicator_bit i == indicator_bit j

abbrev pub same_flag : Flag → Flag → Bool
same_flag f g = flag_bit f == flag_bit g

-- The operations on the state: one entry changes, the others stay.
abbrev pub put_indicator : Indicator → Option Bool → TrailerState → TrailerState
put_indicator i x s = record s {
  indicators = λ j. if same_indicator i j then x else s.indicators j;
}

abbrev pub put_flag : Flag → Bool → TrailerState → TrailerState
put_flag f x s = record s { flags = λ g. if same_flag f g then x else s.flags g }

abbrev pub put_count : Option ℕ → TrailerState → TrailerState
put_count x s = record s { count = x }

pub state_ext :
    (s t : TrailerState)
    → s.count ≡ t.count
    → ((i : Indicator) → s.indicators i ≡ t.indicators i)
    → ((f : Flag) → s.flags f ≡ t.flags f)
    → s ≡ t
state_ext s t c h g = λ i. record { count = c i; indicators = fun_ext h i; flags = fun_ext g i }

pub indicator_places :
    (i : Indicator)
    → (enable_bit i ≡ indicator_bit i + 12) × (12 ≤ indicator_bit i) × (indicator_bit i < 20)
indicator_places i = ground arith

pub flag_places : (f : Flag) → (8 ≤ flag_bit f) × (flag_bit f < 12)
flag_places f = ground arith

pub set_bit-lt : (b w : ℕ) (x : Bool) → b < 32 → w < 2 ^ 32 → set_bit b w x < 2 ^ 32
unfolding set_bit
set_bit-lt b w true hb hw =
    bit_or-lt 32 _ _ (bit_and-lt 32 w _ hw)
      (omega (arith, pow-le-pow_right {n = 2} (omega arith) {i = b} {j = 31} (omega arith)))
set_bit-lt b w false hb hw = bit_or-lt 32 _ _ (bit_and-lt 32 w _ hw) (omega arith)

pub clear_bit-lt : (b w : ℕ) → w < 2 ^ 32 → clear_bit b w < 2 ^ 32
unfolding clear_bit
clear_bit-lt b w hw = bit_and-lt 32 w _ hw

-- The count's digits lie below every bit that the flags and indicators have.
low_set_bit : (b w : ℕ) (x : Bool) → 7 ≤ b → b < 32 → set_bit b w x % 128 ≡ w % 128
low_set_bit b w x above hb =
    digit_ext_mod 7 (set_bit b w x) w
      (λ k below. ground (arith, digit-set_bit b k w x hb (omega arith)))

low_clear_bit : (b w : ℕ) → 7 ≤ b → b < 32 → clear_bit b w % 128 ≡ w % 128
low_clear_bit b w above hb =
    digit_ext_mod 7 (clear_bit b w) w
      (λ k below. ground (arith, digit-clear_bit b k w hb (omega arith)))

count_of-low :
    (v w : ℕ) → extract_bit 7 v ≡ extract_bit 7 w → v % 128 ≡ w % 128 → count_of v ≡ count_of w
count_of-low v w e l = ground (arith, count_field-low v, count_field-low w)

pub count_of-set_bit : (b w : ℕ) (x : Bool) → 8 ≤ b → b < 32 → count_of (set_bit b w x) ≡ count_of w
count_of-set_bit b w x above hb =
    count_of-low (set_bit b w x) w (ground (arith, extract_bit-set_bit b 7 w x hb (omega arith)))
      (low_set_bit b w x (omega arith) hb)

pub count_of-clear_bit : (b w : ℕ) → 8 ≤ b → b < 32 → count_of (clear_bit b w) ≡ count_of w
count_of-clear_bit b w above hb =
    count_of-low (clear_bit b w) w (ground (arith, extract_bit-set_bit b 7 w true hb (omega arith)))
      (low_clear_bit b w (omega arith) hb)
