-- ===== src/Trailer/Refines.antt =====
-- Each operation on the trailer word does on the word what it says of the state.
use vrtio.Common.{
  ℕ, ◌+◌, ◌%◌, ◌^◌, ◌≤◌, ◌<◌, ◌≡◌, ◌∙◌, Bool, true, false, ◌==◌, if◌then◌else◌, arith,
}
use mathlib.Core.Option.{none, some}
use vrtio.Trailer.{
  Indicator, Flag, enable_bit, indicator_bit, flag_bit, e_bit, extract_bit, set_bit, clear_bit,
}
use vrtio.Trailer.Bits.{
  extract_bit-set_bit, extract_bit-set_count_field, set_count_field-sum, count_field-low,
}
use vrtio.Trailer.View.{count_of, with_count, with_indicator}
use vrtio.Trailer.State.{
  state_of, state_ext, put_indicator, put_flag, put_count, indicator_places, flag_places,
  count_of-set_bit, count_of-clear_bit, set_bit-lt,
}

-- Setting or clearing a flag changes that flag alone.
pub state_of-set_flag :
    (f : Flag) (x : Bool) (w : ℕ)
    → (state_of (set_bit (flag_bit f) w x) ≡ put_flag f x (state_of w))
      × (state_of (clear_bit (flag_bit f) w) ≡ put_flag f false (state_of w))
state_of-set_flag f x w = (
  state_ext (state_of (set_bit (flag_bit f) w x)) (put_flag f x (state_of w))
      (count_of-set_bit (flag_bit f) w x (omega (arith, p)) (omega (arith, p)))
      (λ j. ground (arith, p, indicator_places j, at (enable_bit j), at (indicator_bit j)))
      (λ g. ground (arith, p, flag_places g, at (flag_bit g))),
  state_ext (state_of (clear_bit (flag_bit f) w)) (put_flag f false (state_of w))
      (count_of-clear_bit (flag_bit f) w (omega (arith, p)) (omega (arith, p)))
      (λ j. ground (arith, p, indicator_places j, at (enable_bit j), at (indicator_bit j)))
      (λ g. ground (arith, p, flag_places g, at (flag_bit g))),
)
  where
    p : (8 ≤ flag_bit f) × (flag_bit f < 12)
    p = flag_places f

    at :
        (k : ℕ)
        → k < 32
        → (extract_bit k (set_bit (flag_bit f) w x)
            ≡ (if flag_bit f == k then x else extract_bit k w))
          × (extract_bit k (clear_bit (flag_bit f) w)
              ≡ (if flag_bit f == k then false else extract_bit k w))
    at k hk = extract_bit-set_bit (flag_bit f) k w x (omega (arith, p)) hk

module _ (i : Indicator) (x : Bool) (w : ℕ) where
  set_word : ℕ
  set_word = with_indicator (enable_bit i) (indicator_bit i) x w

  set_word_bits :
      (k : ℕ)
      → k < 32
      → extract_bit k set_word
        ≡ (if indicator_bit i == k then x else if enable_bit i == k then true else extract_bit k w)
  unfolding set_word
  set_word_bits k hk = ground (
    arith,
    indicator_places i,
    extract_bit-set_bit (indicator_bit i) k (set_bit (enable_bit i) w true) x,
    extract_bit-set_bit (enable_bit i) k w true,
  )

  set_word_count : count_of set_word ≡ count_of w
  unfolding set_word
  set_word_count =
      let p = indicator_places i in
      count_of-set_bit (indicator_bit i) (set_bit (enable_bit i) w true) x (omega (arith, p))
        (omega (arith, p))
      ∙ count_of-set_bit (enable_bit i) w true (omega (arith, p)) (omega (arith, p))

  -- Setting a named indicator makes it valid with that value; clearing it makes it invalid. No other
  -- indicator, flag or count changes.
  pub state_of-set_named :
      (state_of (with_indicator (enable_bit i) (indicator_bit i) x w)
        ≡ put_indicator i (some x) (state_of w))
      × (state_of (clear_bit (enable_bit i) w) ≡ put_indicator i none (state_of w))
  unfolding set_word
  state_of-set_named = (
    state_ext (state_of set_word) (put_indicator i (some x) (state_of w)) set_word_count
        (λ j. ground (
          arith,
          p,
          indicator_places j,
          set_word_bits (enable_bit j),
          set_word_bits (indicator_bit j),
        ))
        (λ f. ground (arith, p, flag_places f, set_word_bits (flag_bit f))),
    state_ext (state_of (clear_bit (enable_bit i) w)) (put_indicator i none (state_of w))
        (count_of-clear_bit (enable_bit i) w (omega (arith, p)) (omega (arith, p)))
        (λ j.
          ground (arith, p, indicator_places j, cleared (enable_bit j), cleared (indicator_bit j)))
        (λ f. ground (arith, p, flag_places f, cleared (flag_bit f))),
  )
    where
      p : (enable_bit i ≡ indicator_bit i + 12) × (12 ≤ indicator_bit i) × (indicator_bit i < 20)
      p = indicator_places i

      cleared :
          (k : ℕ)
          → k < 32
          → extract_bit k (clear_bit (enable_bit i) w)
            ≡ (if enable_bit i == k then false else extract_bit k w)
      cleared k hk = (extract_bit-set_bit (enable_bit i) k w true (omega (arith, p)) hk).1

module _ (n w : ℕ) (fits : w < 2 ^ 32) where
  counted : ℕ
  counted = with_count n w

  counted_bits :
      (k : ℕ)
      → 7 ≤ k
      → k < 32
      → extract_bit k counted ≡ (if e_bit == k then true else extract_bit k w)
  unfolding counted
  counted_bits k above hk = ground (
    arith,
    extract_bit-set_count_field k (set_bit e_bit w true) n
        (set_bit-lt e_bit w true (omega arith) fits),
    extract_bit-set_bit e_bit k w true,
  )

  -- Setting the context packet count makes it valid with the seven low bits of the argument; clearing
  -- it makes it invalid. No indicator or flag changes.
  pub state_of-with_count :
      (state_of (with_count n w) ≡ put_count (some (n % 128)) (state_of w))
      × (state_of (clear_bit e_bit w) ≡ put_count none (state_of w))
  unfolding counted
  state_of-with_count = (
    state_ext (state_of counted) (put_count (some (n % 128)) (state_of w))
        (ground (
          arith,
          counted_bits 7,
          count_field-low counted,
          set_count_field-sum (set_bit e_bit w true) n (set_bit-lt e_bit w true (omega arith) fits),
        ))
        (λ j.
          ground (
            arith,
            indicator_places j,
            counted_bits (enable_bit j),
            counted_bits (indicator_bit j),
          ))
        (λ f. ground (arith, flag_places f, counted_bits (flag_bit f))),
    state_ext (state_of (clear_bit e_bit w)) (put_count none (state_of w))
        (ground (arith, cleared 7))
        (λ j. ground (arith, indicator_places j, cleared (enable_bit j), cleared (indicator_bit j)))
        (λ f. ground (arith, flag_places f, cleared (flag_bit f))),
  )
    where
      cleared :
          (k : ℕ)
          → k < 32
          → extract_bit k (clear_bit e_bit w) ≡ (if e_bit == k then false else extract_bit k w)
      cleared k hk = (extract_bit-set_bit e_bit k w true (omega arith) hk).1
