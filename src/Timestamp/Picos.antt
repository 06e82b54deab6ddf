-- ===== src/Timestamp/Picos.antt =====
-- A UTC timestamp as a number of picoseconds, clamped to the times that it can hold.
use vrtio.Common.{
  ℕ, zero, suc, ◌+◌, ◌-◌, ◌*◌, ◌/◌, ◌%◌, ◌^◌, ◌<◌, ◌≡◌, ap, ◌∙◌, min, false, ◌==◌, ltb, leb, u32,
  u64, Bool-cases, inl, inr, arith,
}
use vrtio.Common.Int.{ℤ, pos, negsuc, neg}
use vrtio.Types.{real_time}
use vrtio.Timestamp.{
  Timestamp, normalize, timestamp, add_picos, add_duration, sub_duration, clamped_high, clamped_low,
  negate,
}

-- The picoseconds since the epoch, and the last time.
abbrev pub picos : Timestamp → ℕ
picos t = t.seconds * 1_000_000_000_000 + t.fractional

abbrev pub last_picos : ℕ
last_picos = 4_294_967_296 * 1_000_000_000_000 - 1

-- The parts are in the ranges of a normalised time.
pub record IsTime (t : Timestamp) : Type 0 where
  pub seconds_fit : t.seconds < 2 ^ 32
  pub fractional_fits : t.fractional < 1_000_000_000_000

-- The constructor normalises seconds of 32 and a fraction of 64 bits: the time is what they add up
-- to, or the last one.
pub timestamp-picos :
    (sec frac : ℕ)
    → sec < 2 ^ 32
    → frac < 2 ^ 64
    → IsTime (timestamp real_time sec frac)
      × (picos (timestamp real_time sec frac) ≡ min (sec * 1_000_000_000_000 + frac) last_picos)
unfolding timestamp normalize
timestamp-picos sec frac h g = elim (Bool-cases (leb 1_000_000_000_000 frac)) [
  | inr e ↦ rw e (record { seconds_fit = h; fractional_fits = ground arith }, ground arith)
  | inl e ↦
      let extra : u32 (frac / 1_000_000_000_000) ≡ frac / 1_000_000_000_000 = omega arith in
      elim (Bool-cases (ltb (2 ^ 32 - 1 - sec) (frac / 1_000_000_000_000))) [
        | inl f ↦
            rw (e, extra, f)
              (record { seconds_fit = omega arith; fractional_fits = omega arith }, ground arith)
        | inr f ↦
            rw (e, extra, f)
              (record { seconds_fit = ground arith; fractional_fits = omega arith }, ground arith)
      ]
]

-- A duration of 64 bits.
abbrev pub IsDuration : ℤ → Type 0
IsDuration (pos n) = n < 2 ^ 63
IsDuration (negsuc n) = n < 2 ^ 63

-- A time in picoseconds that many nanoseconds later or earlier, within the times that can be held.
abbrev pub shifted : ℕ → ℤ → ℕ
shifted p (pos n) = min (p + n * 1000) last_picos
shifted p (negsuc n) = p - suc n * 1000

-- `t` is normalised and says `p`.
pub record Says (t : Timestamp) (p : ℕ) : Type 0 where
  pub time : IsTime t
  pub value : picos t ≡ p

pub restated : {t : Timestamp} {p q : ℕ} → p ≡ q → Says t p → Says t q
restated e s = record { time = s.time; value = s.value ∙ e }

low-Says : {p : ℕ} → p ≡ 0 → Says clamped_low p
low-Says e = record {
  time = record { seconds_fit = omega arith; fractional_fits = omega arith };
  value = omega (arith, e);
}

high-Says : {p : ℕ} → p ≡ last_picos → Says clamped_high p
high-Says e = record {
  time = record { seconds_fit = omega arith; fractional_fits = omega arith };
  value = omega (arith, e);
}

add_picos-pos :
    (t : Timestamp) (n : ℕ)
    → IsTime t
    → n < 1_000_000_000
    → Says (add_picos (pos n) t) (min (picos t + n * 1000) last_picos)
unfolding add_picos
add_picos-pos t n time small =
    let cut : u64 (t.fractional + n * 1000) ≡ t.fractional + n * 1000 =
      omega (arith, time.fractional_fits) in
    let s =
      timestamp-picos t.seconds (t.fractional + n * 1000) time.seconds_fit
        (omega (arith, time.fractional_fits)) in
    rw cut (
      unfold timestamp in
      record { time = s.0; value = s.1 ∙ ap (λ (x : ℕ). min x last_picos) (omega arith) })

add_picos-negsuc :
    (t : Timestamp) (n : ℕ)
    → IsTime t
    → suc n < 1_000_000_000
    → Says (add_picos (negsuc n) t) (picos t - suc n * 1000)
unfolding add_picos
add_picos-negsuc t n time small =
    let f = time.fractional_fits in
    let s = time.seconds_fit in
    elim (Bool-cases (leb (suc n * 1000) t.fractional)) [
      | inl e ↦ rw e (record {
        time = record { seconds_fit = s; fractional_fits = omega (arith, f) };
        value = ground arith;
      })
      | inr e ↦
          let one : u32 ((suc n * 1000 - t.fractional + 1_000_000_000_000 - 1) / 1_000_000_000_000)
              ≡ 1 =
            ground arith in
          elim (Bool-cases (ltb t.seconds 1)) [
            | inl g ↦ rw (e, one, g) (low-Says (ground arith))
            | inr g ↦
                rw (e, one, g)
                  (record {
                    time = record {
                      seconds_fit = omega (arith, s);
                      fractional_fits = ground arith;
                    };
                    value = ground arith;
                  })
          ]
    ]

add_duration-pos :
    (t : Timestamp) (n : ℕ)
    → IsTime t
    → n < 2 ^ 63
    → Says (add_duration t (pos n)) (min (picos t + n * 1000) last_picos)
unfolding add_duration
add_duration-pos t n time small =
    let f = time.fractional_fits in
    let s = time.seconds_fit in
    let cut : u64 (t.seconds + n / 1_000_000_000) ≡ t.seconds + n / 1_000_000_000 =
      omega (arith, s) in
    elim (Bool-cases (ltb (2 ^ 32 - 1) (t.seconds + n / 1_000_000_000))) [
      | inl e ↦ rw (cut, e) (high-Says (ground arith))
      | inr e ↦
          let later : IsTime (record t { seconds = t.seconds + n / 1_000_000_000 }) = record {
            seconds_fit = ground arith;
            fractional_fits = f;
          } in
          rw (cut, e)
            (restated (omega arith) (
              add_picos-pos (record t { seconds = t.seconds + n / 1_000_000_000 })
                (n % 1_000_000_000) later (omega arith)))
    ]

-- The remainder of a negative duration.
add_picos-neg :
    (t : Timestamp) (m : ℕ)
    → IsTime t
    → m < 1_000_000_000
    → Says (add_picos (neg m) t) (picos t - m * 1000)
add_picos-neg t zero time small =
    restated (omega (arith, time.fractional_fits, time.seconds_fit)) (add_picos-pos t 0 time small)
add_picos-neg t (suc m) time small =
    let some : (suc m == 0) ≡ false = ground arith in
    let turn : suc m - 1 ≡ m = omega arith in rw (some, turn) (add_picos-negsuc t m time small)

add_duration-negsuc :
    (t : Timestamp) (n : ℕ)
    → IsTime t
    → n < 2 ^ 63
    → Says (add_duration t (negsuc n)) (picos t - suc n * 1000)
unfolding add_duration
add_duration-negsuc t n time small =
    let f = time.fractional_fits in
    let s = time.seconds_fit in
    let m = suc n / 1_000_000_000 in
    let r = suc n % 1_000_000_000 in
    elim (Bool-cases (suc n / 1_000_000_000 == 0)) [
      | inl e ↦
          let same : t.seconds + 0 ≡ t.seconds = omega arith in
          let cut : u64 t.seconds ≡ t.seconds = omega (arith, s) in
          let fits : ltb (2 ^ 32 - 1) t.seconds ≡ false = ground arith in
          rw (add_duration, e, same, cut, fits)
            (restated (ground arith) (add_picos-neg t r time (omega arith)))
      | inr e ↦
          let one : suc (m - 1) ≡ m = ground arith in
          elim (Bool-cases (ltb t.seconds m)) [
            | inl g ↦ rw (add_duration, e, one, g) (low-Says (ground arith))
            | inr g ↦
                let before : IsTime (record t { seconds = t.seconds - m }) = record {
                  seconds_fit = omega (arith, s);
                  fractional_fits = f;
                } in
                rw (add_duration, e, one, g)
                  (restated (ground arith)
                    (add_picos-neg (record t { seconds = t.seconds - m }) r before (omega arith)))
          ]
    ]

-- Adding a duration of 64 bits to a normalised time gives the normalised time that many nanoseconds
-- later or earlier, to the picosecond, or the first or last time where that is out of range.
pub add_duration-Says :
    (t : Timestamp) (d : ℤ)
    → IsTime t
    → IsDuration d
    → Says (add_duration t d) (shifted (picos t) d)
add_duration-Says t (pos n) time fits = add_duration-pos t n time fits
add_duration-Says t (negsuc n) time fits = add_duration-negsuc t n time fits

-- Subtracting a duration of 64 bits, the smallest one included, gives the normalised time that many
-- nanoseconds earlier or later, within the times that can be held.
pub sub_duration-Says :
    (t : Timestamp) (d : ℤ)
    → IsTime t
    → IsDuration d
    → Says (sub_duration t d) (shifted (picos t) (negate d))
unfolding sub_duration
sub_duration-Says t (pos zero) time fits = add_duration-pos t 0 time fits
sub_duration-Says t (pos (suc n)) time fits =
    let some : (suc n == 0) ≡ false = ground arith in
    let turn : suc n - 1 ≡ n = omega arith in
    rw (some, turn) (add_duration-negsuc t n time (omega arith))
sub_duration-Says t (negsuc n) time fits = elim (Bool-cases (suc n == 2 ^ 63)) [
  | inl e ↦
      let whole : suc n ≡ 2 ^ 63 = ground arith in
      let first = add_duration-pos t (2 ^ 63 - 1) time (omega arith) in
      rw e (
        restated (omega (arith, whole, first.value))
          (add_duration-pos (add_duration t (pos (2 ^ 63 - 1))) 1 first.time (omega arith)))
  | inr e ↦ rw e (add_duration-pos t (suc n) time (ground arith))
]
