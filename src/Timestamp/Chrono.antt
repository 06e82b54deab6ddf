-- ===== src/Timestamp/Chrono.antt =====
-- Timestamps and the clock of the standard library.
use vrtio.Common.{
  ℕ, suc, ◌+◌, ◌-◌, ◌*◌, ◌/◌, ◌%◌, ◌^◌, ◌<◌, ◌≡◌, min, false, ◌==◌, ltb, u64, Bool-cases, inl, inr,
  arith,
}
use vrtio.Common.Int.{ℤ, pos, negsuc}
use vrtio.Types.{real_time}
use vrtio.Timestamp.{Timestamp, timestamp, from_chrono, to_chrono}
use vrtio.Timestamp.Picos.{
  picos, last_picos, IsTime, IsDuration, shifted, Says, restated, timestamp-picos,
}

timestamp-Says :
    (sec frac : ℕ)
    → sec < 2 ^ 32
    → frac < 2 ^ 64
    → Says (timestamp real_time sec frac) (min (sec * 1_000_000_000_000 + frac) last_picos)
timestamp-Says sec frac h g =
    let s = timestamp-picos sec frac h g in record { time = s.0; value = s.1 }

from_chrono-pos : (n : ℕ) → n < 2 ^ 63 → Says (from_chrono (pos n)) (min (n * 1000) last_picos)
unfolding from_chrono
from_chrono-pos n h = elim (Bool-cases (ltb (2 ^ 32 - 1) (n / 1_000_000_000))) [
  | inl e ↦ rw e (
      restated (ground arith)
        (timestamp-Says (2 ^ 32 - 1) 999_999_999_999 (omega arith) (omega arith)))
  | inr e ↦
      let cut : u64 (n % 1_000_000_000 * 1000) ≡ n % 1_000_000_000 * 1000 = omega arith in
      rw (e, cut)
        (restated (ground arith) (
          timestamp-Says (n / 1_000_000_000) (n % 1_000_000_000 * 1000) (ground arith)
            (omega arith)))
]

at_epoch : Says (timestamp real_time 0 0) 0
at_epoch = restated (omega arith) (timestamp-Says 0 0 (omega arith) (omega arith))

from_chrono-negsuc : (n : ℕ) → Says (from_chrono (negsuc n)) 0
unfolding from_chrono
from_chrono-negsuc n = elim (Bool-cases (suc n / 1_000_000_000 == 0)) [
  | inr e ↦ rw (from_chrono, e) at_epoch
  | inl e ↦
      let some : (suc n % 1_000_000_000 == 0) ≡ false = ground arith in
      rw (from_chrono, e, some) at_epoch
]

-- A time of the clock, as nanoseconds of 64 bits since the epoch, becomes the normalised timestamp of
-- that time, or the first or last one where that is out of range.
pub from_chrono-Says : (d : ℤ) → IsDuration d → Says (from_chrono d) (shifted 0 d)
from_chrono-Says (pos n) fits = restated (omega arith) (from_chrono-pos n fits)
from_chrono-Says (negsuc n) fits = restated (omega arith) (from_chrono-negsuc n)

-- A normalised timestamp that is taken to the clock and back loses what is below a nanosecond and
-- nothing else.
pub from_chrono-to_chrono :
    (t : Timestamp) → IsTime t → Says (from_chrono (to_chrono t)) (picos t / 1000 * 1000)
unfolding to_chrono
from_chrono-to_chrono t time =
    let s = time.seconds_fit in
    let f = time.fractional_fits in
    let n = t.seconds * 1_000_000_000 + t.fractional / 1000 in
    restated (omega arith) (from_chrono-pos n (omega arith))
