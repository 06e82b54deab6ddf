-- ===== src/Timestamp.antt =====
-- timestamp.hpp: timestamps of seconds and a fraction, and the arithmetic of UTC times in picoseconds.
-- A duration is `std::chrono::nanoseconds`, an integer of 64 bits with a sign; `duration_cast` to
-- seconds cuts toward zero.
pub mod Picos
pub mod Chrono
mod Tests
use vrtio.Common.{
  ℕ, suc, ◌+◌, ◌-◌, ◌*◌, ◌/◌, ◌%◌, ◌^◌, u32, u64, Bool, not, ◌==◌, ltb, leb, if◌then◌else◌,
}
use vrtio.Common.Int.{ℤ, pos, negsuc, neg}
use vrtio.Types.{TsfType, real_time}

abbrev pub picoseconds_per_second : ℕ
picoseconds_per_second = 1_000_000_000_000

abbrev pub nanoseconds_per_second : ℕ
nanoseconds_per_second = 1_000_000_000

abbrev pub picoseconds_per_nanosecond : ℕ
picoseconds_per_nanosecond = 1_000

abbrev pub max_fractional : ℕ
max_fractional = picoseconds_per_second - 1

-- `UINT32_MAX`.
abbrev pub uint32_max : ℕ
uint32_max = 2 ^ 32 - 1

pub record Timestamp : Type 0 where
  pub seconds : ℕ
  pub fractional : ℕ

abbrev pub clamped_high : Timestamp
clamped_high = record { seconds = uint32_max; fractional = max_fractional }

abbrev pub clamped_low : Timestamp
clamped_low = record { seconds = 0; fractional = 0 }

-- Only `TsfType::real_time` is normalised.
unfoldable pub normalize : TsfType → Timestamp → Timestamp
normalize real_time t =
    let extra_seconds = u32 (t.fractional / picoseconds_per_second) in
    if not (leb picoseconds_per_second t.fractional)
    then t
    else if ltb (uint32_max - t.seconds) extra_seconds
    then clamped_high
    else record {
      seconds = t.seconds + extra_seconds;
      fractional = t.fractional % picoseconds_per_second;
    }
normalize _ t = t

-- The constructor, which `set` repeats.
unfoldable pub timestamp : TsfType → ℕ → ℕ → Timestamp
timestamp tsf sec frac = normalize tsf (record { seconds = sec; fractional = frac })

unfoldable pub from_utc_seconds : ℕ → Timestamp
from_utc_seconds seconds = timestamp real_time seconds 0

-- `duration_cast<seconds>(duration).count()`, and the nanoseconds that it leaves.
abbrev pub whole_seconds : ℤ → ℤ
whole_seconds (pos n) = pos (n / nanoseconds_per_second)
whole_seconds (negsuc n) = neg (suc n / nanoseconds_per_second)

abbrev pub nano_remainder : ℤ → ℤ
nano_remainder (pos n) = pos (n % nanoseconds_per_second)
nano_remainder (negsuc n) = neg (suc n % nanoseconds_per_second)

-- The nanoseconds since the epoch of the clock, as `from_chrono` takes them.
unfoldable pub from_chrono : ℤ → Timestamp
from_chrono duration = elim (whole_seconds duration) [
  | negsuc s ↦ timestamp real_time 0 0
  | pos epoch_seconds ↦
      if ltb uint32_max epoch_seconds
      then timestamp real_time uint32_max max_fractional
      else timestamp real_time epoch_seconds (elim (nano_remainder duration) [
        | negsuc n ↦ 0
        | pos nanos_count ↦ u64 (nanos_count * picoseconds_per_nanosecond)
      ])
]

-- The time since the epoch, of which the picoseconds below a nanosecond are lost.
unfoldable pub to_chrono : Timestamp → ℤ
to_chrono t = pos (t.seconds * nanoseconds_per_second + t.fractional / picoseconds_per_nanosecond)

-- The picoseconds that are left of a duration, with the seconds already added.
unfoldable pub add_picos : ℤ → Timestamp → Timestamp
add_picos (pos nanos) t =
    normalize real_time
      (record t { fractional = u64 (t.fractional + nanos * picoseconds_per_nanosecond) })
add_picos (negsuc nanos) t =
    let picos_to_sub = suc nanos * picoseconds_per_nanosecond in
    let deficit = picos_to_sub - t.fractional in
    let seconds_to_borrow = u32 ((deficit + picoseconds_per_second - 1) / picoseconds_per_second) in
    if leb picos_to_sub t.fractional
    then record t { fractional = t.fractional - picos_to_sub }
    else if ltb t.seconds seconds_to_borrow
    then clamped_low
    else record {
      seconds = t.seconds - seconds_to_borrow;
      fractional = u64 (seconds_to_borrow * picoseconds_per_second + t.fractional) - picos_to_sub;
    }

-- `operator+=`.
unfoldable pub add_duration : Timestamp → ℤ → Timestamp
add_duration t duration = elim (whole_seconds duration) [
  | pos seconds_to_add ↦
      if ltb uint32_max (u64 (t.seconds + seconds_to_add))
      then clamped_high
      else add_picos (nano_remainder duration) (record t { seconds = t.seconds + seconds_to_add })
  | negsuc s ↦
      if ltb t.seconds (suc s)
      then clamped_low
      else add_picos (nano_remainder duration) (record t { seconds = t.seconds - suc s })
]

-- `-duration`, which is defined but for the smallest one.
abbrev pub negate : ℤ → ℤ
negate (pos n) = neg n
negate (negsuc n) = pos (suc n)

-- `duration == nanoseconds::min()`, which is -2^63.
abbrev pub is_min : ℤ → Bool
is_min (pos n) = Bool.false
is_min (negsuc n) = suc n == 2 ^ 63

-- `operator-=`.
unfoldable pub sub_duration : Timestamp → ℤ → Timestamp
sub_duration t duration =
    if is_min duration
    then add_duration (add_duration t (pos (2 ^ 63 - 1))) (pos 1)
    else add_duration t (negate duration)
