-- ===== src/Timestamp/Tests.antt =====
-- Times near the ends of their range, moved by durations.
use vrtio.Common.{◌-◌, ◌*◌, ◌/◌, ◌^◌, ◌≡◌, refl, arith}
use vrtio.Common.Int.{negsuc}
use vrtio.Timestamp.{
  Timestamp, timestamp, normalize, add_duration, add_picos, sub_duration, from_chrono, to_chrono,
  negate, clamped_high, clamped_low,
}
use vrtio.Timestamp.Picos.{IsTime, Says, picos, shifted, add_duration-Says, sub_duration-Says}
use vrtio.Timestamp.Chrono.{from_chrono-Says, from_chrono-to_chrono}

timestamp_program : Unit {0}
unfolding timestamp normalize add_duration add_picos sub_duration from_chrono to_chrono
timestamp_program = tt

abbrev early : Timestamp
early = record { seconds = 5; fractional = 250 }

abbrev early_time : IsTime early
early_time = record { seconds_fit = omega arith; fractional_fits = omega arith }

-- One nanosecond earlier, a second is borrowed.
borrowed : add_duration early (negsuc 0) ≡ record { seconds = 4; fractional = 999_999_999_250 }
unfolding timestamp_program
borrowed = refl

before_epoch : add_duration early (negsuc 5_999_999_999) ≡ clamped_low
unfolding timestamp_program
before_epoch = refl

smallest_duration : sub_duration early (negsuc (2 ^ 63 - 1)) ≡ clamped_high
unfolding timestamp_program
smallest_duration = refl

add_duration-Says_example : Says (add_duration early (negsuc 0)) (shifted (picos early) (negsuc 0))
add_duration-Says_example = add_duration-Says early (negsuc 0) early_time (omega arith)

sub_duration-Says_example :
    Says
      (sub_duration early (negsuc (2 ^ 63 - 1)))
      (shifted (picos early) (negate (negsuc (2 ^ 63 - 1))))
sub_duration-Says_example = sub_duration-Says early (negsuc (2 ^ 63 - 1)) early_time (omega arith)

from_chrono-Says_example : Says (from_chrono (negsuc 3)) (shifted 0 (negsuc 3))
from_chrono-Says_example = from_chrono-Says (negsuc 3) (omega arith)

from_chrono-to_chrono_example : Says (from_chrono (to_chrono early)) (picos early / 1000 * 1000)
from_chrono-to_chrono_example = from_chrono-to_chrono early early_time
