-- ===== src/Base/TimeSpan.antt =====
-- packages/base/src/TimeSpan.ts: a number of ticks of 100 nanoseconds.
use yohira.Common.{
  ℕ, suc, ◌*◌, ◌/◌, ◌≡◌, ap, Bool, true, false, Option, none, some, arith, ℤ, pos, negsuc, sub_ℕ,
  eqb_ℤ,
}

pub record TimeSpan : Type 0 where
  pub ticks : ℤ

abbrev pub ticks_per_microsecond : ℕ
ticks_per_microsecond = 10

abbrev pub ticks_per_millisecond : ℕ
ticks_per_millisecond = ticks_per_microsecond * 1000

abbrev pub ticks_per_second : ℕ
ticks_per_second = ticks_per_millisecond * 1000

abbrev pub ticks_per_minute : ℕ
ticks_per_minute = ticks_per_second * 60

abbrev pub ticks_per_hour : ℕ
ticks_per_hour = ticks_per_minute * 60

abbrev pub ticks_per_day : ℕ
ticks_per_day = ticks_per_hour * 24

-- Products and quotients of a bigint by one of these; `/` rounds towards zero.
abbrev pub times : ℤ → ℕ → ℤ
times (pos n) k = pos (n * k)
times (negsuc n) k = sub_ℕ 0 (suc n * k)

abbrev pub over : ℤ → ℕ → ℤ
over (pos n) k = pos (n / k)
over (negsuc n) k = sub_ℕ 0 (suc n / k)

abbrev pub from_ticks : ℤ → TimeSpan
from_ticks value = record { ticks = value }

unfoldable pub from_days : ℤ → TimeSpan
from_days value = from_ticks (times value ticks_per_day)

unfoldable pub from_hours : ℤ → TimeSpan
from_hours value = from_ticks (times value ticks_per_hour)

unfoldable pub from_minutes : ℤ → TimeSpan
from_minutes value = from_ticks (times value ticks_per_minute)

unfoldable pub from_milliseconds : ℤ → TimeSpan
from_milliseconds value = from_ticks (times value ticks_per_millisecond)

unfoldable pub from_seconds : ℤ → TimeSpan
from_seconds value = from_ticks (times value ticks_per_second)

unfoldable pub total_milliseconds : TimeSpan → ℤ
total_milliseconds t = over t.ticks ticks_per_millisecond

unfoldable pub total_seconds : TimeSpan → ℤ
total_seconds t = over t.ticks ticks_per_second

unfoldable pub equals : Option TimeSpan → Option TimeSpan → Bool
equals none none = true
equals none (some y) = false
equals (some x) none = false
equals (some x) (some y) = eqb_ℤ x.ticks y.ticks

pub total_seconds-from_seconds : (n : ℤ) → total_seconds (from_seconds n) ≡ n
unfolding total_seconds from_seconds
total_seconds-from_seconds (pos n) = ap pos (omega arith)
total_seconds-from_seconds (negsuc n) = ground arith
