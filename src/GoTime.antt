-- ===== src/GoTime.antt =====
-- The parts of Go's `time` that the program uses. An instant is a number of nanoseconds, counted
-- from 2^63 seconds before Go's zero Time (the earliest second that a Time's counter holds), so
-- that instants before the zero Time exist too. Locations are not modelled: the program compares
-- instants only. A duration is a number of nanoseconds; where the source can meet a negative one,
-- its first test refuses it as it refuses 0.
use virtual_cloud_help_servi.Prelude.{ℕ, ◌-◌, ◌*◌, ◌%◌, ◌^◌, min, Bool, ltb, ◌==◌}

abbrev pub Instant : Type 0
Instant = ℕ

abbrev pub Duration : Type 0
Duration = ℕ

abbrev pub second : Duration
second = 1_000_000_000

abbrev pub minute : Duration
minute = 60 * second

abbrev pub hour : Duration
hour = 60 * minute

-- Go's zero Time: January 1 of the year 1.
abbrev pub zero_instant : Instant
zero_instant = 2 ^ 63 * second

-- `t.IsZero()`
abbrev pub is_zero : Instant → Bool
is_zero t = t == zero_instant

-- `t.Before(u)`; `t.After(u)` is `before u t`.
abbrev pub before : Instant → Instant → Bool
before t u = ltb t u

-- `t.Truncate(d)` rounds down to a multiple of `d` since the zero Time.
abbrev pub truncate : Instant → Duration → Instant
truncate t d = t - t % d

-- `t.Sub(u)` for `u` before `t`: it saturates at the largest Duration.
abbrev pub elapsed : Instant → Instant → Duration
elapsed t u = min (t - u) (2 ^ 63 - 1)
