-- ===== src/Clock.antt =====
-- time.Time and time.Duration, as the monitor uses them. An instant is the number of nanoseconds
-- since Go's zero time (1 January of year 1, UTC), so the zero value is 0; instants before it are
-- not represented. A duration is a signed 64-bit count of nanoseconds.
use heartpost.Common.{ℕ, ◌*◌, ◌^◌, ◌/◌, Bool, ◌==◌}
use heartpost.Common.Int.{ℤ, sub_ℕ, clamp_int64, quot_ℤ}

abbrev pub Time : Type 0
Time = ℕ

abbrev pub Duration : Type 0
Duration = ℤ

-- t.IsZero()
abbrev pub is_zero : Time → Bool
is_zero t = t == 0

-- t.Sub(u): the result saturates at the ends of an int64.
unfoldable pub sub : Time → Time → Duration
sub t u = clamp_int64 (sub_ℕ t u)

abbrev pub second : ℕ
second = 10 ^ 9

abbrev pub minute : ℕ
minute = 60 * second

abbrev pub hour : ℕ
hour = 60 * minute

abbrev pub day : ℕ
day = 24 * hour

-- int64(d / time.Second)
abbrev pub whole_seconds : Duration → ℤ
whole_seconds d = quot_ℤ d second

-- Seconds from the zero time to the Unix epoch.
abbrev pub unix_epoch : ℕ
unix_epoch = 62135596800

-- t.Unix()
unfoldable pub unix : Time → ℤ
unix t = sub_ℕ (t / second) unix_epoch
