-- ===== src/Clock.antt =====
-- Go's time.Time, as far as the program uses it, and package time's arithmetic.
pub mod Calendar
pub mod Layout
use developer_certificates.Common.{ℕ, ◌+◌, ◌-◌, ◌*◌, ◌/◌, ◌^◌, min, Bool, ltb}
use developer_certificates.Common.Int.{ℤ, sub_ℕ}

-- The number of nanoseconds since the start of year 1, UTC. The zone of a time is never read: each
-- use of it is turned into UTC.
abbrev pub Time : Type 0
Time = ℕ

abbrev pub second : ℕ
second = 1_000_000_000

abbrev pub hour : ℕ
hour = 3600 * second

abbrev pub day : ℕ
day = 24 * hour

-- time.Time.Add, After and Before.
abbrev pub add_time : Time → ℕ → Time
add_time t d = t + d

abbrev pub after : Time → Time → Bool
after t u = ltb u t

abbrev pub before : Time → Time → Bool
before t u = ltb t u

-- time.Time.Sub, which stops at the largest int64; a time before the other gives no positive
-- duration, which no caller tells from 0.
abbrev pub sub_time : Time → Time → ℕ
sub_time now t = min (now - t) (2 ^ 63 - 1)

-- time.Time.Unix: whole seconds since the start of 1970, rounded down.
abbrev pub unix : Time → ℤ
unix t = sub_ℕ (t / second) 62_135_596_800
