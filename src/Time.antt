-- ===== src/Time.antt =====
-- time.Time and time.Duration of the Go standard library, as far as the server uses them. A time
-- is its number of nanoseconds since the zero time (1 January of year 1, UTC); a duration is a
-- signed 64-bit number of nanoseconds.
use agent_events.Prelude.{ℕ, suc, ◌-◌, ◌/◌, ◌%◌, ◌^◌, Bool, eqb, leb, if◌then◌else◌}
use agent_events.Prelude.Int.{ℤ, pos, negsuc, ◌+ℤ◌, ◌-ℤ◌, pos_part, neg_part, ltb_ℤ, leb_ℤ, eqb_ℤ}

abbrev pub Time : Type 0
Time = ℤ

abbrev pub Duration : Type 0
Duration = ℤ

abbrev pub nanoseconds_per_second : ℕ
nanoseconds_per_second = 1_000_000_000

abbrev pub second : Duration
second = pos 1_000_000_000

abbrev pub minute : Duration
minute = pos 60_000_000_000

abbrev pub hour : Duration
hour = pos 3_600_000_000_000

-- `time.Time{}`
abbrev pub zero_time : Time
zero_time = pos 0

abbrev pub is_zero : Time → Bool
is_zero t = eqb_ℤ t (pos 0)

abbrev pub before : Time → Time → Bool
before t u = ltb_ℤ t u

unfoldable pub add : Time → Duration → Time
unfolding ◌+ℤ◌
add t d = t +ℤ d

-- `t.Sub(u)`, which saturates at the ends of the range of a duration
unfoldable pub sub : Time → Time → Duration
unfolding ◌-ℤ◌
sub t u =
    let d = t -ℤ u in
    if leb (2 ^ 63) (pos_part d)
    then pos (2 ^ 63 - 1)
    else if leb (suc (2 ^ 63)) (neg_part d)
    then negsuc (2 ^ 63 - 1)
    else d

-- the part of `t` above the last multiple of `d` at or below it
remainder : Time → ℕ → ℕ
remainder (pos n) d = n % d
remainder (negsuc n) d = if eqb (suc n % d) 0 then 0 else d - suc n % d

-- `t.Truncate(d)`: down to a multiple of `d` since the zero time, or unchanged if `d <= 0`
unfoldable pub truncate : Time → Duration → Time
unfolding remainder ◌-ℤ◌
truncate t d = if leb_ℤ d (pos 0) then t else t -ℤ pos (remainder t (pos_part d))

-- whole seconds, rounded down
floor_seconds : Time → ℤ
floor_seconds (pos n) = pos (n / nanoseconds_per_second)
floor_seconds (negsuc n) = negsuc (n / nanoseconds_per_second)

-- the zero time is this many seconds before the Unix epoch
abbrev unix_to_internal : ℤ
unix_to_internal = pos 62_135_596_800

-- `t.Unix()`
unfoldable pub unix : Time → ℤ
unfolding floor_seconds ◌-ℤ◌
unix t = floor_seconds t -ℤ unix_to_internal
