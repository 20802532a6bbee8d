-- ===== src/Time.antt =====
-- What the source uses of Go's package time. An instant is the number of nanoseconds from Go's zero
-- time (January 1 of year 1, UTC), a duration a number of nanoseconds; a duration fits 64 bits.
-- The reading of the wall clock is an argument of the functions that call `time.Now`.
use jwtmint.Prelude.{
  ◌-◌, ◌%◌, ltb, ℕ, ◌*◌, ℤ, pos, negsuc, ◌+ℤ◌, ◌-ℤ◌, ltb_ℤ, eqb, Bool, false, if◌then◌else◌,
}

abbrev pub Time : Type 0
Time = ℤ

abbrev pub Duration : Type 0
Duration = ℤ

-- time.Time{}
abbrev pub zero_time : Time
zero_time = pos 0

-- t.IsZero()
abbrev pub is_zero : Time → Bool
is_zero (pos n) = eqb n 0
is_zero (negsuc n) = false

-- t.Before(u)
abbrev pub before : Time → Time → Bool
before t u = ltb_ℤ t u

-- t.After(u)
abbrev pub after : Time → Time → Bool
after t u = ltb_ℤ u t

-- t.Add(d)
abbrev pub plus : Time → Duration → Time
plus t d = t +ℤ d

abbrev pub max_duration : Duration
max_duration = pos 9223372036854775807

abbrev pub min_duration : Duration
min_duration = negsuc 9223372036854775807

-- t.Sub(u), which stays at the largest or the smallest duration where the difference does not fit.
unfoldable pub minus : Time → Time → Duration
minus t u =
    let d = t -ℤ u in
    if ltb_ℤ max_duration d then max_duration else if ltb_ℤ d min_duration then min_duration else d

abbrev pub seconds : ℕ → Duration
seconds n = pos (n * 1000000000)

-- The value of a 64-bit integer with the low bits of a number.
abbrev pub int64_of_bits : ℕ → ℤ
int64_of_bits m = if ltb m 9223372036854775808 then pos m else negsuc (18446744073709551615 - m)

unfoldable pub wrapped : ℤ → Duration
wrapped (pos n) = int64_of_bits (n % 18446744073709551616)
wrapped (negsuc n) = int64_of_bits (18446744073709551615 - n % 18446744073709551616)
