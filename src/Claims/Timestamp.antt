-- ===== src/Claims/Timestamp.antt =====
-- claims/time.go: a time from any of the values that a claim may hold. A `*jwt.NumericDate` is its
-- time.
use jwtmint.Prelude.{String, ℤ, Option, none, some, [], ◌∷◌, if◌then◌else◌}
use jwtmint.Errors.{Result, ok, err, invalid_value, invalid_type}
use jwtmint.Time.{Time, is_zero}
use jwtmint.Claims.Value.{
  Value, str, str_ptr, float, float_ptr, int, int_ptr, number, date, date_ptr, time, time_ptr, Host,
}

module _ {F : Type 0} (host : Host F) where
  -- claims.TimeFromFloat
  unfoldable pub time_from_float : F → Result Time
  time_from_float v =
      if host.below_one v
      then err (invalid_value ∷ [])
      else ok (host.numeric_date (host.unix (host.whole v) (host.frac_nanos v)))

  -- The second attempt of parseStringToNumericDate, on what strconv.ParseFloat gives.
  abbrev pub parsed_float : Option F → Result Time
  parsed_float none = err (invalid_value ∷ [])
  parsed_float (some f) = time_from_float f

  -- What follows time.Parse.
  abbrev pub parsed_time : String → Option Time → Result Time
  parsed_time s none = parsed_float (host.float_of_text s)
  parsed_time s (some t) = ok (host.numeric_date t)

  -- The case of a json.Number, on what its Int64 gives.
  abbrev pub parsed_number : String → Option ℤ → Result Time
  parsed_number n none = parsed_float (host.float_of_text n)
  parsed_number n (some i) = time_from_float (host.float_of_int i)

  -- claims.parseStringToNumericDate
  unfoldable pub parse_string_to_numeric_date : String → Result Time
  unfolding time_from_float
  parse_string_to_numeric_date s = parsed_time s (host.parse_time s)

  -- The cases of a date or a time that is present.
  abbrev pub non_zero : Time → Result Time
  non_zero t = if is_zero t then err (invalid_value ∷ []) else ok (host.numeric_date t)

  -- claims.Timestamp
  unfoldable pub timestamp : Value F → Result Time
  unfolding time_from_float parse_string_to_numeric_date
  timestamp (date_ptr none) = err (invalid_value ∷ [])
  timestamp (date_ptr (some t)) = non_zero t
  timestamp (date t) = non_zero t
  timestamp (time_ptr none) = err (invalid_value ∷ [])
  timestamp (time_ptr (some t)) = non_zero t
  timestamp (time t) = non_zero t
  timestamp (float_ptr none) = err (invalid_value ∷ [])
  timestamp (float_ptr (some f)) = time_from_float f
  timestamp (float f) = time_from_float f
  timestamp (number n) = parsed_number n (host.int_of_number n)
  timestamp (str_ptr none) = err (invalid_value ∷ [])
  timestamp (str_ptr (some s)) = parse_string_to_numeric_date s
  timestamp (str s) = parse_string_to_numeric_date s
  timestamp (int_ptr none) = err (invalid_value ∷ [])
  timestamp (int_ptr (some i)) = time_from_float (host.float_of_int i)
  timestamp (int i) = time_from_float (host.float_of_int i)
  timestamp _ = err (invalid_type ∷ [])
