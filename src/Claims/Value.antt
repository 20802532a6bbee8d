-- ===== src/Claims/Value.antt =====
-- The Go values that a claim may hold, as the type switches of claims/time.go, claims/registered.go
-- and claims/profile.go tell them apart. `F` stands for float64. The integer types int and int64
-- share one constructor, and a nil slice is an empty one. `other` is any value of another type.
use jwtmint.Prelude.{ℕ, ℤ, String, Bool, Option, List}
use jwtmint.Time.{Time}
use jwtmint.Dict.{Dict}

mutual
  pub data Value (F : Type 0) : Type 0 where
    null : Value F
    bool : Bool → Value F
    str : String → Value F
    str_ptr : Option String → Value F
    bytes : List ℕ → Value F
    uuid : String → Value F
    strs : List String → Value F
    items : Items F → Value F
    obj : Fields F → Value F
    float : F → Value F
    float_ptr : Option F → Value F
    int : ℤ → Value F
    int_ptr : Option ℤ → Value F
    number : String → Value F
    date : Time → Value F
    date_ptr : Option Time → Value F
    time : Time → Value F
    time_ptr : Option Time → Value F
    other : Value F

  pub data Items (F : Type 0) : Type 0 where
    nil : Items F
    cons : Value F → Items F → Items F

  pub data Fields (F : Type 0) : Type 0 where
    end : Fields F
    field : String → Value F → Fields F → Fields F

-- jwt.MapClaims
abbrev pub Claims : Type 0 → Type 0
Claims F = Dict (Value F)

-- The code that the source calls and that is not in the repository: floating-point numbers, the
-- conversions of Go's standard library between texts, bytes, numbers and times, and the dates of
-- golang-jwt.
pub record Host (F : Type 0) : Type 0 where
  -- `v < 1`
  pub below_one : F → Bool
  -- int64(v)
  pub whole : F → ℤ
  -- int64((v - float64(int64(v))) * 1e9)
  pub frac_nanos : F → ℤ
  -- float64(i)
  pub float_of_int : ℤ → F
  -- neither NaN nor infinite
  pub is_finite : F → Bool
  -- (json.Number).Int64, none on an error
  pub int_of_number : String → Option ℤ
  -- (json.Number).Float64, and strconv.ParseFloat(s, 64)
  pub float_of_text : String → Option F
  -- time.Parse(time.RFC3339, s)
  pub parse_time : String → Option Time
  -- the text of a time.Time in JSON
  pub show_time : Time → String
  -- string(b)
  pub text_of_bytes : List ℕ → String
  -- the text of a []byte in JSON
  pub base64 : List ℕ → String
  -- jwt.NewNumericDate(t).Time
  pub numeric_date : Time → Time
  -- the number that a jwt.NumericDate is in JSON
  pub float_of_date : Time → F
  -- time.Unix(s, n)
  pub unix : ℤ → ℤ → Time
