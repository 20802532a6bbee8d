-- ===== src/Claims/Read.antt =====
-- The readers that the accessors share: readString and readTime of claims/registered.go,
-- readStringSlice of claims/profile.go. The labels go into message texts only.
use jwtmint.Prelude.{String, Option, none, some, List, [], ◌∷◌, if◌then◌else◌, is_empty}
use jwtmint.Text.{is_blank, split_comma}
use jwtmint.Errors.{Result, ok, err, not_found, empty_value, invalid_claims, ◌>>=◌}
use jwtmint.Dict.{lookup}
use jwtmint.Time.{Time}
use jwtmint.Claims.Value.{Value, null, str, bytes, strs, items, Items, nil, cons, Claims, Host}
use jwtmint.Claims.Timestamp.{timestamp}

-- `v, ok := c[key]; if !ok { return …, ErrNotFound }`
abbrev pub or_missing : {A B : Type 0} → (A → Result B) → Option A → Result B
or_missing f none = err (not_found ∷ [])
or_missing f (some v) = f v

module _ {F : Type 0} where
  -- The loop over a []any.
  unfoldable pub strings_of : Items F → Result (List String)
  strings_of nil = ok []
  strings_of (cons (str s) vs) = strings_of vs >>= λ ss. ok (s ∷ ss)
  strings_of (cons _ vs) = err (invalid_claims ∷ [])

  -- The type switch of readStringSlice.
  unfoldable pub slice_of : Value F → Result (List String)
  unfolding strings_of split_comma
  slice_of (strs []) = err (empty_value ∷ [])
  slice_of (strs (s ∷ ss)) = ok (s ∷ ss)
  slice_of (items nil) = err (empty_value ∷ [])
  slice_of (items (cons v vs)) = strings_of (cons v vs)
  slice_of (str s) = if is_blank s then err (empty_value ∷ []) else ok (split_comma s)
  slice_of _ = err (invalid_claims ∷ [])

  -- claims.readStringSlice
  unfoldable pub read_string_slice : Claims F → String → Result (List String)
  unfolding slice_of
  read_string_slice c key = or_missing slice_of (lookup key c)

module _ {F : Type 0} (host : Host F) where
  -- The type switch of readString.
  unfoldable pub string_of : Value F → Result String
  string_of (str s) = if is_blank s then err (empty_value ∷ []) else ok s
  string_of (bytes b) = if is_empty b then err (empty_value ∷ []) else ok (host.text_of_bytes b)
  string_of _ = err (invalid_claims ∷ [])

  -- claims.readString
  unfoldable pub read_string : Claims F → String → Result String
  unfolding string_of
  read_string c key = or_missing string_of (lookup key c)

  -- The rest of readTime, on a claim that is present.
  unfoldable pub time_of : Value F → Result Time
  unfolding timestamp
  time_of null = err (empty_value ∷ [])
  time_of v = timestamp host v

  -- claims.readTime
  unfoldable pub read_time : Claims F → String → Result Time
  unfolding time_of
  read_time c key = or_missing time_of (lookup key c)
