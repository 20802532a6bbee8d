-- ===== src/Claims/Copy.antt =====
-- claims/claims.go: copies of a claim set, and the conversion to one.
pub mod Laws
use jwtmint.Prelude.{ℕ, String, Bool, true, false, Option, none, some, List, [], ◌∷◌, if◌then◌else◌}
use jwtmint.Errors.{Err, Result, ok, err, encode, decode, invalid_value}
use jwtmint.Dict.{Dict, overlay}
use jwtmint.Claims.Value.{
  Value, null, bool, str, str_ptr, bytes, uuid, strs, items, obj, float, float_ptr, int, int_ptr,
  number, date, date_ptr, time, time_ptr, other, Items, nil, cons, Fields, end, field, Claims, Host,
}

infixl 5 ◌>>=◌
abbrev pub ◌>>=◌ {ℓ κ} : {A : Type ℓ} {B : Type κ} → Option A → (A → Option B) → Option B
none >>= k = none
some a >>= k = k a

-- []string as []any
abbrev pub items_of : {F : Type 0} → List String → Items F
items_of [] = nil
items_of (s ∷ ss) = cons (str s) (items_of ss)

module _ {F : Type 0} (host : Host F) where
  abbrev finite : F → Option (Value F)
  finite f = if host.is_finite f then some (float f) else none

  -- json.Marshal and then json.Unmarshal into an `any`; none where the value cannot be encoded.
  unfoldable mutual
    pub json_value : Value F → Option (Value F)
    json_value null = some null
    json_value (bool b) = some (bool b)
    json_value (str s) = some (str s)
    json_value (str_ptr none) = some null
    json_value (str_ptr (some s)) = some (str s)
    json_value (bytes b) = some (str (host.base64 b))
    json_value (uuid u) = some (str u)
    json_value (strs ss) = some (items (items_of ss))
    json_value (items vs) = json_items vs >>= λ ws. some (items ws)
    json_value (obj fs) = json_fields fs >>= λ gs. some (obj gs)
    json_value (float f) = finite f
    json_value (float_ptr none) = some null
    json_value (float_ptr (some f)) = finite f
    json_value (int i) = some (float (host.float_of_int i))
    json_value (int_ptr none) = some null
    json_value (int_ptr (some i)) = some (float (host.float_of_int i))
    json_value (number n) = host.float_of_text n >>= λ f. some (float f)
    json_value (date t) = some (float (host.float_of_date t))
    json_value (date_ptr none) = some null
    json_value (date_ptr (some t)) = some (float (host.float_of_date t))
    json_value (time t) = some (str (host.show_time t))
    json_value (time_ptr none) = some null
    json_value (time_ptr (some t)) = some (str (host.show_time t))
    json_value other = none

    pub json_items : Items F → Option (Items F)
    json_items nil = some nil
    json_items (cons v vs) = json_value v >>= λ w. json_items vs >>= λ ws. some (cons w ws)

    pub json_fields : Fields F → Option (Fields F)
    json_fields end = some end
    json_fields (field k v fs) = json_value v >>= λ w. json_fields fs >>= λ gs. some (field k w gs)

  -- The round trip of the whole map.
  unfoldable pub json_claims : Claims F → Option (Claims F)
  json_claims [] = some []
  json_claims ((k, v) ∷ c) = json_value v >>= λ w. json_claims c >>= λ d. some ((k, w) ∷ d)

  -- claims.ShallowCopy
  unfoldable pub shallow_copy : Claims F → Claims F
  unfolding overlay
  shallow_copy src = overlay [] src

  abbrev or_shallow : Claims F → Option (Claims F) → Claims F
  or_shallow src none = shallow_copy src
  or_shallow src (some dst) = dst

  -- claims.DeepCopy
  unfoldable pub deep_copy : Claims F → Claims F
  unfolding json_claims json_value
  deep_copy [] = []
  deep_copy ((k, v) ∷ c) = or_shallow ((k, v) ∷ c) (json_claims ((k, v) ∷ c))

-- What `ToMapClaims` is given: a claim set, a nil one, or a value of another type, with what a JSON
-- round trip makes of it.
pub data Source (F : Type 0) : Type 0 where
  map_claims : Claims F → Source F
  nil_claims : Source F
  unencodable : Source F
  undecodable : Source F
  decoded : Claims F → Source F

-- claims.ToMapClaims
unfoldable pub to_map_claims : {F : Type 0} → Source F → Result (Claims F)
to_map_claims (map_claims c) = ok c
to_map_claims nil_claims = err (invalid_value ∷ [])
to_map_claims unencodable = err (encode ∷ [])
to_map_claims undecodable = err (decode ∷ [])
to_map_claims (decoded c) = ok c
