-- ===== src/Verification/MultiKey.antt =====
-- verification/multikey.go: the verifier that chooses the key by the token's kid header.
pub mod Laws
use jwtmint.Prelude.{
  String, Bool, true, false, Option, none, some, List, [], ◌∷◌, ◌==◌, contains, if◌then◌else◌,
}
use jwtmint.Text.{is_blank}
use jwtmint.Errors.{
  Result, ok, err, ◌>>=◌, map_err, invalid_value, invalid_type, invalid_method, not_found,
}
use jwtmint.Dict.{Dict, lookup, has, insert}
use jwtmint.Claims.Value.{Value, str}
use jwtmint.Token.{Method, PublicKey, Token, Keyfunc}
use jwtmint.Keys.{is_supported_key}
use jwtmint.Verification.Base.{Parser, Verifier, verify}
use jwtmint.Verification.Options.{Opt, apply_opts}

-- verification.KeyEntry
pub record KeyEntry : Type 0 where
  pub kid : String
  pub method : Option Method
  pub public_key : Option PublicKey

-- An entry that has passed the checks of NewMultiKeyVerifier.
pub record Registered : Type 0 where
  pub method : Method
  pub public_key : PublicKey

-- The checks on one entry that follow the one on its kid.
unfoldable pub check_present :
    String → Option Method → Option PublicKey → Dict Registered → Result Registered
check_present kid none key by_kid = err (invalid_value ∷ [])
check_present kid (some method) none by_kid = err (invalid_value ∷ [])
check_present kid (some method) (some key) by_kid =
    if is_supported_key key
    then (if has kid by_kid
        then err (invalid_value ∷ [])
        else ok (record { method = method; public_key = key }))
    else err (invalid_type ∷ [])

-- The loop of NewMultiKeyVerifier: the entries by kid, and the set of the algorithms.
unfoldable pub register :
    List KeyEntry → Dict Registered → List String → Result (Dict Registered × List String)
unfolding check_present
register [] by_kid algs = ok (by_kid, algs)
register (e ∷ es) by_kid algs =
    if is_blank e.kid
    then err (invalid_value ∷ [])
    else (check_present e.kid e.method e.public_key by_kid >>= λ r.
        register es (insert e.kid r by_kid)
          (if contains algs r.method.alg then algs else r.method.alg ∷ algs))

-- `kid, _ := token.Header["kid"].(string)`
abbrev pub text_or_empty : {F : Type 0} → Option (Value F) → String
text_or_empty (some (str s)) = s
text_or_empty _ = ""

module _ {F : Type 0} where
  -- The end of keyFunc, on what the map holds for the kid.
  abbrev pub entry_key : Token F → Option Registered → Result PublicKey
  entry_key token none = err (not_found ∷ [])
  entry_key token (some entry) =
      if token.method.alg == entry.method.alg
      then ok entry.public_key
      else err (invalid_method ∷ [])

  -- (*multiKeyVerifier).keyFunc
  unfoldable pub multi_key_func : Dict Registered → Keyfunc F
  multi_key_func entries token =
      let kid = text_or_empty (lookup "kid" token.header) in
      if is_blank kid then err (invalid_value ∷ []) else entry_key token (lookup kid entries)

module _ {F : Type 0} (parser : Parser F) where
  -- verification.NewMultiKeyVerifier
  unfoldable pub new_multi_key_verifier : List KeyEntry → List (Opt F) → Result (Verifier F)
  unfolding register
  new_multi_key_verifier [] opts = err (invalid_value ∷ [])
  new_multi_key_verifier (e ∷ es) opts = register (e ∷ es) [] [] >>= λ registered.
      apply_opts registered.1 opts >>= λ base. ok (verify parser base (multi_key_func registered.0))
