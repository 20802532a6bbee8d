-- ===== src/Signing/Mint.antt =====
-- signing/signing.go: signWith, which every way to sign ends in, and the merging of headers and claims.
-- The signature of golang-jwt is an argument, and so are the making of a token, a fresh UUID and the
-- wall clock's reading.
pub mod Laws
use jwtmint.Prelude.{
  String, Bool, true, false, Option, none, some, List, [], ◌∷◌, ◌||◌, not, is_empty, if◌then◌else◌,
}
use jwtmint.Errors.{
  Err, Result, ok, err, Verdict, ◌>>=◌, is, expired, not_ready, not_found, empty_value,
  invalid_claims, sign,
}
use jwtmint.Dict.{Dict, has, insert, overlay}
use jwtmint.Time.{Time, Duration, before, after, plus, seconds}
use jwtmint.Claims.Value.{Value, str, Claims, Host}
use jwtmint.Claims.Copy.{deep_copy}
use jwtmint.Claims.Registered.{
  id, set_id, issuer, set_issuer, expires_at, set_expires_at, issued_at, set_issued_at, not_before,
  set_not_before,
}
use jwtmint.Token.{Method, PrivateKey, Token}

-- signing.HeaderKeyAlg, signing.HeaderKeyTyp
abbrev pub header_key_alg : String
header_key_alg = "alg"

abbrev pub header_key_typ : String
header_key_typ = "typ"

-- signing.DefaultExpiration, signing.DefaultIssuer, signing.DefaultTyp
abbrev pub default_expiration : Duration
default_expiration = seconds 3600

abbrev pub default_issuer : String
default_issuer = "jwtmint"

abbrev pub default_typ : String
default_typ = "JWT"

-- What signWith takes from outside: time.Now, uuid.NewString, jwt.NewWithClaims, and
-- (*jwt.Token).SignedString, none on an error.
pub record World (F : Type 0) : Type 0 where
  pub now : Time
  pub fresh_uuid : String
  pub new_with_claims : Method → Claims F → Token F
  pub signed_string : PrivateKey → Token F → Option String

module _ {F : Type 0} (host : Host F) where
  -- The switch on exp.
  abbrev pub default_exp : Time → Duration → Claims F → Result Time → Result (Claims F)
  default_exp now d c (ok exp) =
      if before exp now then err (expired ∷ []) else ok (set_expires_at host c exp)
  default_exp now d c (err e) = ok (set_expires_at host c (plus now d))

  -- The switch on iat.
  abbrev pub default_iat : Time → Claims F → Result Time → Result (Claims F)
  default_iat now c (ok iat) =
      if after iat now then err (not_ready ∷ []) else ok (set_issued_at host c iat)
  default_iat now c (err e) = ok (set_issued_at host c now)

  -- The branch on nbf.
  abbrev pub default_nbf : Time → Claims F → Result Time → Claims F
  default_nbf now c (ok nbf) = set_not_before host c nbf
  default_nbf now c (err e) = set_not_before host c now

  -- The branch on iss.
  abbrev pub default_iss : String → Claims F → Result String → Result (Claims F)
  default_iss iss c (ok _) = ok c
  default_iss iss c (err e) =
      if is e not_found
      then ok (set_issuer c iss)
      else if is e empty_value
      then ok c
      else err (invalid_claims ∷ e)

  -- The branch on jti.
  abbrev pub default_jti : String → Claims F → Result String → Claims F
  default_jti uuid c (ok _) = c
  default_jti uuid c (err e) = if is e not_found then set_id host c (str uuid) else c

  -- The claims that signWith makes of a copy of the given ones.
  unfoldable pub fill_claims : Time → String → Duration → String → Claims F → Result (Claims F)
  fill_claims now uuid d iss c = default_exp now d c (expires_at host c) >>= λ c1.
      default_iat now c1 (issued_at host c1) >>= λ c2.
      (let c3 = default_nbf now c2 (not_before host c2) in
        default_iss iss c3 (issuer host c3) >>= λ c4. ok (default_jti uuid c4 (id host c4)))

module _ {F : Type 0} where
  -- The headers of the token: the default typ unless one is given, and then the given ones.
  unfoldable pub set_headers : String → Dict (Value F) → Token F → Token F
  set_headers typ headers token =
      let base =
        if has header_key_typ headers
        then token.header
        else insert header_key_typ (str typ) token.header in
      record token { header = overlay base headers }

  -- The end of signWith, on the signature.
  abbrev pub with_signature : Token F → Option String → Result (String × Token F)
  with_signature token none = err (sign ∷ [])
  with_signature token (some signed) = ok (signed, token)

module _ {F : Type 0} (host : Host F) (world : World F) where
  -- signing.signWith
  unfoldable pub sign_with :
      Method
      → PrivateKey
      → Dict (Value F)
      → Claims F
      → Duration
      → String
      → String
      → Result (String × Token F)
  unfolding fill_claims set_headers
  sign_with method key headers claims d iss typ =
      fill_claims host world.now world.fresh_uuid d iss (deep_copy host claims) >>= λ c.
      (let token = set_headers typ headers (world.new_with_claims method c) in
        with_signature token (world.signed_string key token))
