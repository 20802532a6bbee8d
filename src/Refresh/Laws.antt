-- ===== src/Refresh/Laws.antt =====
-- What a refreshed token has in common with the token that it replaces.
use jwtmint.Prelude.{
  pos, ltb_ℤ, ◌≤ℤ◌, String, ◌≡◌, ◌⊎◌, true, false, none, some, List, [], ◌∷◌, contains,
}
use jwtmint.Errors.{Result, ok}
use jwtmint.Dict.{lookup}
use jwtmint.Time.{Time, plus, minus, seconds}
use jwtmint.Claims.Value.{Claims, Host}
use jwtmint.Claims.Copy.{map_claims}
use jwtmint.Claims.Keys.{key_expires_at, key_issued_at, key_not_before}
use jwtmint.Claims.Registered.{issued_at, expires_at}
use jwtmint.Claims.Checks.{Context}
use jwtmint.Token.{Method, PublicKey, PrivateKey, Token, Keyfunc}
use jwtmint.Keys.{Crypto}
use jwtmint.Signing.Mint.{World}
use jwtmint.Signing.Mint.Laws.{dated}
use jwtmint.Refresh.{MapParser, Config, Opt, default_expiration, resolved}

-- The token is young enough: there is no limit, or its iat is read and lies no further back.
abbrev pub Young : {F : Type 0} → Config F → Time → Result Time → Type 0
Young cfg now iat =
    (ltb_ℤ (pos 0) cfg.max_age ≡ false) ⊎ ((t : Time) × (iat ≡ ok t) × (minus now t ≤ℤ cfg.max_age))

-- The new expiry: as far ahead as the resolved claims' exp is from the old iat, where both are known,
-- and else by the default.
abbrev pub Window : {F : Type 0} → Config F → Time → Result Time → Result Time → Time → Type 0
Window cfg now (ok iat) (ok exp) t = t ≡ plus now (minus exp iat)
Window cfg now _ _ t = t ≡ plus now cfg.default_exp

abbrev pub stamped_keys : List String
stamped_keys = key_expires_at ∷ key_not_before ∷ key_issued_at ∷ []

-- What a refreshed token `token` with the text `text` is, from the claims `c0` of the old one.
pub record Rotated {F : Type 0} (host : Host F) (world : World F) (cfg : Config F) (ctx : Context)
    (method : Method) (key : PrivateKey) (c0 : Claims F) (token : Token F) (text : String)
    : Type 0 where
  pub young : Young cfg world.now (issued_at host c0)
  pub c : Claims F
  pub answer : resolved host world cfg.resolver ctx c0 ≡ ok c
  pub exp : Time
  pub window : Window cfg world.now (issued_at host c0) (expires_at host c) exp
  pub c' : Claims F
  pub made : token ≡ world.new_with_claims method c'
  pub exp_held : lookup key_expires_at c' ≡ dated host exp
  pub nbf_held : lookup key_not_before c' ≡ dated host world.now
  pub iat_held : lookup key_issued_at c' ≡ dated host world.now
  pub others : (k : String) → (contains stamped_keys k ≡ true) ⊎ (lookup k c' ≡ lookup k c)
  pub signature : world.signed_string key token ≡ some text

-- What golang-jwt documents of ParseWithClaims, as in the parser of a verifier.
pub record MapParserLaws {F : Type 0} (parser : MapParser F)
    (Signed : PublicKey → String → Token F → Type 0) : Type 0 where
  pub verified :
      (text : String) (kf : Keyfunc F) (token : Token F) (c : Claims F)
      → parser text kf ≡ ok (token, c)
      → (key : PublicKey) × (kf token ≡ ok key) × Signed key text token
  -- The claims are read into the map that is given, which the token has as its claims.
  pub filled :
      (text : String) (kf : Keyfunc F) (token : Token F) (c : Claims F)
      → parser text kf ≡ ok (token, c)
      → token.claims ≡ map_claims c

module _ {F : Type 0} (host : Host F) (world : World F) (crypto : Crypto) (parser : MapParser F)
    (method : Method) (public_key : PublicKey) (key : PrivateKey) (opts : List (Opt F)) where
  -- The configuration that NewRefresher starts from.
  abbrev pub defaults : Config F
  defaults = record { default_exp = default_expiration; max_age = seconds 86400; resolver = none }
