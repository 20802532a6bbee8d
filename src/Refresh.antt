-- ===== src/Refresh.antt =====
-- Package refresh (refresh/refresh.go): the rotation of a token. As in Signing, the parser, the making
-- of a token and its signature are arguments.
pub mod Laws
use jwtmint.Prelude.{
  ℤ, pos, ltb_ℤ, String, Bool, true, false, Option, none, some, List, [], ◌∷◌, not, if◌then◌else◌,
}
use jwtmint.Text.{is_blank, trim_space}
use jwtmint.Errors.{
  Err, Result, ok, err, Verdict, unless_err, map_err, ◌>>=◌, is, sign, check, invalid_value,
  invalid_token, invalid_claims, not_found, expired,
}
use jwtmint.Time.{Time, Duration, plus, minus, seconds}
use jwtmint.Claims.Value.{Claims, Host}
use jwtmint.Claims.Copy.{deep_copy}
use jwtmint.Claims.Registered.{issued_at, set_issued_at, expires_at, set_expires_at, set_not_before}
use jwtmint.Claims.Checks.{Context}
use jwtmint.Token.{Method, PublicKey, PrivateKey, Token, Keyfunc}
use jwtmint.Keys.{Crypto, validate_pair, public_key_func}
use jwtmint.Signing.Mint.{World}

-- refresh.ClaimsResolver: a nil map is `none`.
abbrev pub ClaimsResolver : Type 0 → Type 0
ClaimsResolver F = Context → Claims F → Result (Option (Claims F))

-- ParseWithClaims of a parser without claims validation, with the map that it fills.
abbrev pub MapParser : Type 0 → Type 0
MapParser F = String → Keyfunc F → Result (Token F × Claims F)

-- refresh.Refresher
abbrev pub Refresher : Type 0 → Type 0
Refresher F = Context → String → Result (Token F × String)

-- refresh.DefaultExpiration
abbrev pub default_expiration : Duration
default_expiration = seconds 3600

-- refresh.config
pub record Config (F : Type 0) : Type 0 where
  pub default_exp : Duration
  pub max_age : Duration
  pub resolver : Option (ClaimsResolver F)

-- refresh.Opt: a function on a type that is not exported, so one of these.
pub data Opt (F : Type 0) : Type 0 where
  with_default_expiration : Duration → Opt F
  with_max_age : Duration → Opt F
  with_claims_resolver : Option (ClaimsResolver F) → Opt F

module _ {F : Type 0} where
  -- The function that an Opt is.
  unfoldable pub apply_opt : Opt F → Config F → Result (Config F)
  apply_opt (with_default_expiration d) c =
      if not (ltb_ℤ (pos 0) d) then err (invalid_value ∷ []) else ok (record c { default_exp = d })
  apply_opt (with_max_age d) c =
      if ltb_ℤ d (pos 0) then err (invalid_value ∷ []) else ok (record c { max_age = d })
  apply_opt (with_claims_resolver r) c = ok (record c { resolver = r })

  -- The loop over the options.
  unfoldable pub apply_opts : List (Opt F) → Config F → Result (Config F)
  apply_opts [] c = ok c
  apply_opts (opt ∷ opts) c = apply_opt opt c >>= apply_opts opts

  -- The guard of MaxAge, on the iat that was read.
  unfoldable pub age_verdict : Config F → Time → Result Time → Verdict
  age_verdict c now (err e) = if ltb_ℤ (pos 0) c.max_age then some (invalid_claims ∷ e) else none
  age_verdict c now (ok iat) =
      if ltb_ℤ (pos 0) c.max_age
      then (if ltb_ℤ c.max_age (minus now iat) then some (expired ∷ []) else none)
      else none

  -- What is made of the resolver's answer.
  abbrev pub answered : Result (Option (Claims F)) → Result (Claims F)
  answered (err e) = err (check ∷ e)
  answered (ok none) = err (invalid_claims ∷ [])
  answered (ok (some c)) = ok c

  -- The switch on exp.
  unfoldable pub new_expiry : Config F → Time → Result Time → Result Time → Result Time
  new_expiry c now (ok iat) (ok exp) = ok (plus now (minus exp iat))
  new_expiry c now (err e) (ok exp) = ok (plus now c.default_exp)
  new_expiry c now iat (err e) = if is e not_found then ok (plus now c.default_exp) else err e

  -- The end, on the signature.
  abbrev pub with_signature : Token F → Option String → Result (Token F × String)
  with_signature token none = err (sign ∷ [])
  with_signature token (some text) = ok (token, text)

module _ {F : Type 0} (host : Host F) (world : World F) where
  -- The branch on the resolver.
  abbrev pub resolved : Option (ClaimsResolver F) → Context → Claims F → Result (Claims F)
  resolved none ctx c = ok c
  resolved (some r) ctx c = answered (r ctx (deep_copy host c))

  -- The three times of the refreshed token.
  unfoldable pub restamp : Time → Claims F → Claims F
  restamp exp c =
      set_issued_at host (set_not_before host (set_expires_at host c exp) world.now) world.now

  -- refresh.refresh
  unfoldable pub refresh :
      Context
      → Method
      → MapParser F
      → Keyfunc F
      → PrivateKey
      → Config F
      → String
      → Result (Token F × String)
  unfolding age_verdict new_expiry restamp
  refresh ctx method parser kf private_key cfg signed =
      if is_blank (trim_space signed)
      then err (invalid_value ∷ [])
      else (map_err (λ e. invalid_token ∷ e) (parser signed kf) >>= λ parsed.
          unless_err (age_verdict cfg world.now (issued_at host parsed.1)) (λ e. e)
            (resolved cfg.resolver ctx parsed.1 >>= λ c.
              new_expiry cfg world.now (issued_at host parsed.1) (expires_at host c) >>= λ exp.
              (let token = world.new_with_claims method (restamp exp c) in
                with_signature token (world.signed_string private_key token))))

  -- The function that NewRefresher returns.
  unfoldable pub refresher : Method → MapParser F → Keyfunc F → PrivateKey → Config F → Refresher F
  unfolding refresh
  refresher method parser kf private_key cfg ctx signed =
      unless_err ctx.failed (λ e. e) (refresh ctx method parser kf private_key cfg signed)

  -- The rest of NewRefresher, on a method and keys that are given.
  abbrev pub refresher_from :
      Crypto
      → MapParser F
      → Option Method
      → Option PublicKey
      → Option PrivateKey
      → List (Opt F)
      → Result (Refresher F)
  refresher_from crypto parser (some method) (some public_key) (some private_key) opts =
      if is_blank method.alg
      then err (invalid_value ∷ [])
      else unless_err (validate_pair crypto (some public_key) (some private_key)) (λ e. e)
          (map_err (λ e. invalid_value ∷ e) (public_key_func (some method) (some public_key))
            >>= λ kf.
                apply_opts opts (record {
                  default_exp = default_expiration;
                  max_age = seconds 86400;
                  resolver = none;
                })
                >>= λ cfg. ok (refresher method parser kf private_key cfg))
  refresher_from crypto parser _ _ _ opts = err (invalid_value ∷ [])

  -- refresh.NewRefresher
  unfoldable pub new_refresher :
      Crypto
      → MapParser F
      → Option Method
      → Option PublicKey
      → Option PrivateKey
      → List (Opt F)
      → Result (Refresher F)
  new_refresher = refresher_from
