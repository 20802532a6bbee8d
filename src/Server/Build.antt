-- ===== src/Server/Build.antt =====
-- httpserver/server.go and httpserver/build.go: the configuration, its defaults, and what is built from
-- it. The fields that only the listener reads are left out but for the timeouts, and so is the logger
-- but for whether there is one. `Token.PublicKey` names a key by one number; `detail` has its numbers.
pub mod Laws
use jwtmint.Prelude.{
  ℤ, pos, ltb_ℤ, String, Bool, true, false, Option, none, some, List, [], ◌∷◌, ◌++◌, ◌==◌, ◌||◌,
  eqb, contains, if◌then◌else◌,
}
use jwtmint.Text.{is_blank}
use jwtmint.Errors.{Err, Result, ok, err, invalid_value, invalid_type}
use jwtmint.Time.{Duration, seconds}
use jwtmint.Claims.Value.{str}
use jwtmint.Token.{Method, PublicKey, PrivateKey}
use jwtmint.Revocation.{Revoker}
use jwtmint.Verification.Base.{Parser, Verifier}
use jwtmint.Verification.Options
use jwtmint.Verification.Single.{new_verifier}
use jwtmint.Verification.MultiKey.{KeyEntry, new_multi_key_verifier}
use jwtmint.Signing.Signer
use jwtmint.Refresh
use jwtmint.Refresh.{ClaimsResolver}
use jwtmint.Jwks.KeySet.{Jwk}
use jwtmint.Jwks.Codec.{Material, CryptoKey, Panicking, Encoding, jwk_from_public_key}
use jwtmint.Server.Callers.{Authenticator, static_bearer_authenticator}

-- httpserver.Config
pub record Config (F : Type 0) : Type 0 where
  pub has_logger : Bool
  pub method : Option Method
  pub private_key : Option PrivateKey
  pub public_key : Option PublicKey
  pub kid : String
  pub default_issuer : String
  pub default_expiration : Duration
  pub auth_token : String
  pub authenticator : Option Authenticator
  pub refresh_max_age : Option Duration
  pub refresh_claims_resolver : Option (ClaimsResolver F)
  pub revoker : Option (Revoker F)
  pub additional_keys : List KeyEntry
  pub issuer : String
  pub enable_token_review : Bool
  pub cert_file : String
  pub key_file : String
  pub addr : String
  pub read_timeout : Duration
  pub write_timeout : Duration
  pub shutdown_timeout : Duration

abbrev pub or_text : String → String → String
or_text s default = if is_blank s then default else s

-- `d == 0`
abbrev pub or_duration : Duration → Duration → Duration
or_duration d default = if ltb_ℤ d (pos 0) || ltb_ℤ (pos 0) d then d else default

module _ {F : Type 0} where
  -- (Config).withDefaults
  unfoldable pub with_defaults : Config F → Config F
  with_defaults c = record c {
    addr = or_text c.addr ":8080";
    read_timeout = or_duration c.read_timeout (seconds 10);
    write_timeout = or_duration c.write_timeout (seconds 10);
    shutdown_timeout = or_duration c.shutdown_timeout (seconds 15);
    default_expiration = or_duration c.default_expiration (seconds 3600);
  }

  -- The branches of New that append to signerOpts.
  abbrev pub issuer_opt : String → List (Signer.Opt F) → List (Signer.Opt F)
  issuer_opt iss opts = if is_blank iss then opts else Signer.Opt.with_default_issuer iss ∷ opts

  abbrev pub expiration_opt : Duration → List (Signer.Opt F) → List (Signer.Opt F)
  expiration_opt d opts =
      if ltb_ℤ (pos 0) d then Signer.Opt.with_default_expiration d ∷ opts else opts

  abbrev pub kid_opt : String → List (Signer.Opt F)
  kid_opt kid =
      if is_blank kid then [] else Signer.Opt.with_static_headers (("kid", str kid) ∷ []) ∷ []

  unfoldable pub signer_opts : Config F → List (Signer.Opt F)
  signer_opts c = issuer_opt c.default_issuer (expiration_opt c.default_expiration (kid_opt c.kid))

  -- The branches of New that append to refresherOpts.
  abbrev pub lifetime_opt : Duration → List (Refresh.Opt F) → List (Refresh.Opt F)
  lifetime_opt d opts =
      if ltb_ℤ (pos 0) d then Refresh.Opt.with_default_expiration d ∷ opts else opts

  abbrev pub max_age_opt : Option Duration → List (Refresh.Opt F) → List (Refresh.Opt F)
  max_age_opt none opts = opts
  max_age_opt (some d) opts = Refresh.Opt.with_max_age d ∷ opts

  abbrev pub resolver_opt : Option (ClaimsResolver F) → List (Refresh.Opt F)
  resolver_opt none = []
  resolver_opt (some r) = Refresh.Opt.with_claims_resolver (some r) ∷ []

  unfoldable pub refresher_opts : Config F → List (Refresh.Opt F)
  refresher_opts c =
      lifetime_opt c.default_expiration
        (max_age_opt c.refresh_max_age (resolver_opt c.refresh_claims_resolver))

  -- The options of buildVerifier.
  abbrev pub verifier_opts : Option (Revoker F) → List (Options.Opt F)
  verifier_opts none = []
  verifier_opts (some r) = Options.Opt.with_revoker (some r) ∷ []

  -- The primary key as an entry, and then the additional ones.
  abbrev pub primary_entry : Config F → KeyEntry
  primary_entry c = record { kid = c.kid; method = c.method; public_key = c.public_key }

  abbrev pub entries : Config F → List KeyEntry
  entries c = primary_entry c ∷ c.additional_keys

  -- The branch of buildVerifier on the additional keys.
  abbrev pub verifier_for : Parser F → Config F → List KeyEntry → Result (Verifier F)
  verifier_for parser c [] = new_verifier parser c.method c.public_key (verifier_opts c.revoker)
  verifier_for parser c (e ∷ es) =
      if is_blank c.kid
      then err (invalid_value ∷ [])
      else new_multi_key_verifier parser (primary_entry c ∷ e ∷ es) (verifier_opts c.revoker)

  -- httpserver.buildVerifier
  unfoldable pub build_verifier : Parser F → Config F → Result (Verifier F)
  build_verifier parser c = verifier_for parser c c.additional_keys

-- `primary.Alg = cfg.Method.Alg()`, `j.Alg = e.Method.Alg()`
abbrev pub tagged : String → Jwk Material → Jwk Material
tagged alg j = record j { material = record (j.material) { alg = alg } }

abbrev pub in_front : {A : Type 0} → A → Panicking (List A) → Panicking (List A)
in_front j none = none
in_front j (some (err e)) = some (err e)
in_front j (some (ok js)) = some (ok (j ∷ js))

-- One key of the payload: a panic or an error of the conversion, and a panic on a nil method.
abbrev pub published :
    Option Method
    → Panicking (Jwk Material)
    → Panicking (List (Jwk Material))
    → Panicking (List (Jwk Material))
published method none rest = none
published method (some (err e)) rest = some (err e)
published none (some (ok j)) rest = none
published (some m) (some (ok j)) rest = in_front (tagged m.alg j) rest

module _ (std : Encoding) (detail : PublicKey → CryptoKey) where
  abbrev pub jwk_of : Option PublicKey → String → Panicking (Jwk Material)
  jwk_of none kid = some (err (invalid_type ∷ []))
  jwk_of (some key) kid = jwk_from_public_key std (detail key) kid

  -- The keys in their order.
  unfoldable pub publish_all : List KeyEntry → Panicking (List (Jwk Material))
  publish_all [] = some (ok [])
  publish_all (e ∷ es) = published e.method (jwk_of e.public_key e.kid) (publish_all es)

  -- httpserver.buildJWKS
  unfoldable pub build_jwks : {F : Type 0} → Config F → Panicking (List (Jwk Material))
  unfolding publish_all
  build_jwks c = publish_all (entries c)

abbrev pub chosen : Option Authenticator → String → Option Authenticator
chosen none token = static_bearer_authenticator token
chosen (some a) token = some a

-- The function `add` of supportedAlgs.
abbrev pub add_alg : String → List String → List String
add_alg alg out = if is_blank alg || contains out alg then out else out ++ alg ∷ []

-- Its call for an entry, and then the others; a nil method panics.
abbrev pub add_method :
    Option Method → (List String → Option (List String)) → List String → Option (List String)
add_method none others out = none
add_method (some m) others out = others (add_alg m.alg out)

unfoldable pub add_algs : List KeyEntry → List String → Option (List String)
add_algs [] out = some out
add_algs (e ∷ es) out = add_method e.method (add_algs es) out

module _ {F : Type 0} where
  -- (*Server).authenticator
  unfoldable pub authenticator : Config F → Option Authenticator
  authenticator c = chosen c.authenticator c.auth_token

  -- (*Server).supportedAlgs
  unfoldable pub supported_algs : Config F → Option (List String)
  unfolding add_algs
  supported_algs c = add_algs (entries c) []
