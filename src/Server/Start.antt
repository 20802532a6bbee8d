-- ===== src/Server/Start.antt =====
-- httpserver/server.go: New and the routes. Logs, metrics and the listener are not modelled.
pub mod Inversion
pub mod Verifying
pub mod Issuing
pub mod Publishing
pub mod Panics
use jwtmint.Prelude.{
  String, Bool, true, false, Option, none, some, List, [], ◌∷◌, not, if◌then◌else◌,
}
use jwtmint.Text.{is_blank}
use jwtmint.Errors.{Err, Result, ok, err, ◌>>=◌, unless_err, invalid_value}
use jwtmint.Claims.Value.{Host}
use jwtmint.Claims.Checks.{Context}
use jwtmint.Token.{Method, PublicKey, PrivateKey}
use jwtmint.Keys.{Crypto, validate_pair}
use jwtmint.Verification.Base.{Parser, Verifier}
use jwtmint.Signing.Mint.{World}
use jwtmint.Signing.Signer.{Signer, new_signer, sign}
use jwtmint.Refresh.{MapParser, Refresher, new_refresher}
use jwtmint.Jwks.KeySet.{Jwk}
use jwtmint.Jwks.Codec.{Material, CryptoKey, Panicking, Encoding}
use jwtmint.Auth.HttpAuth.{Request}
use jwtmint.Server.Reply.{SignRequest, Reply, jwks_response, review_response, write}
use jwtmint.Server.Callers.{require_auth}
use jwtmint.TokenReview
use jwtmint.TokenReview.{Review}
use jwtmint.Server.Handlers.{
  Clock, verify_handler, sign_handler, refresh_handler, handle_oidc_discovery,
}
use jwtmint.Server.Build.{
  Config, with_defaults, signer_opts, refresher_opts, build_verifier, build_jwks, authenticator,
  supported_algs,
}

-- httpserver.Server
pub record Server (F : Type 0) : Type 0 where
  pub cfg : Config F
  pub signer : Signer F
  pub verify : Verifier F
  pub refresh : Refresher F
  pub jwks_set : List (Jwk Material)

-- What New takes from outside: golang-jwt's parsers, and the calls of Go's crypto packages.
pub record Libraries (F : Type 0) : Type 0 where
  pub host : Host F
  pub world : World F
  pub crypto : Crypto
  pub parser : Parser F
  pub map_parser : MapParser F
  pub encoding : Encoding
  pub detail : PublicKey → CryptoKey

module _ {F : Type 0} (lib : Libraries F) where
  -- `(cfg.CertFile == "") != (cfg.KeyFile == "")`
  abbrev pub half_set : Config F → Bool
  half_set c = if is_blank c.cert_file then not (is_blank c.key_file) else is_blank c.key_file

  -- The parts that New builds before the JWKS, from a configuration with its defaults.
  unfoldable pub build_parts : Config F → Result (Signer F × Verifier F × Refresher F)
  build_parts c = new_signer c.method c.private_key (signer_opts c) >>= λ s.
      build_verifier lib.parser c >>= λ v.
      new_refresher lib.host lib.world lib.crypto lib.map_parser c.method c.public_key c.private_key
        (refresher_opts c)
      >>= λ r. ok (s, v, r)

  -- The checks of New on the required fields.
  abbrev pub present : Config F → Option Method → Option PrivateKey → Option PublicKey → Bool
  present c (some m) (some k) (some p) = c.has_logger
  present c _ _ _ = false

  -- New up to the JWKS.
  unfoldable pub prepare : Config F → Result (Signer F × Verifier F × Refresher F)
  unfolding build_parts
  prepare c =
      if not (present c c.method c.private_key c.public_key)
      then err (invalid_value ∷ [])
      else unless_err (validate_pair lib.crypto c.public_key c.private_key) (λ e. e)
          (if half_set c then err (invalid_value ∷ []) else build_parts (with_defaults c))

  -- The algorithms that routes computes for the discovery route, if there is an issuer.
  abbrev pub discovery_algs : Config F → Option (List String)
  discovery_algs c = if is_blank c.issuer then some [] else supported_algs c

  -- New from its call of routes on.
  abbrev pub routed : Option (List String) → Server F → Panicking (Server F)
  routed none srv = none
  routed (some algs) srv = some (ok srv)

  abbrev pub assembled :
      Config F
      → Signer F × Verifier F × Refresher F
      → Panicking (List (Jwk Material))
      → Panicking (Server F)
  assembled c parts none = none
  assembled c parts (some (err e)) = some (err e)
  assembled c (s, v, r) (some (ok keys)) =
      routed (discovery_algs c)
        (record { cfg = c; signer = s; verify = v; refresh = r; jwks_set = keys })

  abbrev pub finish : Config F → Result (Signer F × Verifier F × Refresher F) → Panicking (Server F)
  finish c (err e) = some (err e)
  finish c (ok parts) = assembled c parts (build_jwks lib.encoding lib.detail c)

  -- httpserver.New; a panic is `none`.
  unfoldable pub new : Config F → Panicking (Server F)
  unfolding prepare supported_algs
  new c = finish (with_defaults c) (prepare c)

-- A request to one of the routes, with what the decoder makes of its body.
pub data Call (F : Type 0) : Type 0 where
  post_verify : Option String → Call F
  post_sign : Request → Option (SignRequest F) → Call F
  post_refresh : Request → Option String → Call F
  post_token_review : Option Review → Call F
  get_jwks : Call F
  get_discovery : Call F

module _ {F : Type 0} (lib : Libraries F) (clock : Clock) where
  -- The route of the TokenReview handler, if it is enabled.
  abbrev pub token_review :
      Bool
      → Option (Context → Option Review → TokenReview.Reply)
      → Context
      → Option Review
      → Option (Reply F)
  token_review false handle ctx body = none
  token_review true none ctx body = none
  token_review true (some handle) ctx body =
      let reply = handle ctx body in some (write reply.code (review_response reply))

  -- The discovery route, if there is an issuer.
  abbrev pub discovery : String → Option (List String) → Option (Reply F)
  discovery issuer none = none
  discovery issuer (some algs) =
      if is_blank issuer then none else some (handle_oidc_discovery issuer algs)

  -- (*Server).routes: the reply, none where no route answers.
  unfoldable pub routes : Server F → Context → Call F → Option (Reply F)
  unfolding verify_handler sign_handler refresh_handler require_auth TokenReview.handler
  routes s ctx (post_verify body) = some (verify_handler s.verify ctx body)
  routes s ctx (post_sign r body) = some (
      require_auth (authenticator s.cfg)
        (λ _. sign_handler lib.host clock (sign lib.host lib.world s.signer) ctx body) r)
  routes s ctx (post_refresh r body) = some (
      require_auth (authenticator s.cfg) (λ _. refresh_handler lib.host clock s.refresh ctx body) r)
  routes s ctx (post_token_review body) =
      token_review s.cfg.enable_token_review (TokenReview.handler lib.host (some s.verify) []) ctx
        body
  routes s ctx get_jwks = some (write 200 (jwks_response s.jwks_set))
  routes s ctx get_discovery = discovery s.cfg.issuer (supported_algs s.cfg)
