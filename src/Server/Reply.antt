-- ===== src/Server/Reply.antt =====
-- httpserver/types.go, httpserver/errors.go: what the handlers write. Of the headers only
-- WWW-Authenticate is modelled, and of an error its code, not its detail.
use jwtmint.Prelude.{ℕ, ℤ, Bool, String, Option, none, List}
use jwtmint.Dict.{Dict}
use jwtmint.Claims.Value.{Value, Claims}
use jwtmint.TokenReview
use jwtmint.Jwks.KeySet.{Jwk}
use jwtmint.Jwks.Codec.{Material}

-- httpserver.SignRequest: nil claims are empty ones.
pub record SignRequest (F : Type 0) : Type 0 where
  pub claims : Claims F
  pub headers : Dict (Value F)
  pub expires_in : String

-- The bodies: SignResponse, VerifyResponse, RefreshResponse, ErrorResponse, a JWKS, a TokenReview and
-- the document of OIDC discovery.
pub data Body (F : Type 0) : Type 0 where
  sign_response : String → ℤ → Body F
  verify_response : Bool → Claims F → Dict (Value F) → Body F
  refresh_response : String → ℤ → Body F
  error_response : String → Body F
  jwks_response : List (Jwk Material) → Body F
  review_response : TokenReview.Reply → Body F
  discovery_response : String → String → List String → Body F

pub record Reply (F : Type 0) : Type 0 where
  pub status : ℕ
  pub www_authenticate : Option String
  pub body : Body F

module _ {F : Type 0} where
  -- jsonutil.Write
  abbrev pub write : ℕ → Body F → Reply F
  write status body = record { status = status; www_authenticate = none; body = body }

  -- httpserver.writeError
  abbrev pub write_error : ℕ → String → Reply F
  write_error status code = write status (Body.error_response code)
