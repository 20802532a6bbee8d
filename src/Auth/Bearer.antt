-- ===== src/Auth/Bearer.antt =====
-- What middleware/httpauth/httpauth.go and middleware/grpcauth/grpcauth.go share: the token behind
-- "Bearer ", and what the context carries for a handler.
use jwtmint.Prelude.{String, Option, none, some, []}
use jwtmint.Text.{trim_space, strip_prefix}
use jwtmint.Errors.{Result, ok, err}
use jwtmint.Claims.Value.{Claims}
use jwtmint.Claims.Copy.{to_map_claims}
use jwtmint.Token.{Token}

-- httpauth.SchemeBearer, grpcauth.SchemeBearer
abbrev pub scheme_bearer : String
scheme_bearer = "Bearer"

-- `prefix := SchemeBearer + " "`
abbrev pub bearer_prefix : String
bearer_prefix = "Bearer "

abbrev pub trimmed_or_empty : Option String → String
trimmed_or_empty none = ""
trimmed_or_empty (some s) = trim_space s

-- grpcauth.bearerToken
unfoldable pub bearer_token : String → String
unfolding strip_prefix trim_space
bearer_token authz = trimmed_or_empty (strip_prefix bearer_prefix authz)

-- The values under ctxKeyToken and ctxKeyClaims.
pub record Attached (F : Type 0) : Type 0 where
  pub token : Token F
  pub claims : Claims F

-- `mc, _ := claims.ToMapClaims(…)`
abbrev pub claims_or_nil : {F : Type 0} → Result (Claims F) → Claims F
claims_or_nil (ok c) = c
claims_or_nil (err e) = []

abbrev pub attached_of : {F : Type 0} → Token F → Attached F
attached_of token = record { token = token; claims = claims_or_nil (to_map_claims token.claims) }
