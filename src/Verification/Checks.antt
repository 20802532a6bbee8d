-- ===== src/Verification/Checks.antt =====
-- verification/check_func.go: the checks on a parsed token.
pub mod Laws
use jwtmint.Prelude.{String, Bool, Option, none, some, List, [], ◌∷◌, if◌then◌else◌}
use jwtmint.Errors.{Err, Result, ok, err, Verdict, check, invalid_claims}
use jwtmint.Dict.{Dict, lookup, has}
use jwtmint.Claims.Value.{Value, Claims}
use jwtmint.Claims.Copy.{to_map_claims}
use jwtmint.Claims.Checks.{Context, CheckFunc, and_then}
use jwtmint.Claims.Checks
use jwtmint.Token.{Token}
use jwtmint.Verification.Base.{TokenCheckFunc}

-- The comparison `got != want` of two interface values, on values of comparable types.
abbrev pub Same : Type 0 → Type 0
Same F = Value F → Value F → Bool

module _ {F : Type 0} where
  -- verification.ChainTokenChecks
  unfoldable pub chain_token_checks : List (Option (TokenCheckFunc F)) → TokenCheckFunc F
  chain_token_checks [] ctx token = none
  chain_token_checks (none ∷ checks) ctx token = chain_token_checks checks ctx token
  chain_token_checks (some f ∷ checks) ctx token =
      and_then (f ctx token) (chain_token_checks checks ctx token)

  -- The rest of CheckClaims, on the converted claims.
  abbrev pub claims_verdict : List (Option (CheckFunc F)) → Context → Result (Claims F) → Verdict
  claims_verdict checks ctx (ok mc) = Checks.chain checks ctx mc
  claims_verdict checks ctx (err e) = some (invalid_claims ∷ e)

  -- verification.CheckClaims
  unfoldable pub check_claims : List (Option (CheckFunc F)) → TokenCheckFunc F
  check_claims checks ctx token = claims_verdict checks ctx (to_map_claims token.claims)

  -- verification.CheckBannedHeaders
  unfoldable pub check_banned_headers : List String → TokenCheckFunc F
  check_banned_headers [] ctx token = none
  check_banned_headers (k ∷ banned) ctx token =
      if has k token.header then some (check ∷ []) else check_banned_headers banned ctx token

  -- verification.CheckRequiredHeaders
  unfoldable pub check_required_headers : List String → TokenCheckFunc F
  check_required_headers [] ctx token = none
  check_required_headers (k ∷ required) ctx token =
      if has k token.header then check_required_headers required ctx token else some (check ∷ [])

  -- The comparison of one header with the wanted value.
  abbrev pub header_verdict : Same F → Value F → Option (Value F) → Verdict
  header_verdict same want none = some (check ∷ [])
  header_verdict same want (some got) = if same got want then none else some (check ∷ [])

  -- verification.CheckRequiredHeaderValues
  unfoldable pub check_required_header_values : Same F → Dict (Value F) → TokenCheckFunc F
  check_required_header_values same [] ctx token = none
  check_required_header_values same ((k, want) ∷ required) ctx token =
      and_then (header_verdict same want (lookup k token.header))
        (check_required_header_values same required ctx token)
