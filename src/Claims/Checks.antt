-- ===== src/Claims/Checks.antt =====
-- claims/check_func.go: the checks on a claim set. A nil CheckFunc is `none`. The wall clock's reading
-- is part of the context that a check is given.
pub mod Laws
use jwtmint.Prelude.{String, Bool, Option, none, some, List, [], ◌∷◌, contains, if◌then◌else◌}
use jwtmint.Errors.{
  Err, Result, ok, err, Verdict, verdict_of, is, not_found, check, expired, not_ready,
  invalid_claims,
}
use jwtmint.Dict.{has}
use jwtmint.Time.{Time, Duration, before, after, plus}
use jwtmint.Claims.Value.{Claims, Host}
use jwtmint.Claims.Registered.{issuer, expires_at, not_before}
use jwtmint.Claims.Matching.{matching_audience, matching_groups, matching_roles}

-- What a check may ask of its surroundings: `ctx.Err()`, and the wall clock.
pub record Context : Type 0 where
  pub failed : Verdict
  pub now : Time

-- claims.CheckFunc
abbrev pub CheckFunc : Type 0 → Type 0
CheckFunc F = Context → Claims F → Verdict

-- Go on with `rest` if there is no error.
abbrev pub and_then : Verdict → Verdict → Verdict
and_then none rest = rest
and_then (some e) rest = some e

module _ {F : Type 0} where
  -- claims.Chain
  unfoldable pub chain : List (Option (CheckFunc F)) → CheckFunc F
  chain [] ctx c = none
  chain (none ∷ checks) ctx c = chain checks ctx c
  chain (some f ∷ checks) ctx c = and_then (f ctx c) (chain checks ctx c)

  -- claims.CheckRequiredKeys
  unfoldable pub check_required_keys : List String → CheckFunc F
  check_required_keys [] ctx c = none
  check_required_keys (k ∷ ks) ctx c =
      if has k c then check_required_keys ks ctx c else some (not_found ∷ [])

  -- claims.CheckAudience
  unfoldable pub check_audience : List String → CheckFunc F
  unfolding matching_audience
  check_audience required ctx c = verdict_of (matching_audience c required)

  -- claims.CheckHasGroups
  unfoldable pub check_has_groups : List String → CheckFunc F
  unfolding matching_groups
  check_has_groups required ctx c = verdict_of (matching_groups c required)

  -- claims.CheckHasRoles
  unfoldable pub check_has_roles : List String → CheckFunc F
  unfolding matching_roles
  check_has_roles required ctx c = verdict_of (matching_roles c required)

-- What CheckIssuer makes of the issuer that it reads.
abbrev pub issuer_verdict : List String → Result String → Verdict
issuer_verdict allowed (ok iss) = if contains allowed iss then none else some (check ∷ [])
issuer_verdict allowed (err e) = some e

-- What CheckNotExpired makes of the expiry that it reads.
abbrev pub expiry_verdict : Duration → Time → Result Time → Verdict
expiry_verdict leeway now (ok exp) =
    if before (plus exp leeway) now then some (expired ∷ []) else none
expiry_verdict leeway now (err e) = some e

-- What CheckNotBeforeReady makes of the nbf that it reads.
abbrev pub ready_verdict : Duration → Time → Result Time → Verdict
ready_verdict leeway now (ok nbf) =
    if after nbf (plus now leeway) then some (not_ready ∷ []) else none
ready_verdict leeway now (err e) = if is e not_found then none else some (invalid_claims ∷ e)

module _ {F : Type 0} (host : Host F) where
  -- claims.CheckIssuer
  unfoldable pub check_issuer : List String → CheckFunc F
  check_issuer allowed ctx c = issuer_verdict allowed (issuer host c)

  -- claims.CheckNotExpired
  unfoldable pub check_not_expired : Duration → CheckFunc F
  check_not_expired leeway ctx c = expiry_verdict leeway ctx.now (expires_at host c)

  -- claims.CheckNotBeforeReady
  unfoldable pub check_not_before_ready : Duration → CheckFunc F
  check_not_before_ready leeway ctx c = ready_verdict leeway ctx.now (not_before host c)
