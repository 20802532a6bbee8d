-- ===== src/Claims/Matching.antt =====
-- The matching of list claims: normalizeString of claims/claims.go, MatchingAudience of
-- claims/registered.go, MatchingGroups, MatchingRoles and MatchingEntitlements of claims/profile.go.
pub mod Laws
use jwtmint.Prelude.{String, Bool, List, [], ◌∷◌, map, contains, keep, is_empty, if◌then◌else◌}
use jwtmint.Text.{is_slash, trim_right, trim_space}
use jwtmint.Errors.{
  Err, Result, ok, err, ◌>>=◌, not_found, empty_value, check, no_groups, no_audience, no_roles,
}
use jwtmint.Claims.Value.{Claims}
use jwtmint.Claims.Registered.{audience}
use jwtmint.Claims.Profile.{groups, roles, entitlements}

-- claims.normalizeString
unfoldable pub normalize_string : String → String
unfolding trim_right trim_space
normalize_string s = trim_space (trim_right is_slash (trim_space s))

-- claims.normalizeStringSlice
unfoldable pub normalize_string_slice : List String → List String
unfolding normalize_string
normalize_string_slice ss = map normalize_string ss

-- The part that the four functions share: the wanted values among those that the token has, with the
-- errors for a claim that lists nothing and for no overlap.
unfoldable pub overlap : Err → Err → List String → List String → Result (List String)
unfolding normalize_string_slice
overlap nothing disjoint have to_match =
    if is_empty have
    then err nothing
    else let set = normalize_string_slice have in
      let matched = keep (contains set) (normalize_string_slice to_match) in
      if is_empty matched then err disjoint else ok matched

module _ {F : Type 0} where
  -- claims.MatchingAudience
  unfoldable pub matching_audience : Claims F → List String → Result (List String)
  unfolding audience overlap
  matching_audience c to_match =
      audience c >>= λ have. overlap (not_found ∷ no_audience ∷ []) (no_audience ∷ []) have to_match

  -- claims.MatchingGroups
  unfoldable pub matching_groups : Claims F → List String → Result (List String)
  unfolding groups overlap
  matching_groups c to_match =
      groups c >>= λ have. overlap (not_found ∷ no_groups ∷ []) (no_groups ∷ []) have to_match

  -- claims.MatchingRoles
  unfoldable pub matching_roles : Claims F → List String → Result (List String)
  unfolding roles overlap
  matching_roles c to_match =
      roles c >>= λ have. overlap (not_found ∷ no_roles ∷ []) (no_roles ∷ []) have to_match

  -- claims.MatchingEntitlements
  unfoldable pub matching_entitlements : Claims F → List String → Result (List String)
  unfolding entitlements overlap
  matching_entitlements c to_match =
      entitlements c >>= λ have. overlap (empty_value ∷ []) (check ∷ []) have to_match
