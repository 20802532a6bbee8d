-- ===== src/Examples/Claiming.antt =====
-- The claims on concrete inputs.
use jwtmint.Prelude.{ℤ, ◌≤ℤ◌, String, ◌≡◌, ◌↔◌, ◌⊎◌, refl, Option, none, some, List, [], ◌∷◌}
use jwtmint.Text.{trim_space, trim_left, trim_right}
use jwtmint.Errors.{ok, not_found, no_audience}
use jwtmint.Time.{Time, plus, seconds}
use jwtmint.Dict.{lookup}
use jwtmint.Claims.Keys.{key_not_before}
use jwtmint.Claims.Registered.{not_before, expires_at, set_expires_at}
use jwtmint.Claims.Registered.Laws.{expires_at-set_expires_at}
use jwtmint.Claims.Profile.{scope, set_scope}
use jwtmint.Claims.Profile.Laws.{scope-set_scope}
use jwtmint.Claims.Matching.{normalize_string, normalize_string_slice, overlap}
use jwtmint.Claims.Checks.{CheckFunc, check_required_keys, check_audience, check_not_before_ready}
use jwtmint.Claims.Checks.Laws.{check_not_before_ready_iff}
use jwtmint.Examples.{host, now, ctx, claims}

check_not_before_ready_iff_example : (check_not_before_ready host (seconds 5) ctx claims ≡ none) ↔ (
    (lookup key_not_before claims ≡ none)
    ⊎ ((t : Time) × (not_before host claims ≡ ok t) × (t ≤ℤ plus ctx.now (seconds 5))))
check_not_before_ready_iff_example = check_not_before_ready_iff host (seconds 5) ctx claims

abbrev checks : List (Option (CheckFunc ℤ))
checks = some (check_required_keys ("sub" ∷ [])) ∷ none ∷ some (check_audience ("cli" ∷ [])) ∷ []

abbrev have : List String
have = "api/" ∷ " web" ∷ []

abbrev want : List String
want = "web" ∷ "cli" ∷ []

overlapping : overlap (not_found ∷ []) (no_audience ∷ []) have want ≡ ok ("web" ∷ [])
unfolding overlap normalize_string_slice normalize_string trim_space trim_left trim_right
overlapping = refl

scope-set_scope_example :
    scope (set_scope claims ("read" ∷ "write" ∷ [])) ≡ ok ("read" ∷ "write" ∷ [])
scope-set_scope_example = scope-set_scope claims ("read" ∷ "write" ∷ []) (
  (refl, (refl, (refl, (refl, (refl, tt))))),
  ((refl, (refl, (refl, (refl, (refl, (refl, tt)))))), tt),
)

expires_at-set_expires_at_example : expires_at host (set_expires_at host claims now) ≡ ok now
expires_at-set_expires_at_example = expires_at-set_expires_at host (λ t. refl) claims now refl
