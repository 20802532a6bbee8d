-- ===== src/Server/Callers/Laws.antt =====
-- Who passes requireAuth.
use Prim.Native.String
use jwtmint.Prelude.{String, ◌≡◌, ◌↔◌, ap, ◌∙◌, Option, none, some, eq_iff, arith}
use jwtmint.Text.{strip_prefix}
use jwtmint.Text.Laws.{strip_prefix-to, strip_prefix-append}
use jwtmint.Auth.HttpAuth.{Request, get_header}
use jwtmint.Server.Callers.{matched, bearer_matches}

matched_iff :
    (expected : String) (o : Option String) → (matched expected o ≡ none) ↔ (o ≡ some expected)
matched_iff expected none = (λ h. cc, λ h. cc)
matched_iff expected (some got) = ground (arith, eq_iff got expected)

pub bearer_matches_iff :
    (expected : String) (r : Request)
    → (bearer_matches expected r ≡ none)
      ↔ (get_header "Authorization" r ≡ String.◌++◌ "Bearer " expected)
unfolding bearer_matches
bearer_matches_iff expected r =
    let header = get_header "Authorization" r in
    let found = matched_iff expected (strip_prefix "Bearer " header) in
    (
      λ h. strip_prefix-to "Bearer " header expected (found.0 h),
      λ h. found.1 (ap (strip_prefix "Bearer ") h ∙ strip_prefix-append "Bearer " expected),
    )
