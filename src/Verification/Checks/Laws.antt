-- ===== src/Verification/Checks/Laws.antt =====
-- When the checks on a token pass.
use jwtmint.Prelude.{
  String, ◌≡◌, ◌↔◌, refl, true, false, Option, none, some, List, [], ◌∷◌, All, arith,
}
use jwtmint.Errors.{Result, ok, err}
use jwtmint.Dict.{Dict, lookup, has}
use jwtmint.Claims.Value.{Value, Claims}
use jwtmint.Claims.Copy.{to_map_claims}
use jwtmint.Claims.Checks.{Context, CheckFunc}
use jwtmint.Claims.Checks.Laws.{AllPass, and_then_iff, chain_iff}
use jwtmint.Token.{Token}
use jwtmint.Verification.Base.{TokenCheckFunc}
use jwtmint.Verification.Base.Laws.{Passed}
use jwtmint.Verification.Checks.{
  Same, chain_token_checks, claims_verdict, check_claims, check_banned_headers,
  check_required_headers, header_verdict, check_required_header_values,
}

-- The header holds a value that compares as the wanted one.
abbrev pub Holds : {F : Type 0} → Same F → Dict (Value F) → String × Value F → Type 0
Holds same header (k, want) =
    (got : Value _) × (lookup k header ≡ some got) × (same got want ≡ true)

module _ {F : Type 0} (ctx : Context) (token : Token F) where
  pub chain_token_checks_iff :
      (checks : List (Option (TokenCheckFunc F)))
      → (chain_token_checks checks ctx token ≡ none) ↔ Passed ctx token checks
  unfolding chain_token_checks
  chain_token_checks_iff [] = (λ _. tt, λ _. refl)
  chain_token_checks_iff (none ∷ checks) = chain_token_checks_iff checks
  chain_token_checks_iff (some f ∷ checks) = ground (arith, chain_token_checks_iff checks)

  claims_verdict_iff :
      (checks : List (Option (CheckFunc F))) (r : Result (Claims F))
      → (claims_verdict checks ctx r ≡ none) ↔ ((c : Claims F) × (r ≡ ok c) × AllPass ctx c checks)
  claims_verdict_iff checks (ok c) = (
    λ h. (c, refl, (chain_iff ctx c checks).0 h),
    λ (d, same, pass). let eq : c ≡ d = cc in (chain_iff ctx c checks).1 (rw eq pass),
  )
  claims_verdict_iff checks (err e) = (λ h. cc, λ (d, same, pass). cc)

  -- CheckClaims passes exactly if the token's claims convert to a map that passes every check
  -- that is not nil.
  pub check_claims_iff :
      (checks : List (Option (CheckFunc F)))
      → (check_claims checks ctx token ≡ none)
        ↔ ((c : Claims F) × (to_map_claims token.claims ≡ ok c) × AllPass ctx c checks)
  unfolding check_claims
  check_claims_iff checks = claims_verdict_iff checks (to_map_claims token.claims)

  pub check_banned_headers_iff :
      (banned : List String)
      → (check_banned_headers banned ctx token ≡ none)
        ↔ All (λ k. has k token.header ≡ false) banned
  unfolding check_banned_headers
  check_banned_headers_iff [] = (λ _. tt, λ _. refl)
  check_banned_headers_iff (k ∷ banned) = ground (arith, check_banned_headers_iff banned)

  pub check_required_headers_iff :
      (required : List String)
      → (check_required_headers required ctx token ≡ none)
        ↔ All (λ k. has k token.header ≡ true) required
  unfolding check_required_headers
  check_required_headers_iff [] = (λ _. tt, λ _. refl)
  check_required_headers_iff (k ∷ required) = ground (arith, check_required_headers_iff required)

  header_verdict_iff :
      (same : Same F) (want : Value F) (o : Option (Value F))
      → (header_verdict same want o ≡ none)
        ↔ ((got : Value F) × (o ≡ some got) × (same got want ≡ true))
  header_verdict_iff same want none = (λ h. cc, λ (g, e, h). cc)
  header_verdict_iff same want (some got) =
      (λ h. (got, refl, ground arith), λ (g, e, h). ground arith)

  -- CheckRequiredHeaderValues passes exactly if the token's header holds, under each wanted name,
  -- a value that compares as the wanted one.
  pub check_required_header_values_iff :
      (same : Same F) (required : Dict (Value F))
      → (check_required_header_values same required ctx token ≡ none)
        ↔ All (Holds same token.header) required
  unfolding check_required_header_values
  check_required_header_values_iff same [] = (λ _. tt, λ _. refl)
  check_required_header_values_iff same ((k, want) ∷ required) =
      let here = header_verdict_iff same want (lookup k token.header) in
      let there = check_required_header_values_iff same required in
      (
        λ h.
            let (a, b) = (and_then_iff (header_verdict same want (lookup k token.header)) _).0 h in
            (here.0 a, there.0 b),
        λ (a, b). (and_then_iff _ _).1 (here.1 a, there.1 b),
      )
