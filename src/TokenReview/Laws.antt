-- ===== src/TokenReview/Laws.antt =====
-- Which tokens a TokenReview authenticates.
use mathlib.Core.Path.{subst}
use mathlib.Core.Option.{some-injective}
use jwtmint.Prelude.{
  String, ◌≡◌, refl, sym, ap, ◌∙◌, Bool, true, false, Option, none, some, List, [], ◌∷◌, ◌++◌,
  if◌then◌else◌,
}
use jwtmint.Text.{is_blank}
use jwtmint.Errors.{Result, ok, err}
use jwtmint.Claims.Value.{Claims, Host}
use jwtmint.Claims.Copy.{to_map_claims}
use jwtmint.Claims.Registered.{audience}
use jwtmint.Claims.Matching.Laws.{Lists}
use jwtmint.Claims.Checks.{Context, CheckFunc, check_audience}
use jwtmint.Claims.Checks.Laws.{AllPass, check_audience_iff}
use jwtmint.Token.{Token, Method, PublicKey}
use jwtmint.Verification.Base.{Parser, Verifier}
use jwtmint.Verification.Base.Laws.{Passed}
use jwtmint.Verification.Options
use jwtmint.Verification.Options.Laws.{all_added}
use jwtmint.Verification.Single.{new_verifier}
use jwtmint.Verification.Single.Laws.{ParserLaws, new_verifier_sound}
use jwtmint.Verification.Checks.Laws.{check_claims_iff}
use jwtmint.Auth.Checked.{Passed-append}
use jwtmint.TokenReview.Users.{UserInfo, default_user_info_mapper}
use jwtmint.TokenReview.Asked.{asked, apply_to-asked}
use jwtmint.TokenReview.{
  Config, Opt, Review, Reply, denied, echoed, apply_to, claims_check, audience_check, close, mapped,
  converted, verified, review_with, serve, handler,
}

-- The claims name one of the audiences, if any are asked for.
abbrev pub Names : {F : Type 0} → Claims F → List String → Type 0
Names c [] = Unit
Names c (a ∷ wanted) =
    (have : List String) × (audience c ≡ ok have)
    × (x : String) × Lists (a ∷ wanted) x
    × Lists have x

module _ {F : Type 0} (ctx : Context) (tok : Token F) (c : Claims F)
    (read : to_map_claims tok.claims ≡ ok c) where
  claims_check-AllPass :
      (checks : List (Option (CheckFunc F)))
      → Passed ctx tok (claims_check checks)
      → AllPass ctx c checks
  claims_check-AllPass [] h = tt
  claims_check-AllPass (f ∷ checks) (h, rest) =
      let (d, same, pass) = (check_claims_iff ctx tok (f ∷ checks)).0 h in
      let e : d ≡ c = cc in subst (λ x. AllPass ctx x (f ∷ checks)) e pass

  audience_check-Names :
      (wanted : List String) → Passed ctx tok (audience_check wanted) → Names c wanted
  audience_check-Names [] h = tt
  audience_check-Names (a ∷ wanted) (h, rest) =
      let (d, same, pass) =
        (check_claims_iff ctx tok (some (check_audience (a ∷ wanted)) ∷ [])).0 h in
      let e : d ≡ c = cc in
      (check_audience_iff ctx c (a ∷ wanted)).0
        (subst (λ x. check_audience (a ∷ wanted) ctx x ≡ none) e pass.0)

module _ {F : Type 0} (cfg : Config F) (review : Review) where
  mapped-inv :
      (o : Result UserInfo)
      → (mapped cfg review o).authenticated ≡ true
      → (user : UserInfo) × (o ≡ ok user)
        × ((mapped cfg review o).user ≡ some user)
        × ((mapped cfg review o).audiences ≡ echoed review.audiences cfg.audiences)
  mapped-inv (err e) h = cc
  mapped-inv (ok user) h = (user, refl, refl, refl)

  converted-inv :
      (o : Result (Claims F))
      → (converted cfg review o).authenticated ≡ true
      → (c : Claims F) × (user : UserInfo) × (o ≡ ok c)
        × (cfg.mapper c ≡ ok user)
        × ((converted cfg review o).user ≡ some user)
        × ((converted cfg review o).audiences ≡ echoed review.audiences cfg.audiences)
  converted-inv (err e) h = cc
  converted-inv (ok c) h =
      let (user, is_user, shown, echo) = mapped-inv (cfg.mapper c) h in
      (c, user, refl, is_user, shown, echo)

  verified-inv :
      (o : Result (Token F))
      → (verified cfg review o).authenticated ≡ true
      → (tok : Token F) × (c : Claims F) × (user : UserInfo) × (o ≡ ok tok)
        × (to_map_claims tok.claims ≡ ok c)
        × (cfg.mapper c ≡ ok user)
        × ((verified cfg review o).user ≡ some user)
        × ((verified cfg review o).audiences ≡ echoed review.audiences cfg.audiences)
  verified-inv (err e) h = cc
  verified-inv (ok tok) h =
      let (c, user, is_c, is_user, shown, echo) = converted-inv (to_map_claims tok.claims) h in
      (tok, c, user, refl, is_c, is_user, shown, echo)

  serve-inv :
      (v : Verifier F) (ctx : Context)
      → (serve v cfg ctx (some review)).authenticated ≡ true
      → serve v cfg ctx (some review)
        ≡ verified cfg review (v ctx review.token (cfg.extra ++ audience_check review.audiences))
  unfolding serve
  serve-inv v ctx h = go (is_blank review.token) h
    where
      go :
          (b : Bool)
          → (if b
              then denied 400
              else review_with v cfg ctx review
                  (cfg.extra ++ audience_check review.audiences)).authenticated
            ≡ true
          → (if b
              then denied 400
              else review_with v cfg ctx review (cfg.extra ++ audience_check review.audiences))
            ≡ verified cfg review
                (v ctx review.token (cfg.extra ++ audience_check review.audiences))
      go true h = cc
      go false h = refl

-- What a review that authenticates a token has established, `cfg` being what the options ask for.
pub record Authenticated {F : Type 0} (Signed : PublicKey → String → Token F → Type 0)
    (key : PublicKey) (options : List (Options.Opt F)) (cfg : Config F) (ctx : Context)
    (review : Review) (reply : Reply) : Type 0 where
  pub token : Token F
  pub claims : Claims F
  pub user : UserInfo
  pub signed : Signed key review.token token
  pub options_passed : Passed ctx token (all_added options)
  pub checks_passed : Passed ctx token cfg.extra
  pub converts : to_map_claims token.claims ≡ ok claims
  pub claims_passed : AllPass ctx claims cfg.claims_checks
  pub configured : Names claims cfg.audiences
  pub requested : Names claims review.audiences
  pub mapper_given : cfg.mapper claims ≡ ok user
  pub user_shown : reply.user ≡ some user
  pub audiences_shown : reply.audiences ≡ echoed review.audiences cfg.audiences

module _ {F : Type 0} (host : Host F) (parser : Parser F)
    (Signed : PublicKey → String → Token F → Type 0) (laws : ParserLaws parser Signed) where
  served :
      (m : Method) (key : PublicKey) (options : List (Options.Opt F)) (v : Verifier F)
      (cfg : Config F) (ctx : Context) (review : Review)
      → new_verifier parser (some m) (some key) options ≡ ok v
      → (serve v (close cfg) ctx (some review)).authenticated ≡ true
      → Authenticated Signed key options cfg ctx review (serve v (close cfg) ctx (some review))
  unfolding close
  served m key options v cfg ctx review built h =
      let all_checks = (close cfg).extra ++ audience_check review.audiences in
      let same = serve-inv (close cfg) review v ctx h in
      let (tok, c, user, accepted, is_c, is_user, shown, echo) =
        verified-inv (close cfg) review (v ctx review.token all_checks)
          (ap (λ r. r.authenticated) (sym same) ∙ h) in
      let (live, alg, family, signed, static_ok, passed) =
        new_verifier_sound parser Signed laws m key options v ctx review.token all_checks tok built
          accepted in
      let (front, asked) =
        Passed-append ctx tok (close cfg).extra (audience_check review.audiences) passed in
      let (base, fixed) =
        Passed-append ctx tok (cfg.extra ++ claims_check cfg.claims_checks)
          (audience_check cfg.audiences) front in
      let (extra, claims) = Passed-append ctx tok cfg.extra (claims_check cfg.claims_checks) base in
      record {
        token = tok;
        claims = c;
        user = user;
        signed = signed;
        options_passed = static_ok;
        checks_passed = extra;
        converts = is_c;
        claims_passed = claims_check-AllPass ctx tok c is_c cfg.claims_checks claims;
        configured = audience_check-Names ctx tok c is_c cfg.audiences fixed;
        requested = audience_check-Names ctx tok c is_c review.audiences asked;
        mapper_given = is_user;
        user_shown = ap (λ r. r.user) same ∙ shown;
        audiences_shown = ap (λ r. r.audiences) same ∙ echo;
      }

  -- If golang-jwt verifies signatures with the key that the key function gives, then a token that
  -- the TokenReview handler authenticates, one request at a time, with a verifier of NewVerifier,
  -- is signed for the verifier's key and has passed the checks of the verifier's options and
  -- every token check and claim check that the handler's options list; its claims name one of the
  -- audiences that the options list and one of the requested ones, if there are any, the user in
  -- the reply is what the last mapper of the options, or else the default one, makes of the
  -- claims, and the audiences are the requested or else the listed ones.
  pub handler_sound :
      (m : Method) (key : PublicKey) (options : List (Options.Opt F)) (v : Verifier F)
      (opts : List (Opt F)) (handle : Context → Option Review → Reply) (ctx : Context)
      (review : Review)
      → new_verifier parser (some m) (some key) options ≡ ok v
      → handler host (some v) opts ≡ some handle
      → (handle ctx (some review)).authenticated ≡ true
      → Authenticated Signed key options
          (asked (default_user_info_mapper host) opts)
          ctx
          review
          (handle ctx (some review))
  unfolding handler
  handler_sound m key options v opts handle ctx review built made h =
      let cfg = apply_to (default_user_info_mapper host) opts in
      let same = ap (λ f. f ctx (some review)) (some-injective _ _ made) in
      subst
        (λ asked_cfg.
          Authenticated Signed key options asked_cfg ctx review (handle ctx (some review)))
        (apply_to-asked (default_user_info_mapper host) opts)
        (subst (Authenticated Signed key options cfg ctx review) same
          (served m key options v cfg ctx review built (ap (λ r. r.authenticated) same ∙ h)))
