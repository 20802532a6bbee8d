-- ===== src/TokenReview.antt =====
-- k8s/tokenreview/tokenreview.go: the webhook that reviews tokens. A panic is `none`; the body is what
-- the decoder makes of it, none if it does not decode or is too long. The handler here is that of one
-- request at a time, Sharing has the array that several share.
pub mod Users
pub mod Asked
pub mod Laws
pub mod Sharing
use jwtmint.Prelude.{
  ℕ, String, Bool, true, false, Option, none, some, List, [], ◌∷◌, ◌++◌, is_empty, if◌then◌else◌,
}
use jwtmint.Text.{is_blank}
use jwtmint.Errors.{Result, ok, err}
use jwtmint.Claims.Value.{Claims, Host}
use jwtmint.Claims.Copy.{to_map_claims}
use jwtmint.Claims.Checks.{Context, CheckFunc, check_audience}
use jwtmint.Token.{Token}
use jwtmint.Verification.Base.{TokenCheckFunc, Verifier}
use jwtmint.Verification.Checks.{check_claims}
use jwtmint.TokenReview.Users.{UserInfo, UserInfoMapper, default_user_info_mapper}

-- tokenreview.config
pub record Config (F : Type 0) : Type 0 where
  pub extra : List (Option (TokenCheckFunc F))
  pub claims_checks : List (Option (CheckFunc F))
  pub mapper : UserInfoMapper F
  pub audiences : List String

-- tokenreview.Opt: a function on a type that is not exported, so one of these.
pub data Opt (F : Type 0) : Type 0 where
  with_check : List (Option (TokenCheckFunc F)) → Opt F
  with_claims_check : List (Option (CheckFunc F)) → Opt F
  with_user_info_mapper : Option (UserInfoMapper F) → Opt F
  with_audiences : List String → Opt F

-- The fields of an authnv1.TokenReview that the handler reads.
pub record Review : Type 0 where
  pub token : String
  pub audiences : List String

-- What is written: the code and the status of the review. The token is not echoed.
pub record Reply : Type 0 where
  pub code : ℕ
  pub authenticated : Bool
  pub user : Option UserInfo
  pub audiences : List String

-- tokenreview.deniedReview, written with a code
abbrev pub denied : ℕ → Reply
denied code = record { code = code; authenticated = false; user = none; audiences = [] }

-- `respAudiences`
abbrev pub echoed : List String → List String → List String
echoed [] configured = configured
echoed (a ∷ requested) configured = a ∷ requested

module _ {F : Type 0} where
  -- The function that an Opt is.
  unfoldable pub apply_opt : Opt F → Config F → Config F
  apply_opt (with_check checks) c = record c { extra = c.extra ++ checks }
  apply_opt (with_claims_check checks) c = record c { claims_checks = c.claims_checks ++ checks }
  apply_opt (with_user_info_mapper none) c = c
  apply_opt (with_user_info_mapper (some m)) c = record c { mapper = m }
  apply_opt (with_audiences audiences) c = record c { audiences = c.audiences ++ audiences }

  -- The loop over the options.
  unfoldable pub apply_opts : List (Opt F) → Config F → Config F
  apply_opts [] c = c
  apply_opts (opt ∷ opts) c = apply_opts opts (apply_opt opt c)

  -- `verification.CheckClaims(cfg.claimsChecks...)`, if there are any.
  abbrev pub claims_check : List (Option (CheckFunc F)) → List (Option (TokenCheckFunc F))
  claims_check [] = []
  claims_check (f ∷ checks) = some (check_claims (f ∷ checks)) ∷ []

  -- `verification.CheckClaims(claims.CheckAudience(audiences...))`, if there are any.
  abbrev pub audience_check : List String → List (Option (TokenCheckFunc F))
  audience_check [] = []
  audience_check (a ∷ audiences) =
      some (check_claims (some (check_audience (a ∷ audiences)) ∷ [])) ∷ []

  -- What Handler does with the options, from the start.
  unfoldable pub apply_to : UserInfoMapper F → List (Opt F) → Config F
  unfolding apply_opt apply_opts
  apply_to mapper opts =
      apply_opts opts (record { extra = []; claims_checks = []; mapper = mapper; audiences = [] })

  -- The checks that are appended to those of the options.
  unfoldable pub close : Config F → Config F
  close c = record c {
    extra = (c.extra ++ claims_check c.claims_checks) ++ audience_check c.audiences;
  }

  -- What is made of the mapper's answer.
  abbrev pub mapped : Config F → Review → Result UserInfo → Reply
  mapped cfg review (err e) = denied 500
  mapped cfg review (ok user) = record {
    code = 200;
    authenticated = true;
    user = some user;
    audiences = echoed review.audiences cfg.audiences;
  }

  abbrev pub converted : Config F → Review → Result (Claims F) → Reply
  converted cfg review (err e) = denied 500
  converted cfg review (ok mc) = mapped cfg review (cfg.mapper mc)

  -- What is made of Verify's answer.
  abbrev pub verified : Config F → Review → Result (Token F) → Reply
  verified cfg review (err e) = denied 200
  verified cfg review (ok tok) = converted cfg review (to_map_claims tok.claims)

  -- The handler behind `extra`, the checks of the request.
  unfoldable pub review_with :
      Verifier F → Config F → Context → Review → List (Option (TokenCheckFunc F)) → Reply
  review_with v cfg ctx review extra = verified cfg review (v ctx review.token extra)

  -- The function that Handler returns.
  unfoldable pub serve : Verifier F → Config F → Context → Option Review → Reply
  unfolding review_with
  serve v cfg ctx none = denied 400
  serve v cfg ctx (some review) =
      if is_blank review.token
      then denied 400
      else review_with v cfg ctx review (cfg.extra ++ audience_check review.audiences)

module _ {F : Type 0} (host : Host F) where
  -- tokenreview.Handler
  unfoldable pub handler :
      Option (Verifier F) → List (Opt F) → Option (Context → Option Review → Reply)
  unfolding apply_to close serve
  handler none opts = none
  handler (some v) opts = some (serve v (close (apply_to (default_user_info_mapper host) opts)))
