-- ===== src/TokenReview/Asked.antt =====
-- What the options of the TokenReview handler ask for, all together.
use mathlib.Core.List.{append_assoc, append-nil}
use jwtmint.Prelude.{String, ◌≡◌, refl, ◌∙◌, Option, none, some, List, [], ◌∷◌, ◌++◌}
use jwtmint.Claims.Checks.{CheckFunc}
use jwtmint.Verification.Base.{TokenCheckFunc}
use jwtmint.TokenReview.Users.{UserInfoMapper}
use jwtmint.TokenReview.{
  Config, Opt, with_check, with_claims_check, with_user_info_mapper, with_audiences, apply_opt,
  apply_opts, apply_to,
}

module _ {F : Type 0} where
  abbrev pub asked_checks : List (Opt F) → List (Option (TokenCheckFunc F))
  asked_checks [] = []
  asked_checks (with_check cs ∷ opts) = cs ++ asked_checks opts
  asked_checks (_ ∷ opts) = asked_checks opts

  abbrev pub asked_claims_checks : List (Opt F) → List (Option (CheckFunc F))
  asked_claims_checks [] = []
  asked_claims_checks (with_claims_check cs ∷ opts) = cs ++ asked_claims_checks opts
  asked_claims_checks (_ ∷ opts) = asked_claims_checks opts

  abbrev pub asked_audiences : List (Opt F) → List String
  asked_audiences [] = []
  asked_audiences (with_audiences auds ∷ opts) = auds ++ asked_audiences opts
  asked_audiences (_ ∷ opts) = asked_audiences opts

  -- The last mapper that is given, and else the one from the start.
  abbrev pub asked_mapper : UserInfoMapper F → List (Opt F) → UserInfoMapper F
  asked_mapper m [] = m
  asked_mapper m (with_user_info_mapper (some f) ∷ opts) = asked_mapper f opts
  asked_mapper m (_ ∷ opts) = asked_mapper m opts

  abbrev pub asked : UserInfoMapper F → List (Opt F) → Config F
  asked m opts = record {
    extra = asked_checks opts;
    claims_checks = asked_claims_checks opts;
    mapper = asked_mapper m opts;
    audiences = asked_audiences opts;
  }

  abbrev joined : Config F → List (Opt F) → Config F
  joined c opts = record {
    extra = c.extra ++ asked_checks opts;
    claims_checks = c.claims_checks ++ asked_claims_checks opts;
    mapper = asked_mapper c.mapper opts;
    audiences = c.audiences ++ asked_audiences opts;
  }

  apply_opts-joined : (opts : List (Opt F)) (c : Config F) → apply_opts opts c ≡ joined c opts
  unfolding apply_opts apply_opt
  apply_opts-joined [] c =
      rw (append-nil c.extra, append-nil c.claims_checks, append-nil c.audiences) refl
  apply_opts-joined (with_check cs ∷ opts) c =
      apply_opts-joined opts (record c { extra = c.extra ++ cs })
      ∙ (rw (append_assoc c.extra cs (asked_checks opts)) refl)
  apply_opts-joined (with_claims_check cs ∷ opts) c =
      apply_opts-joined opts (record c { claims_checks = c.claims_checks ++ cs })
      ∙ (rw (append_assoc c.claims_checks cs (asked_claims_checks opts)) refl)
  apply_opts-joined (with_user_info_mapper none ∷ opts) c = apply_opts-joined opts c
  apply_opts-joined (with_user_info_mapper (some f) ∷ opts) c =
      apply_opts-joined opts (record c { mapper = f })
  apply_opts-joined (with_audiences auds ∷ opts) c =
      apply_opts-joined opts (record c { audiences = c.audiences ++ auds })
      ∙ (rw (append_assoc c.audiences auds (asked_audiences opts)) refl)

  pub apply_to-asked : (m : UserInfoMapper F) (opts : List (Opt F)) → apply_to m opts ≡ asked m opts
  unfolding apply_to
  apply_to-asked m opts =
      apply_opts-joined opts (record { extra = []; claims_checks = []; mapper = m; audiences = [] })
