-- ===== src/Verification/Options.antt =====
-- verification/opt.go and applyOpts: the options of a verifier. An Opt is a function on a type that is
-- not exported, so it is one of these.
pub mod Laws
use jwtmint.Prelude.{
  pos, ltb_ℤ, String, Bool, true, false, Option, none, some, List, [], ◌∷◌, ◌++◌, if◌then◌else◌,
}
use jwtmint.Errors.{Result, ok, err, Verdict, ◌>>=◌, invalid_value, revoked}
use jwtmint.Time.{Duration}
use jwtmint.Revocation.{Revoker}
use jwtmint.Verification.Base.{TokenCheckFunc, VerifierBase, default_leeway}

pub data Opt (F : Type 0) : Type 0 where
  with_static_checks : List (Option (TokenCheckFunc F)) → Opt F
  with_leeway : Duration → Opt F
  without_registered_claims_validation : Opt F
  with_revoker : Option (Revoker F) → Opt F

-- What the check of WithRevoker makes of the revoker's answer.
abbrev pub revoker_verdict : Result Bool → Verdict
revoker_verdict (err e) = some e
revoker_verdict (ok true) = some (revoked ∷ [])
revoker_verdict (ok false) = none

module _ {F : Type 0} where
  -- The check that WithRevoker registers.
  unfoldable pub revoker_check : Revoker F → TokenCheckFunc F
  revoker_check r ctx token = revoker_verdict (r ctx (some token))

  -- The function that an Opt is.
  unfoldable pub apply_opt : Opt F → VerifierBase F → Result (VerifierBase F)
  apply_opt (with_static_checks checks) b =
      ok (record b { static_check = b.static_check ++ checks })
  apply_opt (with_leeway d) b =
      if ltb_ℤ d (pos 0) then err (invalid_value ∷ []) else ok (record b { leeway = d })
  apply_opt without_registered_claims_validation b = ok (record b { skip_registered_claims = true })
  apply_opt (with_revoker none) b = err (invalid_value ∷ [])
  apply_opt (with_revoker (some r)) b =
      ok (record b { static_check = b.static_check ++ some (revoker_check r) ∷ [] })

  -- The loop of applyOpts.
  unfoldable pub apply_all : List (Opt F) → VerifierBase F → Result (VerifierBase F)
  apply_all [] b = ok b
  apply_all (opt ∷ opts) b = apply_opt opt b >>= apply_all opts

  -- verification.applyOpts
  unfoldable pub apply_opts : List String → List (Opt F) → Result (VerifierBase F)
  apply_opts algs opts = apply_all opts (record {
    static_check = [];
    leeway = default_leeway;
    skip_registered_claims = false;
    algs = algs;
  })
