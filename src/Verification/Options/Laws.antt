-- ===== src/Verification/Options/Laws.antt =====
-- What the options make of a verifier.
use mathlib.Core.List.{append_assoc, append-nil}
use jwtmint.Prelude.{
  String, ◌≡◌, refl, sym, ◌∙◌, ap, false, Option, none, some, List, [], ◌∷◌, ◌++◌, arith,
}
use jwtmint.Errors.{ok, >>=-eq-ok}
use jwtmint.Claims.Checks.{Context}
use jwtmint.Token.{Token}
use jwtmint.Revocation.{Revoker}
use jwtmint.Verification.Base.{TokenCheckFunc, VerifierBase}
use jwtmint.Verification.Options.{
  Opt, with_static_checks, with_leeway, without_registered_claims_validation, with_revoker,
  revoker_check, apply_opt, apply_all, apply_opts,
}

module _ {F : Type 0} where
  -- The static checks that an option adds.
  abbrev pub added : Opt F → List (Option (TokenCheckFunc F))
  added (with_static_checks checks) = checks
  added (with_revoker (some r)) = some (revoker_check r) ∷ []
  added _ = []

  abbrev pub all_added : List (Opt F) → List (Option (TokenCheckFunc F))
  all_added [] = []
  all_added (opt ∷ opts) = added opt ++ all_added opts

  apply_opt-static :
      (opt : Opt F) (b b' : VerifierBase F)
      → apply_opt opt b ≡ ok b'
      → b'.static_check ≡ b.static_check ++ added opt
  unfolding apply_opt
  apply_opt-static (with_static_checks checks) b b' h = ground arith
  apply_opt-static (with_leeway d) b b' h = rw append-nil (ground arith)
  apply_opt-static without_registered_claims_validation b b' h = rw append-nil (ground arith)
  apply_opt-static (with_revoker none) b b' h = cc
  apply_opt-static (with_revoker (some r)) b b' h = ground arith

  apply_opt-algs :
      (opt : Opt F) (b b' : VerifierBase F) → apply_opt opt b ≡ ok b' → b'.algs ≡ b.algs
  unfolding apply_opt
  apply_opt-algs (with_static_checks checks) b b' h = ground arith
  apply_opt-algs (with_leeway d) b b' h = ground arith
  apply_opt-algs without_registered_claims_validation b b' h = ground arith
  apply_opt-algs (with_revoker none) b b' h = cc
  apply_opt-algs (with_revoker (some r)) b b' h = ground arith

  apply_all_lem :
      (opts : List (Opt F)) (b b' : VerifierBase F)
      → apply_all opts b ≡ ok b'
      → (b'.static_check ≡ b.static_check ++ all_added opts) × (b'.algs ≡ b.algs)
  unfolding apply_all
  apply_all_lem [] b b' h = rw append-nil (ground arith)
  apply_all_lem (opt ∷ opts) b b' h =
      let (c, p, q) = >>=-eq-ok (apply_opt opt b) (apply_all opts) h in
      let (checks, algs) = apply_all_lem opts c b' q in
      (
        checks
            ∙ ap (λ l. l ++ all_added opts) (apply_opt-static opt b c p)
            ∙ append_assoc b.static_check (added opt) (all_added opts),
        algs ∙ apply_opt-algs opt b c p,
      )

  -- Options that apply leave the accepted algorithms as they are and make the static checks those
  -- of all options in their order.
  pub apply_opts_lem :
      (algs : List String) (opts : List (Opt F)) (b : VerifierBase F)
      → apply_opts algs opts ≡ ok b
      → (b.static_check ≡ all_added opts) × (b.algs ≡ algs)
  unfolding apply_opts
  apply_opts_lem algs opts b h = apply_all_lem opts _ b h

  all_added-append : (xs ys : List (Opt F)) → all_added (xs ++ ys) ≡ all_added xs ++ all_added ys
  all_added-append [] ys = refl
  all_added-append (opt ∷ xs) ys =
      ap (λ l. added opt ++ l) (all_added-append xs ys)
      ∙ sym (append_assoc (added opt) (all_added xs) (all_added ys))

  -- The check of a revoker stands among the static checks, whatever options surround it.
  pub revoker_registered :
      (algs : List String) (front : List (Opt F)) (r : Revoker F) (back : List (Opt F))
      (b : VerifierBase F)
      → apply_opts algs (front ++ with_revoker (some r) ∷ back) ≡ ok b
      → b.static_check ≡ all_added front ++ some (revoker_check r) ∷ all_added back
  revoker_registered algs front r back b h =
      (apply_opts_lem algs (front ++ with_revoker (some r) ∷ back) b h).0
      ∙ all_added-append front (with_revoker (some r) ∷ back)

  pub revoker_check-none :
      (r : Revoker F) (ctx : Context) (token : Token F)
      → revoker_check r ctx token ≡ none
      → r ctx (some token) ≡ ok false
  unfolding revoker_check
  revoker_check-none r ctx token h = ground arith
