-- ===== src/Auth/Checked.antt =====
-- The claim checks of a configuration, merged into its token checks.
use mathlib.Core.Path.{subst}
use jwtmint.Prelude.{sym, Option, none, some, List, [], ◌∷◌, ◌++◌}
use jwtmint.Claims.Checks.{Context, CheckFunc}
use jwtmint.Claims.Checks.Laws.{AllPass}
use jwtmint.Token.{Token}
use jwtmint.Verification.Base.{TokenCheckFunc}
use jwtmint.Verification.Base.Laws.{Passed}
use jwtmint.Verification.Checks.{check_claims}
use jwtmint.Verification.Checks.Laws.{check_claims_iff}
use jwtmint.Auth.Bearer.{attached_of, claims_or_nil}

module _ {F : Type 0} where
  -- The claim checks as token checks.
  abbrev pub merged : List (Option (CheckFunc F)) → List (Option (TokenCheckFunc F))
  merged [] = []
  merged (c ∷ cs) = some (check_claims (c ∷ cs)) ∷ []

module _ {F : Type 0} (ctx : Context) (token : Token F) where
  pub Passed-append :
      (xs ys : List (Option (TokenCheckFunc F)))
      → Passed ctx token (xs ++ ys)
      → Passed ctx token xs × Passed ctx token ys
  Passed-append [] ys h = (tt, h)
  Passed-append (none ∷ xs) ys h = Passed-append xs ys h
  Passed-append (some f ∷ xs) ys (e, h) = let (a, b) = Passed-append xs ys h in ((e, a), b)

  -- A token that passes the merged checks has claims that pass each of them, and it is these claims
  -- that a handler is given.
  pub Passed-merged :
      (checks : List (Option (CheckFunc F)))
      → Passed ctx token (merged checks)
      → AllPass ctx (attached_of token).claims checks
  Passed-merged [] h = tt
  Passed-merged (c ∷ cs) (h, rest) =
      let (mc, converted, pass) = (check_claims_iff ctx token (c ∷ cs)).0 h in
      subst (λ r. AllPass ctx (claims_or_nil r) (c ∷ cs)) (sym converted) pass
