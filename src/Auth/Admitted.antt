-- ===== src/Auth/Admitted.antt =====
-- What a handler behind the HTTP middleware, the gRPC interceptors or a webhook may rely on: the
-- verifier that authenticates them is one of NewVerifier.
use jwtmint.Prelude.{String, ◌≡◌, ◌++◌, List, Option, some}
use jwtmint.Errors.{ok}
use jwtmint.Claims.Checks.{Context, CheckFunc}
use jwtmint.Claims.Checks.Laws.{AllPass}
use jwtmint.Token.{Token, Method, PublicKey}
use jwtmint.Verification.Base.{TokenCheckFunc, Parser, Verifier}
use jwtmint.Verification.Base.Laws.{Passed}
use jwtmint.Verification.Options.{Opt}
use jwtmint.Verification.Single.{new_verifier}
use jwtmint.Verification.Single.Laws.{ParserLaws, new_verifier_sound}
use jwtmint.Verification.Options.Laws.{all_added}
use jwtmint.Auth.Bearer.{attached_of}
use jwtmint.Auth.Checked.{merged, Passed-append, Passed-merged}

-- What a handler behind the middleware may rely on.
pub record Admitted {F : Type 0} (Signed : PublicKey → String → Token F → Type 0) (key : PublicKey)
    (options : List (Opt F)) (checks : List (Option (TokenCheckFunc F)))
    (claims : List (Option (CheckFunc F))) (ctx : Context) (text : String) (tok : Token F)
    : Type 0 where
  pub signed : Signed key text tok
  pub options_passed : Passed ctx tok (all_added options)
  pub checks_passed : Passed ctx tok checks
  pub claims_passed : AllPass ctx (attached_of tok).claims claims

module _ {F : Type 0} (parser : Parser F) (Signed : PublicKey → String → Token F → Type 0)
    (laws : ParserLaws parser Signed) where
  pub verified-Admitted :
      (m : Method) (key : PublicKey) (options : List (Opt F)) (v : Verifier F)
      (checks : List (Option (TokenCheckFunc F))) (claims : List (Option (CheckFunc F)))
      (ctx : Context) (text : String) (tok : Token F)
      → new_verifier parser (some m) (some key) options ≡ ok v
      → v ctx text (checks ++ merged claims) ≡ ok tok
      → Admitted Signed key options checks claims ctx text tok
  verified-Admitted m key options v checks claims ctx text tok built accepted =
      let (live, alg, family, signed, static_ok, extra_ok) =
        new_verifier_sound parser Signed laws m key options v ctx text (checks ++ merged claims) tok
          built accepted in
      let (passed, pass) = Passed-append ctx tok checks (merged claims) extra_ok in
      record {
        signed = signed;
        options_passed = static_ok;
        checks_passed = passed;
        claims_passed = Passed-merged ctx tok claims pass;
      }
