-- ===== src/Verification/Base.antt =====
-- verification/verification.go: what both verifiers share. The parser of golang-jwt is an argument: it
-- is given its configuration, the wall clock's reading, the text and the key function.
pub mod Laws
use jwtmint.Prelude.{
  pos, ltb_ℤ, String, Bool, Option, none, some, List, [], ◌∷◌, not, if◌then◌else◌,
}
use jwtmint.Text.{is_blank, trim_space}
use jwtmint.Errors.{
  Err, Result, ok, err, Verdict, unless_err, map_err, ◌>>=◌, parse, check, invalid_value,
}
use jwtmint.Time.{Time, Duration, seconds}
use jwtmint.Claims.Checks.{Context, and_then}
use jwtmint.Token.{Token, Keyfunc}

-- verification.TokenCheckFunc; a nil one is `none`.
abbrev pub TokenCheckFunc : Type 0 → Type 0
TokenCheckFunc F = Context → Token F → Verdict

-- verification.Verifier
abbrev pub Verifier : Type 0 → Type 0
Verifier F = Context → String → List (Option (TokenCheckFunc F)) → Result (Token F)

-- The options that buildParser gives to jwt.NewParser; `leeway` is none without WithLeeway.
pub record ParserConfig : Type 0 where
  pub valid_methods : List String
  pub leeway : Option Duration
  pub claims_validation : Bool

-- (*jwt.Parser).ParseWithClaims
abbrev pub Parser : Type 0 → Type 0
Parser F = ParserConfig → Time → String → Keyfunc F → Result (Token F)

-- verification.DefaultLeeway
abbrev pub default_leeway : Duration
default_leeway = seconds 30

-- verification.verifierBase, but for the parser, which `build_parser` gives.
pub record VerifierBase (F : Type 0) : Type 0 where
  pub static_check : List (Option (TokenCheckFunc F))
  pub leeway : Duration
  pub skip_registered_claims : Bool
  pub algs : List String

-- What a caller makes of an error that a check returns.
abbrev pub wrapped : (Err → Err) → Verdict → Verdict
wrapped wrap none = none
wrapped wrap (some e) = some (wrap e)

module _ {F : Type 0} where
  -- (*verifierBase).buildParser
  unfoldable pub build_parser : VerifierBase F → ParserConfig
  build_parser b = record {
    valid_methods = b.algs;
    leeway = if ltb_ℤ (pos 0) b.leeway then some b.leeway else none;
    claims_validation = not b.skip_registered_claims;
  }

  -- A loop over checks, nil ones skipped; `wrap` is what it makes of an error.
  unfoldable pub run_list :
      (Err → Err) → List (Option (TokenCheckFunc F)) → Context → Token F → Verdict
  run_list wrap [] ctx token = none
  run_list wrap (none ∷ checks) ctx token = run_list wrap checks ctx token
  run_list wrap (some f ∷ checks) ctx token =
      and_then (wrapped wrap (f ctx token)) (run_list wrap checks ctx token)

  -- (*verifierBase).runChecks
  unfoldable pub run_checks :
      VerifierBase F → Context → Token F → List (Option (TokenCheckFunc F)) → Verdict
  unfolding run_list
  run_checks b ctx parsed extra =
      and_then (run_list (λ e. check ∷ e) b.static_check ctx parsed)
        (run_list (λ e. check ∷ e) extra ctx parsed)

  -- (*verifier).Verify and (*multiKeyVerifier).Verify, which differ in the key function alone.
  unfoldable pub verify : Parser F → VerifierBase F → Keyfunc F → Verifier F
  unfolding build_parser run_checks
  verify parser b key_func ctx signed extra =
      unless_err ctx.failed (λ e. e)
        (if is_blank (trim_space signed)
          then err (invalid_value ∷ [])
          else (map_err (λ e. parse ∷ e) (parser (build_parser b) ctx.now signed key_func)
              >>= λ parsed. unless_err (run_checks b ctx parsed extra) (λ e. e) (ok parsed)))
