-- ===== src/Auth/GrpcAuth/Laws.antt =====
-- Which calls reach the handler behind the interceptors, and the status of the others.
use mathlib.Core.Path.{subst}
use mathlib.Core.Option.{some-injective}
use mathlib.Core.List.{append_assoc, append-nil}
use jwtmint.Prelude.{
  String, ◌≡◌, ◌⊎◌, inl, inr, refl, sym, ap, ◌∙◌, Bool, true, false, Option, none, some, List, [],
  ◌∷◌, ◌++◌, is_empty, if◌then◌else◌,
}
use jwtmint.Text.{is_blank}
use jwtmint.Errors.{Err, Result, ok, err, is, check}
use jwtmint.Dict.{Dict, lookup}
use jwtmint.Claims.Checks.{CheckFunc}
use jwtmint.Token.{Token, Method, PublicKey}
use jwtmint.Verification.Base.{TokenCheckFunc, Parser, Verifier}
use jwtmint.Verification.Options
use jwtmint.Verification.Single.{new_verifier}
use jwtmint.Verification.Single.Laws.{ParserLaws}
use jwtmint.Verification.Checks.{check_claims}
use jwtmint.Auth.Bearer.{bearer_token, Attached, attached_of}
use jwtmint.Auth.Checked.{merged}
use jwtmint.Auth.Admitted.{Admitted, verified-Admitted}
use jwtmint.Auth.GrpcAuth.{
  unauthenticated, permission_denied, Call, Config, Opt, with_check, with_claims_check, Reply,
  refused, handled, metadata_key_authorization, values_of, code_of, is_check_failure, apply_opt,
  apply_opts, merge_checks, build_config, verified, authorize_values, authorize_metadata, authorize,
  intercepted, server_interceptor,
}

-- The bearer token of the first authorization value, blank if there is none.
abbrev pub first_token : List String → String
first_token [] = ""
first_token (authz ∷ rest) = bearer_token authz

abbrev pub metadata_token : Option (Dict (List String)) → String
metadata_token none = ""
metadata_token (some md) = first_token (values_of (lookup metadata_key_authorization md))

module _ {F : Type 0} where
  -- The token checks and the claim checks that the options add.
  abbrev pub token_checks : List (Opt F) → List (Option (TokenCheckFunc F))
  token_checks [] = []
  token_checks (with_check more ∷ opts) = more ++ token_checks opts
  token_checks (with_claims_check _ ∷ opts) = token_checks opts

  abbrev pub claim_checks : List (Opt F) → List (Option (CheckFunc F))
  claim_checks [] = []
  claim_checks (with_check _ ∷ opts) = claim_checks opts
  claim_checks (with_claims_check more ∷ opts) = more ++ claim_checks opts

  added :
      (opts : List (Opt F)) (c : Config F)
      → ((apply_opts opts c).claims_checks ≡ c.claims_checks ++ claim_checks opts)
        × ((apply_opts opts c).extra ≡ c.extra ++ token_checks opts)
  unfolding apply_opts apply_opt
  added [] c = (sym (append-nil c.claims_checks), sym (append-nil c.extra))
  added (with_check more ∷ opts) c =
      let (claims, tokens) = added opts (record c { extra = c.extra ++ more }) in
      (claims, tokens ∙ append_assoc c.extra more (token_checks opts))
  added (with_claims_check more ∷ opts) c =
      let (claims, tokens) = added opts (record c { claims_checks = c.claims_checks ++ more }) in
      (claims ∙ append_assoc c.claims_checks more (claim_checks opts), tokens)

  merged_extra :
      (c : Config F) (checks : List (Option (CheckFunc F)))
      → (if is_empty checks
          then c
          else record c { extra = c.extra ++ some (check_claims checks) ∷ [] }).extra
        ≡ c.extra ++ merged checks
  merged_extra c [] = sym (append-nil c.extra)
  merged_extra c (f ∷ checks) = refl

  build_config-extra :
      (opts : List (Opt F))
      → (build_config opts).extra ≡ token_checks opts ++ merged (claim_checks opts)
  unfolding build_config merge_checks
  build_config-extra opts =
      let start : Config F = record { extra = []; claims_checks = [] } in
      let (claims, tokens) = added opts start in
      merged_extra (apply_opts opts start) (apply_opts opts start).claims_checks
      ∙ ap (λ l. (apply_opts opts start).extra ++ merged l) claims
      ∙ ap (λ l. l ++ merged (claim_checks opts)) tokens

  -- What the verifier is asked: the call's token, under all the checks that the options add.
  abbrev pub asked : Verifier F → List (Opt F) → Call → Result (Token F)
  asked v opts call =
      v call.context (metadata_token call.metadata)
        (token_checks opts ++ merged (claim_checks opts))

  authorize_lem :
      (v : Verifier F) (cfg : Config F) (call : Call)
      → authorize v cfg call ≡ (
          if is_blank (metadata_token call.metadata)
          then inr unauthenticated
          else verified (v call.context (metadata_token call.metadata) cfg.extra))
  unfolding authorize
  authorize_lem v cfg call = by_metadata call.metadata
    where
      by_values :
          (vs : List String)
          → authorize_values v cfg call.context vs ≡ (
              if is_blank (first_token vs)
              then inr unauthenticated
              else verified (v call.context (first_token vs) cfg.extra))
      by_values [] = refl
      by_values (authz ∷ rest) = refl

      by_metadata :
          (md : Option (Dict (List String)))
          → authorize_metadata v cfg call.context md ≡ (
              if is_blank (metadata_token md)
              then inr unauthenticated
              else verified (v call.context (metadata_token md) cfg.extra))
      by_metadata none = refl
      by_metadata (some md) = by_values (values_of (lookup metadata_key_authorization md))

-- What becomes of a call, by the text of its token and what the verifier says.
abbrev Outcome :
    {F R : Type 0}
    → (Token F → Type 0)
    → (Attached F → Call → R)
    → Call
    → String
    → Result (Token F)
    → Reply F R
    → Type 0
Outcome {F} Good handler call text answer reply =
    ((is_blank text ≡ true) × (reply ≡ refused unauthenticated))
    ⊎ ((e : Err) × (answer ≡ err e)
        × (reply ≡ refused (if is e check then permission_denied else unauthenticated)))
    ⊎ ((tok : Token F) × (answer ≡ ok tok)
        × (reply ≡ handled (handler (attached_of tok) call))
        × Good tok)

code_of-if : (b : Bool) → code_of b ≡ (if b then permission_denied else unauthenticated)
code_of-if true = refl
code_of-if false = refl

outcome :
    {F R : Type 0} (Good : Token F → Type 0) (handler : Attached F → Call → R) (call : Call)
    (text : String) (answer : Result (Token F))
    → ((tok : Token F) → answer ≡ ok tok → Good tok)
    → Outcome Good handler call text answer
        (intercepted handler call (if is_blank text then inr unauthenticated else verified answer))
unfolding is_check_failure
outcome Good handler call text answer good = go (is_blank text) answer good refl
  where
    go :
        (b : Bool) (answer : Result (Token _))
        → ((tok : Token _) → answer ≡ ok tok → Good tok)
        → is_blank text ≡ b
        → Outcome Good handler call text answer
            (intercepted handler call (if b then inr unauthenticated else verified answer))
    go true answer good h = inl (h, refl)
    go false (err e) good h = inr (inl (e, refl, ap refused (code_of-if (is e check))))
    go false (ok tok) good h = inr (inr (tok, refl, refl, good tok refl))

module _ {F : Type 0} (parser : Parser F) (Signed : PublicKey → String → Token F → Type 0)
    (laws : ParserLaws parser Signed) where
  -- If golang-jwt verifies signatures with the key that the key function gives, then a handler
  -- behind an interceptor with a verifier of NewVerifier is reached only with a token that is
  -- signed for the verifier's key and has passed all the checks that are configured; a call
  -- without a bearer token gets Unauthenticated, and one that the verifier refuses gets
  -- PermissionDenied if the error wraps ErrCheck and else Unauthenticated.
  pub server_interceptor_sound :
      {R : Type 0} (m : Method) (key : PublicKey) (options : List (Options.Opt F)) (v : Verifier F)
      (opts : List (Opt F)) (interceptor : (Attached F → Call → R) → Call → Reply F R)
      (handler : Attached F → Call → R) (call : Call)
      → new_verifier parser (some m) (some key) options ≡ ok v
      → server_interceptor (some v) opts ≡ some interceptor
      → ((is_blank (metadata_token call.metadata) ≡ true)
          × (interceptor handler call ≡ refused unauthenticated))
        ⊎ ((e : Err) × (asked v opts call ≡ err e)
            × (interceptor handler call
                ≡ refused (if is e check then permission_denied else unauthenticated)))
        ⊎ ((tok : Token F) × (asked v opts call ≡ ok tok)
            × (interceptor handler call ≡ handled (handler (attached_of tok) call))
            × Admitted Signed key options
                (token_checks opts)
                (claim_checks opts)
                call.context
                (metadata_token call.metadata)
                tok)
  unfolding server_interceptor
  server_interceptor_sound m key options v opts interceptor handler call built made =
      let text = metadata_token call.metadata in
      let Good = λ (tok : Token F).
        Admitted Signed key options (token_checks opts) (claim_checks opts) call.context text tok in
      let good = λ (tok : Token F) (h : asked v opts call ≡ ok tok).
        verified-Admitted parser Signed laws m key options v (token_checks opts) (claim_checks opts)
          call.context text tok built h in
      let reply =
        ap (λ o. intercepted handler call o)
          (authorize_lem v (build_config opts) call
            ∙ ap
                (λ l.
                  if is_blank text then inr unauthenticated else verified (v call.context text l))
                (build_config-extra opts)) in
      subst (λ r. Outcome Good handler call text (asked v opts call) r)
        (sym (ap (λ f. f handler call) (sym (some-injective _ _ made)) ∙ reply))
        (outcome Good handler call text (asked v opts call) good)
