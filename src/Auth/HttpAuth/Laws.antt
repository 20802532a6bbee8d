-- ===== src/Auth/HttpAuth/Laws.antt =====
-- Which requests reach the handler behind the middleware.
use mathlib.Core.Path.{subst}
use mathlib.Core.Option.{some-injective}
use mathlib.Core.List.{append_assoc, append-nil}
use jwtmint.Prelude.{
  String, ◌≡◌, ◌⊎◌, inl, inr, refl, sym, ap, ◌∙◌, Bool, true, false, Option, none, some, List, [],
  ◌∷◌, ◌++◌, is_empty, if◌then◌else◌,
}
use jwtmint.Text.{is_blank}
use jwtmint.Errors.{Err, Result, ok, err, if-eq-ok, invalid_value}
use jwtmint.Claims.Checks.{Context, CheckFunc}
use jwtmint.Token.{Token, Method, PublicKey}
use jwtmint.Verification.Base.{TokenCheckFunc, Parser, Verifier}
use jwtmint.Verification.Options
use jwtmint.Verification.Single.{new_verifier}
use jwtmint.Verification.Single.Laws.{ParserLaws}
use jwtmint.Verification.Checks.{check_claims}
use jwtmint.Auth.Bearer.{attached_of}
use jwtmint.Auth.Checked.{merged}
use jwtmint.Auth.Admitted.{Admitted, verified-Admitted}
use jwtmint.Auth.HttpAuth.{
  Request, Response, Handler, Config, Opt, with_check, with_claims_check, with_error_handler,
  with_token_source, default_error_handler, default_token_source, apply_opt, apply_opts,
  merge_checks, configure, authorize, serve, handler_func,
}

module _ {F : Type 0} where
  -- The token checks and the claim checks that the options add.
  abbrev pub token_checks : List (Opt F) → List (Option (TokenCheckFunc F))
  token_checks [] = []
  token_checks (with_check cs ∷ opts) = cs ++ token_checks opts
  token_checks (_ ∷ opts) = token_checks opts

  abbrev pub claim_checks : List (Opt F) → List (Option (CheckFunc F))
  claim_checks [] = []
  claim_checks (with_claims_check cs ∷ opts) = cs ++ claim_checks opts
  claim_checks (_ ∷ opts) = claim_checks opts

  apply_opts-checks :
      (opts : List (Opt F)) (c : Config F)
      → ((apply_opts opts c).extra ≡ c.extra ++ token_checks opts)
        × ((apply_opts opts c).claims_checks ≡ c.claims_checks ++ claim_checks opts)
  unfolding apply_opts apply_opt
  apply_opts-checks [] c = (sym (append-nil c.extra), sym (append-nil c.claims_checks))
  apply_opts-checks (with_check cs ∷ opts) c =
      let (a, b) = apply_opts-checks opts (record c { extra = c.extra ++ cs }) in
      (a ∙ append_assoc c.extra cs (token_checks opts), b)
  apply_opts-checks (with_claims_check cs ∷ opts) c =
      let (a, b) = apply_opts-checks opts (record c { claims_checks = c.claims_checks ++ cs }) in
      (a, b ∙ append_assoc c.claims_checks cs (claim_checks opts))
  apply_opts-checks (with_error_handler none ∷ opts) c = apply_opts-checks opts c
  apply_opts-checks (with_error_handler (some h) ∷ opts) c =
      apply_opts-checks opts (record c { error_handler = h })
  apply_opts-checks (with_token_source none ∷ opts) c = apply_opts-checks opts c
  apply_opts-checks (with_token_source (some f) ∷ opts) c =
      apply_opts-checks opts (record c { token_source = f })

  merge_checks-extra : (c : Config F) → (merge_checks c).extra ≡ c.extra ++ merged c.claims_checks
  unfolding merge_checks
  merge_checks-extra c = go c.claims_checks
    where
      go :
          (cs : List (Option (CheckFunc F)))
          → (if is_empty cs
              then c
              else record c { extra = c.extra ++ some (check_claims cs) ∷ [] }).extra
            ≡ c.extra ++ merged cs
      go [] = sym (append-nil c.extra)
      go (x ∷ xs) = refl

  configure-extra :
      (opts : List (Opt F))
      → (configure opts).extra ≡ token_checks opts ++ merged (claim_checks opts)
  unfolding configure
  configure-extra opts =
      let start : Config F = record {
        extra = [];
        claims_checks = [];
        error_handler = default_error_handler;
        token_source = default_token_source;
      } in
      let (extra, claims) = apply_opts-checks opts start in
      merge_checks-extra (apply_opts opts start)
      ∙ ap (λ l. l ++ merged (apply_opts opts start).claims_checks) extra
      ∙ ap (λ l. token_checks opts ++ merged l) claims

  -- What the verifier is asked: the request's token, under all the checks that the options add.
  abbrev pub asked : Verifier F → List (Opt F) → Context → Request → Result (Token F)
  asked v opts ctx r =
      v ctx ((configure opts).token_source r) (token_checks opts ++ merged (claim_checks opts))

  authorize-eq-ok :
      (v : Verifier F) (opts : List (Opt F)) (ctx : Context) (r : Request) (tok : Token F)
      → authorize v (configure opts) ctx r ≡ ok tok
      → asked v opts ctx r ≡ ok tok
  unfolding authorize
  authorize-eq-ok v opts ctx r tok h =
      let source = (configure opts).token_source r in
      let (given, accepted) = if-eq-ok (is_blank source) (invalid_value ∷ []) _ h in
      subst (λ l. v ctx source l ≡ ok tok) (configure-extra opts) accepted

  if-eq-err :
      (b : Bool) (d e : Err) (m : Result (Token F))
      → (if b then err d else m) ≡ err e
      → ((b ≡ true) × (e ≡ d)) ⊎ (m ≡ err e)
  if-eq-err true d e m h = inl (refl, cc)
  if-eq-err false d e m h = inr h

  authorize-eq-err :
      (v : Verifier F) (opts : List (Opt F)) (ctx : Context) (r : Request) (e : Err)
      → authorize v (configure opts) ctx r ≡ err e
      → ((is_blank ((configure opts).token_source r) ≡ true) × (e ≡ invalid_value ∷ []))
        ⊎ (asked v opts ctx r ≡ err e)
  unfolding authorize
  authorize-eq-err v opts ctx r e h =
      let source = (configure opts).token_source r in
      elim (if-eq-err (is_blank source) (invalid_value ∷ []) e _ h) [
        | inl given ↦ inl given
        | inr failed ↦ inr (subst (λ l. v ctx source l ≡ err e) (configure-extra opts) failed)
      ]

module _ {F : Type 0} (parser : Parser F) (Signed : PublicKey → String → Token F → Type 0)
    (laws : ParserLaws parser Signed) where
  -- What the wrapped handler makes of a request, by what authorize returns.
  abbrev Outcome :
      (options : List (Options.Opt F)) (v : Verifier F) (next : Handler F) (opts : List (Opt F))
      (key : PublicKey) (ctx : Context) (r : Request)
      → Response
      → Type 0
  Outcome options v next opts key ctx r response =
      ((e : Err) × (((is_blank ((configure opts).token_source r) ≡ true) × (e ≡ invalid_value ∷ []))
          ⊎ (asked v opts ctx r ≡ err e))
        × (response ≡ (configure opts).error_handler r e))
      ⊎ ((tok : Token F) × (asked v opts ctx r ≡ ok tok)
          × (response ≡ next (attached_of tok) ctx r)
          × Admitted Signed key options (token_checks opts) (claim_checks opts) ctx
              ((configure opts).token_source r) tok)

  served :
      (m : Method) (key : PublicKey) (options : List (Options.Opt F)) (v : Verifier F)
      (next : Handler F) (opts : List (Opt F)) (ctx : Context) (r : Request)
      (out : Result (Token F))
      → new_verifier parser (some m) (some key) options ≡ ok v
      → authorize v (configure opts) ctx r ≡ out
      → Outcome options v next opts key ctx r (serve (configure opts) next ctx r out)
  served m key options v next opts ctx r (err e) built h =
      inl (e, authorize-eq-err v opts ctx r e h, refl)
  served m key options v next opts ctx r (ok tok) built h =
      let accepted = authorize-eq-ok v opts ctx r tok h in
      inr (
        tok,
        accepted,
        refl,
        verified-Admitted parser Signed laws m key options v (token_checks opts) (claim_checks opts)
            ctx ((configure opts).token_source r) tok built accepted,
      )

  -- If golang-jwt verifies signatures with the key that the key function gives, then a handler
  -- behind the HTTP middleware with a verifier of NewVerifier is reached only with a token that
  -- is signed for the verifier's key and has passed the checks of the verifier's options, every
  -- token check and every claim check of the middleware's; and the reply is the handler's with
  -- that token, or the error handler's with ErrInvalidValue for a request with no token or else
  -- with the verifier's error.
  pub handler_func_sound :
      (m : Method) (key : PublicKey) (options : List (Options.Opt F)) (v : Verifier F)
      (next : Handler F) (opts : List (Opt F)) (handle : Context → Request → Response)
      (ctx : Context) (r : Request)
      → new_verifier parser (some m) (some key) options ≡ ok v
      → handler_func (some v) next opts ≡ some handle
      → ((e : Err) × (((is_blank ((configure opts).token_source r) ≡ true)
              × (e ≡ invalid_value ∷ []))
            ⊎ (asked v opts ctx r ≡ err e))
          × (handle ctx r ≡ (configure opts).error_handler r e))
        ⊎ ((tok : Token F) × (asked v opts ctx r ≡ ok tok)
            × (handle ctx r ≡ next (attached_of tok) ctx r)
            × Admitted Signed key options
                (token_checks opts)
                (claim_checks opts)
                ctx
                ((configure opts).token_source r)
                tok)
  unfolding handler_func
  handler_func_sound m key options v next opts handle ctx r built made =
      subst (λ f. Outcome options v next opts key ctx r (f ctx r)) (some-injective _ _ made)
        (served m key options v next opts ctx r (authorize v (configure opts) ctx r) built refl)
