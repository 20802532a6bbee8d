-- ===== src/Verification/Base/Laws.antt =====
-- When Verify accepts, and how it fails.
use jwtmint.Prelude.{
  String, ◌≡◌, ◌↔◌, ◌⊎◌, inl, inr, refl, Bool, true, false, Option, none, some, List, [], ◌∷◌, ◌++◌,
  arith, Option-cases, if◌then◌else◌,
}
use jwtmint.Text.{is_blank, trim_space}
use jwtmint.Errors.{
  Err, Result, ok, err, Verdict, is, check, parse, invalid_value, ◌>>=◌, map_err, unless_err,
}
use jwtmint.Claims.Checks.{Context}
use jwtmint.Token.{Token, Keyfunc}
use jwtmint.Verification.Base.{
  TokenCheckFunc, Parser, VerifierBase, build_parser, run_list, run_checks, verify,
}

module _ {F : Type 0} (ctx : Context) (token : Token F) where
  -- Every check that is not nil accepts the token.
  abbrev pub Passed : List (Option (TokenCheckFunc F)) → Type 0
  Passed [] = Unit
  Passed (none ∷ checks) = Passed checks
  Passed (some f ∷ checks) = (f ctx token ≡ none) × Passed checks

  pub run_list_iff :
      (wrap : Err → Err) (checks : List (Option (TokenCheckFunc F)))
      → (run_list wrap checks ctx token ≡ none) ↔ Passed checks
  unfolding run_list
  run_list_iff wrap [] = (λ _. tt, λ _. refl)
  run_list_iff wrap (none ∷ checks) = run_list_iff wrap checks
  run_list_iff wrap (some f ∷ checks) = ground (arith, run_list_iff wrap checks)

  -- A check in the middle of a list that passes has accepted the token.
  pub Passed-middle :
      (front : List (Option (TokenCheckFunc F))) (f : TokenCheckFunc F)
      (back : List (Option (TokenCheckFunc F)))
      → Passed (front ++ some f ∷ back)
      → f ctx token ≡ none
  Passed-middle [] f back (e, h) = e
  Passed-middle (none ∷ front) f back h = Passed-middle front f back h
  Passed-middle (some g ∷ front) f back (e, h) = Passed-middle front f back h

  run_list-check :
      (checks : List (Option (TokenCheckFunc F))) (e : Err)
      → run_list (λ d. check ∷ d) checks ctx token ≡ some e
      → is e check ≡ true
  unfolding run_list
  run_list-check [] e h = cc
  run_list-check (none ∷ checks) e h = run_list-check checks e h
  run_list-check (some f ∷ checks) e h = ground (arith, run_list-check checks e)

  run_checks-check :
      (b : VerifierBase F) (extra : List (Option (TokenCheckFunc F))) (e : Err)
      → run_checks b ctx token extra ≡ some e
      → is e check ≡ true
  unfolding run_checks
  run_checks-check b extra e h =
      ground (arith, run_list-check b.static_check e, run_list-check extra e)

  run_checks_iff :
      (b : VerifierBase F) (extra : List (Option (TokenCheckFunc F)))
      → (run_checks b ctx token extra ≡ none) ↔ (Passed b.static_check × Passed extra)
  unfolding run_checks
  run_checks_iff b extra =
      ground
        (arith, run_list_iff (λ d. check ∷ d) b.static_check, run_list_iff (λ d. check ∷ d) extra)

module _ {F : Type 0} (run : Token F → Verdict) where
  -- The body of Verify over its parts: the context's error, the test on the text, the parser's result.
  abbrev steps : Verdict → Bool → Result (Token F) → Result (Token F)
  steps failed blank parsed =
      unless_err failed (λ e. e)
        (if blank
          then err (invalid_value ∷ [])
          else (map_err (λ e. parse ∷ e) parsed >>= λ t. unless_err (run t) (λ e. e) (ok t)))

  steps_sound :
      (failed : Verdict) (blank : Bool) (parsed : Result (Token F)) (token : Token F)
      → steps failed blank parsed ≡ ok token
      → (failed ≡ none) × (blank ≡ false) × (parsed ≡ ok token) × (run token ≡ none)
  steps_sound (some e) blank parsed token h = cc
  steps_sound none true parsed token h = cc
  steps_sound none false (err e) token h = cc
  steps_sound none false (ok t) token h = elim (Option-cases (run t)) [
    | inl f ↦
        let same : ok t ≡ ok token = rw f at h in
        let eq : t ≡ token = cc in (refl, refl, same, rw (← eq) f)
    | inr (e, f) ↦ let bad : err e ≡ ok token = rw f at h in cc
  ]

  steps_complete :
      (failed : Verdict) (blank : Bool) (parsed : Result (Token F)) (token : Token F)
      → failed ≡ none
      → blank ≡ false
      → parsed ≡ ok token
      → run token ≡ none
      → steps failed blank parsed ≡ ok token
  steps_complete failed blank parsed token f b p r = rw (f, b, p, r) refl

  steps_error :
      (failed : Verdict) (blank : Bool) (parsed : Result (Token F)) (e : Err)
      → steps failed blank parsed ≡ err e
      → (failed ≡ some e)
        ⊎ ((blank ≡ true) × (e ≡ invalid_value ∷ []))
        ⊎ ((d : Err) × (parsed ≡ err d) × (e ≡ parse ∷ d))
        ⊎ ((t : Token F) × (parsed ≡ ok t) × (run t ≡ some e))
  steps_error (some d) blank parsed e h = inl (ground arith)
  steps_error none true parsed e h = inr (inl (refl, ground arith))
  steps_error none false (err d) e h = inr (inr (inl (d, refl, ground arith)))
  steps_error none false (ok t) e h = elim (Option-cases (run t)) [
    | inl f ↦ let bad : ok t ≡ err e = rw f at h in cc
    | inr (d, f) ↦
        let same : (let r : Result (Token F) = err d in r) ≡ err e = rw f at h in
        let eq : d ≡ e = cc in inr (inr (inr (t, refl, rw (← eq) f)))
  ]

module _ {F : Type 0} (parser : Parser F) (b : VerifierBase F) (key_func : Keyfunc F)
    (ctx : Context) (signed : String) (extra : List (Option (TokenCheckFunc F))) where
  -- What it takes for Verify to return a token.
  abbrev pub Accepted : Token F → Type 0
  Accepted token =
      (ctx.failed ≡ none)
      × (is_blank (trim_space signed) ≡ false)
      × (parser (build_parser b) ctx.now signed key_func ≡ ok token)
      × Passed ctx token b.static_check
      × Passed ctx token extra

  -- Verify returns a token exactly if the context is live, the text is not blank, the parser
  -- returns that token, and every static check and every check of the call passes.
  pub verify_iff :
      (token : Token F) → (verify parser b key_func ctx signed extra ≡ ok token) ↔ Accepted token
  unfolding verify
  verify_iff token = (
    λ h.
        let (live, text, parsed, run) =
          steps_sound (λ t. run_checks b ctx t extra) ctx.failed (is_blank (trim_space signed))
            (parser (build_parser b) ctx.now signed key_func) token h in
        let (static_ok, extra_ok) = (run_checks_iff ctx token b extra).0 run in
        (live, text, parsed, static_ok, extra_ok),
    λ (live, text, parsed, static_ok, extra_ok).
        steps_complete (λ t. run_checks b ctx t extra) ctx.failed (is_blank (trim_space signed))
          (parser (build_parser b) ctx.now signed key_func) token live text parsed
          ((run_checks_iff ctx token b extra).1 (static_ok, extra_ok)),
  )

  -- An error of Verify is the context's, or ErrInvalidValue for a blank text, or ErrParse around
  -- the parser's, or, for a token that was parsed, an error that wraps ErrCheck.
  pub verify_error :
      (e : Err)
      → verify parser b key_func ctx signed extra ≡ err e
      → (ctx.failed ≡ some e)
        ⊎ ((is_blank (trim_space signed) ≡ true) × (e ≡ invalid_value ∷ []))
        ⊎ ((d : Err) × (parser (build_parser b) ctx.now signed key_func ≡ err d) × (e ≡ parse ∷ d))
        ⊎ ((t : Token F) × (parser (build_parser b) ctx.now signed key_func ≡ ok t)
            × (is e check ≡ true))
  unfolding verify
  verify_error e h =
      elim (steps_error (λ t. run_checks b ctx t extra) ctx.failed (is_blank (trim_space signed))
        (parser (build_parser b) ctx.now signed key_func) e h) [
          | inl a ↦ inl a
          | inr (inl a) ↦ inr (inl a)
          | inr (inr (inl a)) ↦ inr (inr (inl a))
          | inr (inr (inr (t, parsed, run))) ↦
              inr (inr (inr (t, parsed, run_checks-check ctx t b extra e run)))
        ]
