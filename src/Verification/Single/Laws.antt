-- ===== src/Verification/Single/Laws.antt =====
-- What a token that a single-key verifier returns has passed.
use jwtmint.Prelude.{
  String, ◌≡◌, refl, sym, ◌∙◌, ap, true, false, Option, none, some, List, [], ◌∷◌, ◌++◌,
}
use jwtmint.Text.{is_blank}
use jwtmint.Errors.{Err, Result, ok, err, ◌>>=◌, map_err, if-eq-ok, invalid_value}
use jwtmint.Claims.Checks.{Context}
use jwtmint.Token.{Method, PublicKey, Token, Keyfunc}
use jwtmint.Time.{Time}
use jwtmint.Keys.{is_supported_family, key_func, public_key_func}
use jwtmint.Keys.Laws.{key_func_sound, public_key_func_sound}
use jwtmint.Revocation.{Revoker}
use jwtmint.Verification.Base.{
  TokenCheckFunc, Parser, ParserConfig, Verifier, VerifierBase, build_parser, verify,
}
use jwtmint.Verification.Base.Laws.{Passed, Passed-middle, verify_iff}
use jwtmint.Verification.Options.{Opt, apply_opts, with_revoker, revoker_check}
use jwtmint.Verification.Options.Laws.{
  all_added, apply_opts_lem, revoker_registered, revoker_check-none,
}
use jwtmint.Verification.Single.{new_verifier}

-- What golang-jwt documents of ParseWithClaims: the signature of a token that it returns was verified
-- with the key that the key function gave for it. `Signed` is that the text carries the token under a
-- signature that the key verifies.
pub record ParserLaws {F : Type 0} (parser : Parser F)
    (Signed : PublicKey → String → Token F → Type 0) : Type 0 where
  pub verified :
      (config : ParserConfig) (now : Time) (text : String) (kf : Keyfunc F) (token : Token F)
      → parser config now text kf ≡ ok token
      → (key : PublicKey) × (kf token ≡ ok key) × Signed key text token

module _ {F : Type 0} (parser : Parser F) where
  build_inv :
      (w : Err → Err) (kf : Result (Keyfunc F)) (base : Result (VerifierBase F)) (v : Verifier F)
      → (map_err w kf >>= λ k. base >>= λ b. ok (verify parser b k)) ≡ ok v
      → (k : Keyfunc F) × (b : VerifierBase F) × (kf ≡ ok k)
        × (base ≡ ok b)
        × (v ≡ verify parser b k)
  build_inv w (err e) base v h = cc
  build_inv w (ok k) (err e) v h = cc
  build_inv w (ok k) (ok b) v h = (k, b, refl, refl, cc)

  -- A verifier that was built is the verify loop over its options and the method's key function.
  pub new_verifier_inv :
      (m : Method) (p : PublicKey) (opts : List (Opt F)) (v : Verifier F)
      → new_verifier parser (some m) (some p) opts ≡ ok v
      → (b : VerifierBase F) × (apply_opts (m.alg ∷ []) opts ≡ ok b)
        × (v ≡ verify parser b (key_func m.alg p))
  unfolding new_verifier
  new_verifier_inv m p opts v h =
      let (live, rest) = if-eq-ok (is_blank m.alg) (invalid_value ∷ []) _ h in
      let (k, b, made, base, same) =
        build_inv (λ e. invalid_value ∷ e) (public_key_func (some m) (some p))
          (apply_opts (m.alg ∷ []) opts) v rest in
      let (m', p', is_m, is_p, supported, named, is_k) =
        public_key_func_sound (some m) (some p) k made in
      let eq_m : m ≡ m' = cc in
      let eq_p : p ≡ p' = cc in
      let eq_k : k ≡ key_func m.alg p = rw (eq_m, eq_p) is_k in
      (b, base, same ∙ ap (verify parser b) eq_k)

module _ {F : Type 0} (parser : Parser F) (Signed : PublicKey → String → Token F → Type 0)
    (laws : ParserLaws parser Signed) where
  -- If golang-jwt verifies signatures with the key that the key function gives, then a token that
  -- a verifier of NewVerifier returns was presented in a live context, has the algorithm of the
  -- verifier's method and a method of a supported family, carries a signature of the verifier's
  -- public key, and has passed every check of the options and of the call.
  pub new_verifier_sound :
      (m : Method) (p : PublicKey) (opts : List (Opt F)) (v : Verifier F) (ctx : Context)
      (signed : String) (extra : List (Option (TokenCheckFunc F))) (token : Token F)
      → new_verifier parser (some m) (some p) opts ≡ ok v
      → v ctx signed extra ≡ ok token
      → (ctx.failed ≡ none)
        × (token.method.alg ≡ m.alg)
        × (is_supported_family token.method.family ≡ true)
        × Signed p signed token
        × Passed ctx token (all_added opts)
        × Passed ctx token extra
  new_verifier_sound m p opts v ctx signed extra token built accepted =
      let (b, base, same) = new_verifier_inv parser m p opts v built in
      let run = ap (λ (f : Verifier F). f ctx signed extra) (sym same) ∙ accepted in
      let (live, text, parsed, static_ok, extra_ok) =
        (verify_iff parser b (key_func m.alg p) ctx signed extra token).0 run in
      let (key, chosen, genuine) =
        laws.verified (build_parser b) ctx.now signed (key_func m.alg p) token parsed in
      let (alg, family, is_p) = key_func_sound m.alg p key token chosen in
      (
        live,
        alg,
        family,
        rw (← is_p) genuine,
        rw (← (apply_opts_lem (m.alg ∷ []) opts b base).0) static_ok,
        extra_ok,
      )

-- A verifier of NewVerifier that was given a revoker, among any other options before and behind
-- it, returns only tokens that the revoker reports as not revoked.
pub new_verifier-revoker :
    {F : Type 0} (parser : Parser F) (m : Method) (p : PublicKey) (front : List (Opt F))
    (r : Revoker F) (back : List (Opt F)) (v : Verifier F) (ctx : Context) (signed : String)
    (extra : List (Option (TokenCheckFunc F))) (token : Token F)
    → new_verifier parser (some m) (some p) (front ++ with_revoker (some r) ∷ back) ≡ ok v
    → v ctx signed extra ≡ ok token
    → r ctx (some token) ≡ ok false
new_verifier-revoker {F} parser m p front r back v ctx signed extra token built accepted =
    let opts = front ++ with_revoker (some r) ∷ back in
    let (b, base, same) = new_verifier_inv parser m p opts v built in
    let run = ap (λ (f : Verifier F). f ctx signed extra) (sym same) ∙ accepted in
    let (live, text, parsed, static_ok, extra_ok) =
      (verify_iff parser b (key_func m.alg p) ctx signed extra token).0 run in
    let registered = revoker_registered (m.alg ∷ []) front r back b base in
    revoker_check-none r ctx token (
      Passed-middle ctx token (all_added front) (revoker_check r) (all_added back)
        (rw (← registered) static_ok))
