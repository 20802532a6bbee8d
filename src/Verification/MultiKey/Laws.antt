-- ===== src/Verification/MultiKey/Laws.antt =====
-- What a token that a multi-key verifier returns has passed.
use jwtmint.Prelude.{
  String, ◌≡◌, refl, sym, ◌∙◌, ap, Bool, true, false, Option, none, some, List, [], ◌∷◌, ◌++◌,
  arith, if◌then◌else◌, inl, inr, eq_iff, ◌==◌, ◌⊎◌, In,
}
use jwtmint.Text.{is_blank}
use jwtmint.Errors.{ok, >>=-eq-ok, if-eq-ok, ok-injective, invalid_value}
use jwtmint.Dict.{Dict, lookup, has, insert}
use jwtmint.Dict.Laws.{lookup-insert, lookup-empty}
use jwtmint.Claims.Value.{Value, str}
use jwtmint.Claims.Checks.{Context}
use jwtmint.Token.{Method, PublicKey, Token}
use jwtmint.Revocation.{Revoker}
use jwtmint.Verification.Base.{TokenCheckFunc, Parser, Verifier, VerifierBase, build_parser, verify}
use jwtmint.Verification.Base.Laws.{Passed, Passed-middle, verify_iff}
use jwtmint.Verification.Options.{Opt, apply_opts, with_revoker, revoker_check}
use jwtmint.Verification.Options.Laws.{
  all_added, apply_opts_lem, revoker_registered, revoker_check-none,
}
use jwtmint.Verification.Single.Laws.{ParserLaws}
use jwtmint.Verification.MultiKey.{
  KeyEntry, Registered, check_present, register, text_or_empty, entry_key, multi_key_func,
  new_multi_key_verifier,
}

-- The entry gives the kid, the method and the key that are registered.
pub record Gives (e : KeyEntry) (kid : String) (r : Registered) : Type 0 where
  pub kid_same : e.kid ≡ kid
  pub method_same : e.method ≡ some r.method
  pub key_same : e.public_key ≡ some r.public_key

check_present_inv :
    (kid : String) (method : Option Method) (key : Option PublicKey) (by_kid : Dict Registered)
    (r : Registered)
    → check_present kid method key by_kid ≡ ok r
    → (method ≡ some r.method) × (key ≡ some r.public_key) × (has kid by_kid ≡ false)
unfolding check_present
check_present_inv kid none key by_kid r h = cc
check_present_inv kid (some m) none by_kid r h = cc
check_present_inv kid (some m) (some k) by_kid r h = ground arith

entry_or_old :
    (b : Bool) (q r : Registered) (o : Option Registered)
    → (if b then some q else o) ≡ some r
    → ((b ≡ true) × (q ≡ r)) ⊎ (o ≡ some r)
entry_or_old true q r o h = inl (refl, cc)
entry_or_old false q r o h = inr h

-- What is registered comes from the entries.
register_sound :
    (es : List KeyEntry) (by_kid d : Dict Registered) (algs algs' : List String) (kid : String)
    (r : Registered)
    → register es by_kid algs ≡ ok (d, algs')
    → lookup kid d ≡ some r
    → (lookup kid by_kid ≡ some r) ⊎ ((e : KeyEntry) × In e es × Gives e kid r)
unfolding register
register_sound [] by_kid d algs algs' kid r h found =
    let same : by_kid ≡ d = ground arith in inl (rw same found)
register_sound (e ∷ es) by_kid d algs algs' kid r h found =
    let (named, rest) = if-eq-ok (is_blank e.kid) (invalid_value ∷ []) _ h in
    let (q, present, more) = >>=-eq-ok (check_present e.kid e.method e.public_key by_kid) _ rest in
    let (is_method, is_key, fresh) =
      check_present_inv e.kid e.method e.public_key by_kid q present in
    elim (register_sound es (insert e.kid q by_kid) d _ algs' kid r more found) [
      | inl old ↦
          elim (entry_or_old (e.kid == kid) q r (lookup kid by_kid) (rw lookup-insert at old)) [
            | inl (same, is_q) ↦ inr (
              e,
              inl refl,
              record {
                kid_same = (eq_iff e.kid kid).0 same;
                method_same = rw (← is_q) is_method;
                key_same = rw (← is_q) is_key;
              },
            )
            | inr older ↦ inl older
          ]
      | inr (e', member, gives) ↦ inr (e', inr member, gives)
    ]

text_or_empty_lem :
    {F : Type 0} (o : Option (Value F))
    → is_blank (text_or_empty o) ≡ false
    → o ≡ some (str (text_or_empty o))
text_or_empty_lem none h = cc
text_or_empty_lem (some (str s)) h = refl
text_or_empty_lem (some _) h = cc

entry_key_sound :
    {F : Type 0} (token : Token F) (key : PublicKey) (o : Option Registered)
    → entry_key token o ≡ ok key
    → (r : Registered) × (o ≡ some r) × (token.method.alg ≡ r.method.alg) × (key ≡ r.public_key)
entry_key_sound token key none h = cc
entry_key_sound token key (some r) h =
    (r, refl, ground (arith, eq_iff token.method.alg r.method.alg), ground arith)

-- The key function gives the key of the entry that the token's kid names, for a token with the
-- entry's algorithm.
multi_key_func_sound :
    {F : Type 0} (entries : Dict Registered) (token : Token F) (key : PublicKey)
    → multi_key_func entries token ≡ ok key
    → (kid : String) × (r : Registered) × (lookup "kid" token.header ≡ some (str kid))
      × (lookup kid entries ≡ some r)
      × (token.method.alg ≡ r.method.alg)
      × (key ≡ r.public_key)
unfolding multi_key_func
multi_key_func_sound entries token key h =
    let (named, rest) =
      if-eq-ok (is_blank (text_or_empty (lookup "kid" token.header))) (invalid_value ∷ []) _ h in
    let (r, registered, alg, same) =
      entry_key_sound token key (lookup (text_or_empty (lookup "kid" token.header)) entries) rest in
    (
      text_or_empty (lookup "kid" token.header),
      r,
      text_or_empty_lem (lookup "kid" token.header) named,
      registered,
      alg,
      same,
    )

module _ {F : Type 0} (parser : Parser F) where
  new_multi_inv :
      (es : List KeyEntry) (opts : List (Opt F)) (v : Verifier F)
      → new_multi_key_verifier parser es opts ≡ ok v
      → (d : Dict Registered) × (algs : List String) × (b : VerifierBase F) × (register es [] []
          ≡ ok (d, algs))
        × (apply_opts algs opts ≡ ok b)
        × (v ≡ verify parser b (multi_key_func d))
  unfolding new_multi_key_verifier
  new_multi_inv [] opts v h = cc
  new_multi_inv (e ∷ es) opts v h =
      let ((d, algs), registered, rest) = >>=-eq-ok (register (e ∷ es) [] []) _ h in
      let (b, base, made) = >>=-eq-ok (apply_opts algs opts) _ rest in
      (d, algs, b, registered, base, sym (ok-injective made))

module _ {F : Type 0} (parser : Parser F) (Signed : PublicKey → String → Token F → Type 0)
    (laws : ParserLaws parser Signed) where
  -- If golang-jwt verifies signatures with the key that the key function gives, then a token that
  -- a verifier of NewMultiKeyVerifier returns names one of the entries by its kid header, has
  -- that entry's algorithm, carries a signature of that entry's key, and has passed every check
  -- of the options and of the call.
  pub new_multi_key_verifier_sound :
      (entries : List KeyEntry) (opts : List (Opt F)) (v : Verifier F) (ctx : Context)
      (signed : String) (extra : List (Option (TokenCheckFunc F))) (token : Token F)
      → new_multi_key_verifier parser entries opts ≡ ok v
      → v ctx signed extra ≡ ok token
      → (e : KeyEntry) × (r : Registered) × (kid : String) × In e entries
        × Gives e kid r
        × (lookup "kid" token.header ≡ some (str kid))
        × (token.method.alg ≡ r.method.alg)
        × Signed r.public_key signed token
        × Passed ctx token (all_added opts)
        × Passed ctx token extra
  new_multi_key_verifier_sound entries opts v ctx signed extra token built accepted =
      let (d, algs, b, registered, base, same) = new_multi_inv parser entries opts v built in
      let run = ap (λ (f : Verifier F). f ctx signed extra) (sym same) ∙ accepted in
      let (live, text, parsed, static_ok, extra_ok) =
        (verify_iff parser b (multi_key_func d) ctx signed extra token).0 run in
      let (key, chosen, genuine) =
        laws.verified (build_parser b) ctx.now signed (multi_key_func d) token parsed in
      let (kid, r, header, found, alg, is_key) = multi_key_func_sound d token key chosen in
      elim (register_sound entries [] d [] algs kid r registered found) [
        | inl old ↦ absurd (lookup-empty kid r old)
        | inr (e, member, gives) ↦ (
          e,
          r,
          kid,
          member,
          gives,
          header,
          alg,
          rw (← is_key) genuine,
          rw (← (apply_opts_lem algs opts b base).0) static_ok,
          extra_ok,
        )
      ]

-- A verifier of NewMultiKeyVerifier that was given a revoker, among any other options before and
-- behind it, returns only tokens that the revoker reports as not revoked.
pub new_multi_key_verifier-revoker :
    {F : Type 0} (parser : Parser F) (entries : List KeyEntry) (front : List (Opt F))
    (r : Revoker F) (back : List (Opt F)) (v : Verifier F) (ctx : Context) (signed : String)
    (extra : List (Option (TokenCheckFunc F))) (token : Token F)
    → new_multi_key_verifier parser entries (front ++ with_revoker (some r) ∷ back) ≡ ok v
    → v ctx signed extra ≡ ok token
    → r ctx (some token) ≡ ok false
new_multi_key_verifier-revoker {F} parser entries front r back v ctx signed extra token built ok_v =
    let opts = front ++ with_revoker (some r) ∷ back in
    let (d, algs, b, registered, base, same) = new_multi_inv parser entries opts v built in
    let run = ap (λ (f : Verifier F). f ctx signed extra) (sym same) ∙ ok_v in
    let (live, text, parsed, static_ok, extra_ok) =
      (verify_iff parser b (multi_key_func d) ctx signed extra token).0 run in
    revoker_check-none r ctx token (
      Passed-middle ctx token (all_added front) (revoker_check r) (all_added back)
        (rw (← revoker_registered algs front r back b base) static_ok))
