-- ===== src/Examples/Verifying.antt =====
-- The verifiers on concrete tokens.
use jwtmint.Prelude.{
  ◌==◌, ℤ, String, ◌≡◌, refl, ◌⊎◌, true, false, Option, none, some, List, [], ◌∷◌, ◌++◌, In, ◌↔◌,
}
use jwtmint.Text.{is_blank, trim_space, trim_left, trim_right}
use jwtmint.Errors.{ok, err, parse, check, is, invalid_value}
use jwtmint.Dict.{lookup, has, insert}
use jwtmint.Claims.Value.{str}
use jwtmint.Claims.Checks.{CheckFunc, check_required_keys}
use jwtmint.Token.{Token}
use jwtmint.Keys.{is_supported_family, is_supported_key, key_func, public_key_func}
use jwtmint.Revocation.{Revoker}
use jwtmint.Verification.Base.{
  TokenCheckFunc, Verifier, VerifierBase, default_leeway, build_parser, run_list, run_checks,
  verify,
}
use jwtmint.Verification.Base.Laws.{Passed, Accepted, verify_iff, verify_error}
use jwtmint.Verification.Options.{
  Opt, with_static_checks, with_revoker, revoker_check, apply_opt, apply_all, apply_opts,
}
use jwtmint.Verification.Options.Laws.{all_added}
use jwtmint.Verification.Single.{new_verifier}
use jwtmint.Verification.Single.Laws.{new_verifier_sound, new_verifier-revoker}
use jwtmint.Verification.MultiKey.{
  KeyEntry, Registered, check_present, register, multi_key_func, new_multi_key_verifier,
}
use jwtmint.Verification.MultiKey.Laws.{
  Gives, new_multi_key_verifier_sound, new_multi_key_verifier-revoker,
}
use jwtmint.Verification.Checks.{Same, check_banned_headers, check_required_headers}
use jwtmint.Verification.Middleware.{Middleware}
use jwtmint.Examples.{es256, public_key, ctx, token, text, Signed, parser, parser-ParserLaws}

abbrev has_kid : TokenCheckFunc ℤ
has_kid c t = check_required_headers ("kid" ∷ []) c t

abbrev no_jku : TokenCheckFunc ℤ
no_jku c t = check_banned_headers ("jku" ∷ []) c t

abbrev clean : Revoker ℤ
clean c t = ok false

abbrev front_opts : List (Opt ℤ)
front_opts = with_static_checks (some has_kid ∷ none ∷ []) ∷ []

abbrev opts : List (Opt ℤ)
opts = front_opts ++ with_revoker (some clean) ∷ []

abbrev base : VerifierBase ℤ
base = record {
  static_check = some has_kid ∷ none ∷ some (revoker_check clean) ∷ [];
  leeway = default_leeway;
  skip_registered_claims = false;
  algs = "ES256" ∷ [];
}

abbrev single : Verifier ℤ
single = verify parser base (key_func "ES256" public_key)

abbrev extra : List (Option (TokenCheckFunc ℤ))
extra = some no_jku ∷ []

single_built : new_verifier parser (some es256) (some public_key) opts ≡ ok single
unfolding new_verifier public_key_func is_supported_key apply_opts apply_all apply_opt
single_built = refl

single_accepts : single ctx text extra ≡ ok token
unfolding verify build_parser run_checks run_list key_func is_supported_family
    check_required_headers check_banned_headers revoker_check has lookup trim_space trim_left
    trim_right
single_accepts = refl

new_verifier_sound_example :
    (ctx.failed ≡ none)
    × (token.method.alg ≡ es256.alg)
    × (is_supported_family token.method.family ≡ true)
    × Signed public_key text token
    × Passed ctx token (all_added opts)
    × Passed ctx token extra
new_verifier_sound_example =
    new_verifier_sound parser Signed parser-ParserLaws es256 public_key opts single ctx text extra
      token single_built single_accepts

new_verifier-revoker_example : clean ctx (some token) ≡ ok false
new_verifier-revoker_example =
    new_verifier-revoker parser es256 public_key front_opts clean [] single ctx text extra token
      single_built single_accepts

verify_iff_example :
    (verify parser base (key_func "ES256" public_key) ctx text extra ≡ ok token)
    ↔ Accepted parser base (key_func "ES256" public_key) ctx text extra token
verify_iff_example = verify_iff parser base (key_func "ES256" public_key) ctx text extra token

single_refuses :
    verify parser base (key_func "ES256" public_key) ctx "x" extra ≡ err (parse ∷ parse ∷ [])
unfolding verify build_parser trim_space trim_left trim_right
single_refuses = refl

verify_error_example :
    (ctx.failed ≡ some (parse ∷ parse ∷ []))
    ⊎ ((is_blank (trim_space "x") ≡ true) × (parse ∷ parse ∷ [] ≡ invalid_value ∷ []))
    ⊎ ((d : List _) × (parser (build_parser base) ctx.now "x" (key_func "ES256" public_key) ≡ err d)
        × (parse ∷ parse ∷ [] ≡ parse ∷ d))
    ⊎ ((t : Token ℤ) × (parser (build_parser base) ctx.now "x" (key_func "ES256" public_key) ≡ ok t)
        × (is (parse ∷ parse ∷ []) check ≡ true))
verify_error_example =
    verify_error parser base (key_func "ES256" public_key) ctx "x" extra (parse ∷ parse ∷ [])
      single_refuses

opts_applied : apply_opts ("ES256" ∷ []) opts ≡ ok base
unfolding apply_opts apply_all apply_opt
opts_applied = refl

abbrev entries : List KeyEntry
entries = record { kid = "k1"; method = some es256; public_key = some public_key } ∷ []

abbrev entry : Registered
entry = record { method = es256; public_key = public_key }

abbrev multi : Verifier ℤ
multi = verify parser base (multi_key_func (("k1", entry) ∷ []))

multi_built : new_multi_key_verifier parser entries opts ≡ ok multi
unfolding new_multi_key_verifier register check_present is_supported_key apply_opts apply_all
    apply_opt has lookup insert
multi_built = refl

multi_accepts : multi ctx text extra ≡ ok token
unfolding verify build_parser run_checks run_list multi_key_func check_required_headers
    check_banned_headers revoker_check has lookup trim_space trim_left trim_right
multi_accepts = refl

new_multi_key_verifier_sound_example :
    (e : KeyEntry) × (r : Registered) × (kid : String) × In e entries
    × Gives e kid r
    × (lookup "kid" token.header ≡ some (str kid))
    × (token.method.alg ≡ r.method.alg)
    × Signed r.public_key text token
    × Passed ctx token (all_added opts)
    × Passed ctx token extra
new_multi_key_verifier_sound_example =
    new_multi_key_verifier_sound parser Signed parser-ParserLaws entries opts multi ctx text extra
      token multi_built multi_accepts

new_multi_key_verifier-revoker_example : clean ctx (some token) ≡ ok false
new_multi_key_verifier-revoker_example =
    new_multi_key_verifier-revoker parser entries front_opts clean [] multi ctx text extra token
      multi_built multi_accepts

abbrev claim_checks : List (Option (CheckFunc ℤ))
claim_checks = some (check_required_keys ("sub" ∷ "jti" ∷ [])) ∷ none ∷ []

-- Texts compare as texts.
abbrev same : Same ℤ
same (str s) (str t) = s == t
same _ _ = false

-- Middleware that leaves its name in front.
abbrev outer : Middleware (List String)
outer v = "outer" ∷ v

abbrev inner : Middleware (List String)
inner v = "inner" ∷ v
