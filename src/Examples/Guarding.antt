-- ===== src/Examples/Guarding.antt =====
-- The middleware, the interceptors and the review of tokens on concrete requests.
use jwtmint.Prelude.{ℤ, String, ◌≡◌, ◌⊎◌, refl, true, false, some, List, [], ◌∷◌, if◌then◌else◌}
use jwtmint.Text.{is_blank, trim_space, trim_left, trim_right, strip_prefix}
use jwtmint.Errors.{Err, ok, err, is, check, invalid_value}
use jwtmint.Dict.{lookup, has}
use jwtmint.Claims.Checks.{Context, CheckFunc, check_required_keys, chain}
use jwtmint.Token.{Token}
use jwtmint.Keys.{key_func, public_key_func, is_supported_key, is_supported_family}
use jwtmint.Verification.Base.{
  Verifier, VerifierBase, TokenCheckFunc, default_leeway, verify, build_parser, run_checks,
  run_list,
}
use jwtmint.Verification.Options
use jwtmint.Verification.Options.{apply_opts, apply_all, apply_opt}
use jwtmint.Verification.Checks.{check_required_headers, check_claims}
use jwtmint.Verification.Single.{new_verifier}
use jwtmint.Claims.Copy.{to_map_claims}
use jwtmint.Auth.Bearer.{bearer_token, Attached, attached_of}
use jwtmint.Auth.Admitted.{Admitted}
use jwtmint.Auth.HttpAuth
use jwtmint.Auth.HttpAuth.{Request, Response, Handler, configure, authorize, serve, handler_func}
use jwtmint.Auth.HttpAuth.Laws as HttpLaws
use jwtmint.Auth.HttpAuth.Laws.{asked, handler_func_sound}
use jwtmint.Auth.GrpcAuth
use jwtmint.Auth.GrpcAuth.{
  Call, Code, unauthenticated, permission_denied, Reply, refused, handled, server_interceptor,
  build_config, intercepted,
}
use jwtmint.Auth.GrpcAuth.Laws as GrpcLaws
use jwtmint.Auth.GrpcAuth.Laws.{metadata_token, server_interceptor_sound}
use jwtmint.Examples.{es256, public_key, ctx, Signed, parser, parser-ParserLaws}

abbrev has_kid : TokenCheckFunc ℤ
has_kid c t = check_required_headers ("kid" ∷ []) c t

abbrev has_subject : CheckFunc ℤ
has_subject c m = check_required_keys ("sub" ∷ []) c m

abbrev pub options : List (Options.Opt ℤ)
options = []

abbrev base : VerifierBase ℤ
base = record {
  static_check = [];
  leeway = default_leeway;
  skip_registered_claims = false;
  algs = "ES256" ∷ [];
}

abbrev pub verifier : Verifier ℤ
verifier = verify parser base (key_func "ES256" public_key)

pub verifier_built : new_verifier parser (some es256) (some public_key) options ≡ ok verifier
unfolding new_verifier public_key_func is_supported_key apply_opts apply_all
verifier_built = refl

abbrev opts : List (HttpAuth.Opt ℤ)
opts =
    HttpAuth.Opt.with_check (some has_kid ∷ [])
    ∷ HttpAuth.Opt.with_claims_check (some has_subject ∷ [])
    ∷ []

abbrev next : Handler ℤ
next a c r = record { status = 200; header = ("X-Claims", "yes") ∷ [] }

abbrev request : Request
request = record { header = ("Authorization", "Bearer a.b.c") ∷ [] }

abbrev handle : Context → Request → Response
handle c r = serve (configure opts) next c r (authorize verifier (configure opts) c r)

handle_built : handler_func (some verifier) next opts ≡ some handle
unfolding handler_func
handle_built = refl

-- The request reaches the handler.
handle_passes : (handle ctx request).status ≡ 200
unfolding authorize configure HttpAuth.default_token_source strip_prefix trim_space trim_left
    trim_right lookup verify build_parser run_checks run_list key_func is_supported_family
    check_required_headers check_claims chain check_required_keys has HttpAuth.get_header
    to_map_claims
handle_passes = refl

handler_func_sound_example :
    ((e : Err) × (((is_blank ((configure opts).token_source request) ≡ true)
          × (e ≡ invalid_value ∷ []))
        ⊎ (asked verifier opts ctx request ≡ err e))
      × (handle ctx request ≡ (configure opts).error_handler request e))
    ⊎ ((tok : Token ℤ) × (asked verifier opts ctx request ≡ ok tok)
        × (handle ctx request ≡ next (attached_of tok) ctx request)
        × Admitted Signed public_key options
            (HttpLaws.token_checks opts)
            (HttpLaws.claim_checks opts)
            ctx
            ((configure opts).token_source request)
            tok)
handler_func_sound_example =
    handler_func_sound parser Signed parser-ParserLaws es256 public_key options verifier next opts
      handle ctx request verifier_built handle_built

abbrev grpc_opts : List (GrpcAuth.Opt ℤ)
grpc_opts = GrpcAuth.Opt.with_check (some has_kid ∷ []) ∷ []

abbrev call : Call
call = record { context = ctx; metadata = some (("authorization", "Bearer a.b.c" ∷ []) ∷ []) }

abbrev interceptor : (Attached ℤ → Call → String) → Call → Reply ℤ String
interceptor handler c =
    intercepted handler c (GrpcAuth.authorize verifier (build_config grpc_opts) c)

interceptor_built : server_interceptor (some verifier) grpc_opts ≡ some interceptor
unfolding server_interceptor
interceptor_built = refl

abbrev answer : Attached ℤ → Call → String
answer a c = "done"

interceptor_passes : interceptor answer call ≡ handled "done"
unfolding GrpcAuth.authorize build_config strip_prefix trim_space trim_left trim_right lookup verify
    build_parser run_checks run_list key_func is_supported_family check_required_headers has
    bearer_token
interceptor_passes = refl

server_interceptor_sound_example :
    ((is_blank (metadata_token call.metadata) ≡ true)
      × (interceptor answer call ≡ refused unauthenticated))
    ⊎ ((e : Err) × (GrpcLaws.asked verifier grpc_opts call ≡ err e)
        × (interceptor answer call
            ≡ refused (if is e check then permission_denied else unauthenticated)))
    ⊎ ((tok : Token ℤ) × (GrpcLaws.asked verifier grpc_opts call ≡ ok tok)
        × (interceptor answer call ≡ handled (answer (attached_of tok) call))
        × Admitted Signed public_key options
            (GrpcLaws.token_checks grpc_opts)
            (GrpcLaws.claim_checks grpc_opts)
            call.context
            (metadata_token call.metadata)
            tok)
server_interceptor_sound_example =
    server_interceptor_sound parser Signed parser-ParserLaws es256 public_key options verifier
      grpc_opts interceptor answer call verifier_built interceptor_built
