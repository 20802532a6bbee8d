-- ===== src/Auth/HttpAuth.antt =====
-- middleware/httpauth/httpauth.go. A panic is `none`. Of a response the status and the headers are
-- modelled; a request's header has its canonical names.
pub mod Laws
use jwtmint.Prelude.{
  ℕ, String, Bool, Option, none, some, List, [], ◌∷◌, ◌++◌, is_empty, if◌then◌else◌,
}
use jwtmint.Text.{is_blank, trim_space, strip_prefix}
use jwtmint.Errors.{Err, Result, ok, err, is, check, invalid_value}
use jwtmint.Dict.{Dict, lookup}
use jwtmint.Claims.Value.{Claims}
use jwtmint.Claims.Checks.{Context, CheckFunc}
use jwtmint.Token.{Token}
use jwtmint.Verification.Base.{TokenCheckFunc, Verifier}
use jwtmint.Verification.Checks.{check_claims}
use jwtmint.Auth.Bearer.{bearer_prefix, trimmed_or_empty, Attached, attached_of}

-- What the package reads of an *http.Request.
pub record Request : Type 0 where
  pub header : Dict String

-- What a handler writes.
pub record Response : Type 0 where
  pub status : ℕ
  pub header : Dict String

-- httpauth.ErrorHandler, and the handlers behind the middleware, which read the context's values.
abbrev pub ErrorHandler : Type 0
ErrorHandler = Request → Err → Response

abbrev pub Handler : Type 0 → Type 0
Handler F = Attached F → Context → Request → Response

-- httpauth.HeaderAuthorization
abbrev pub header_authorization : String
header_authorization = "Authorization"

abbrev pub text_or_nothing : Option String → String
text_or_nothing none = ""
text_or_nothing (some s) = s

-- `r.Header.Get(key)`
unfoldable pub get_header : String → Request → String
unfolding lookup
get_header key r = text_or_nothing (lookup key r.header)

-- httpauth.defaultTokenSource
unfoldable pub default_token_source : Request → String
unfolding get_header strip_prefix trim_space
default_token_source r =
    let authz = get_header header_authorization r in
    if is_blank authz then "" else trimmed_or_empty (strip_prefix bearer_prefix authz)

-- httpauth.defaultErrorHandler
unfoldable pub default_error_handler : ErrorHandler
default_error_handler r e = record {
  status = if is e check then 403 else 401;
  header =
      ("Content-Type", "application/json") ∷ ("WWW-Authenticate", "Bearer realm=\"jwtmint\"") ∷ [];
}

-- httpauth.config
pub record Config (F : Type 0) : Type 0 where
  pub extra : List (Option (TokenCheckFunc F))
  pub claims_checks : List (Option (CheckFunc F))
  pub error_handler : ErrorHandler
  pub token_source : Request → String

-- httpauth.Opt: a function on a type that is not exported, so one of these.
pub data Opt (F : Type 0) : Type 0 where
  with_check : List (Option (TokenCheckFunc F)) → Opt F
  with_claims_check : List (Option (CheckFunc F)) → Opt F
  with_error_handler : Option ErrorHandler → Opt F
  with_token_source : Option (Request → String) → Opt F

module _ {F : Type 0} where
  -- The function that an Opt is.
  unfoldable pub apply_opt : Opt F → Config F → Config F
  apply_opt (with_check checks) c = record c { extra = c.extra ++ checks }
  apply_opt (with_claims_check checks) c = record c { claims_checks = c.claims_checks ++ checks }
  apply_opt (with_error_handler none) c = c
  apply_opt (with_error_handler (some h)) c = record c { error_handler = h }
  apply_opt (with_token_source none) c = c
  apply_opt (with_token_source (some f)) c = record c { token_source = f }

  -- The loop over the options.
  unfoldable pub apply_opts : List (Opt F) → Config F → Config F
  apply_opts [] c = c
  apply_opts (opt ∷ opts) c = apply_opts opts (apply_opt opt c)

  -- The claim checks as one token check, if there are any.
  unfoldable pub merge_checks : Config F → Config F
  merge_checks c =
      if is_empty c.claims_checks
      then c
      else record c { extra = c.extra ++ some (check_claims c.claims_checks) ∷ [] }

  -- The configuration of Middleware.
  unfoldable pub configure : List (Opt F) → Config F
  unfolding apply_opt apply_opts merge_checks
  configure opts = merge_checks (
      apply_opts opts (record {
        extra = [];
        claims_checks = [];
        error_handler = default_error_handler;
        token_source = default_token_source;
      }))

  -- httpauth.authorize
  unfoldable pub authorize : Verifier F → Config F → Context → Request → Result (Token F)
  authorize v cfg ctx r =
      if is_blank (cfg.token_source r)
      then err (invalid_value ∷ [])
      else v ctx (cfg.token_source r) cfg.extra

  -- The end of the handler that Middleware returns.
  abbrev pub serve : Config F → Handler F → Context → Request → Result (Token F) → Response
  serve cfg next ctx r (err e) = cfg.error_handler r e
  serve cfg next ctx r (ok tok) = next (attached_of tok) ctx r

  -- httpauth.Middleware
  unfoldable pub middleware :
      Option (Verifier F) → List (Opt F) → Option (Handler F → Context → Request → Response)
  unfolding configure authorize
  middleware none opts = none
  middleware (some v) opts =
      some (λ next ctx r. serve (configure opts) next ctx r (authorize v (configure opts) ctx r))

  abbrev pub wrapped_by :
      Option (Handler F → Context → Request → Response)
      → Handler F
      → Option (Context → Request → Response)
  wrapped_by none next = none
  wrapped_by (some mw) next = some (mw next)

  -- httpauth.HandlerFunc
  unfoldable pub handler_func :
      Option (Verifier F) → Handler F → List (Opt F) → Option (Context → Request → Response)
  unfolding middleware
  handler_func v next opts = wrapped_by (middleware v opts) next
