-- ===== src/Auth/GrpcAuth.antt =====
-- middleware/grpcauth/grpcauth.go: the interceptors of a server. A panic is `none`. The metadata of a
-- call has the values of each name; a failure is its status code.
pub mod Laws
use jwtmint.Prelude.{
  String, Bool, true, false, Option, none, some, List, [], ◌∷◌, ◌++◌, is_empty, ◌⊎◌, inl, inr,
  if◌then◌else◌,
}
use jwtmint.Text.{is_blank}
use jwtmint.Errors.{Err, Result, ok, err, is, check}
use jwtmint.Dict.{Dict, lookup}
use jwtmint.Claims.Checks.{Context, CheckFunc}
use jwtmint.Token.{Token}
use jwtmint.Verification.Base.{TokenCheckFunc, Verifier}
use jwtmint.Verification.Checks.{check_claims}
use jwtmint.Auth.Bearer.{bearer_token, Attached, attached_of}

-- The status codes that authorize gives.
pub data Code : Type 0 where
  unauthenticated permission_denied : Code

-- What a call brings: its context, and the incoming metadata, if any.
pub record Call : Type 0 where
  pub context : Context
  pub metadata : Option (Dict (List String))

-- grpcauth.MetadataKeyAuthorization
abbrev pub metadata_key_authorization : String
metadata_key_authorization = "authorization"

-- grpcauth.config
pub record Config (F : Type 0) : Type 0 where
  pub extra : List (Option (TokenCheckFunc F))
  pub claims_checks : List (Option (CheckFunc F))

-- grpcauth.Opt: a function on a type that is not exported, so one of these.
pub data Opt (F : Type 0) : Type 0 where
  with_check : List (Option (TokenCheckFunc F)) → Opt F
  with_claims_check : List (Option (CheckFunc F)) → Opt F

-- What an interceptor makes of a call: a status, or what the handler makes of it.
pub data Reply (F R : Type 0) : Type 0 where
  refused : Code → Reply F R
  handled : R → Reply F R

-- grpcauth.isCheckFailure
unfoldable pub is_check_failure : Err → Bool
is_check_failure e = is e check

abbrev pub values_of : Option (List String) → List String
values_of none = []
values_of (some vs) = vs

-- The code for an error of Verify.
abbrev pub code_of : Bool → Code
code_of true = permission_denied
code_of false = unauthenticated

module _ {F : Type 0} where
  -- The function that an Opt is.
  unfoldable pub apply_opt : Opt F → Config F → Config F
  apply_opt (with_check checks) c = record c { extra = c.extra ++ checks }
  apply_opt (with_claims_check checks) c = record c { claims_checks = c.claims_checks ++ checks }

  -- The loop over the options.
  unfoldable pub apply_opts : List (Opt F) → Config F → Config F
  apply_opts [] c = c
  apply_opts (opt ∷ opts) c = apply_opts opts (apply_opt opt c)

  -- The claim checks as one token check, if there are any.
  unfoldable pub merge_checks : Config F → Config F
  merge_checks c =
      if is_empty c.claims_checks
      then c
      else record c { extra = c.extra ++ some (check_claims c.claims_checks) ∷ [] }

  -- grpcauth.buildConfig
  unfoldable pub build_config : List (Opt F) → Config F
  unfolding apply_opt apply_opts merge_checks
  build_config opts = merge_checks (apply_opts opts (record { extra = []; claims_checks = [] }))

  -- The end of authorize, on what Verify returns.
  abbrev pub verified : Result (Token F) → Attached F ⊎ Code
  verified (ok tok) = inl (attached_of tok)
  verified (err e) = inr (code_of (is_check_failure e))

  -- The part of authorize behind the metadata.
  abbrev pub authorize_values : Verifier F → Config F → Context → List String → Attached F ⊎ Code
  authorize_values v cfg ctx [] = inr unauthenticated
  authorize_values v cfg ctx (authz ∷ rest) =
      if is_blank (bearer_token authz)
      then inr unauthenticated
      else verified (v ctx (bearer_token authz) cfg.extra)

  -- grpcauth.authorize
  abbrev pub authorize_metadata :
      Verifier F → Config F → Context → Option (Dict (List String)) → Attached F ⊎ Code
  authorize_metadata v cfg ctx none = inr unauthenticated
  authorize_metadata v cfg ctx (some md) =
      authorize_values v cfg ctx (values_of (lookup metadata_key_authorization md))

  unfoldable pub authorize : Verifier F → Config F → Call → Attached F ⊎ Code
  unfolding is_check_failure
  authorize v cfg call = authorize_metadata v cfg call.context call.metadata

  -- What both interceptors do with it: the handler is given the new context.
  abbrev pub intercepted :
      {R : Type 0} → (Attached F → Call → R) → Call → Attached F ⊎ Code → Reply F R
  intercepted handler call (inr c) = refused c
  intercepted handler call (inl a) = handled (handler a call)

  -- grpcauth.UnaryServerInterceptor, and grpcauth.StreamServerInterceptor, whose call is a stream.
  unfoldable pub server_interceptor :
      {R : Type 0}
      → Option (Verifier F)
      → List (Opt F)
      → Option ((Attached F → Call → R) → Call → Reply F R)
  unfolding build_config authorize
  server_interceptor none opts = none
  server_interceptor (some v) opts =
      some (λ handler call. intercepted handler call (authorize v (build_config opts) call))
