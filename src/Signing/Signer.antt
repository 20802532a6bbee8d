-- ===== src/Signing/Signer.antt =====
-- signing/signing.go, signing/opt.go, signing/context.go: the signer with its options, and the ways to
-- sign without one.
pub mod Made
pub mod Headers
pub mod Total
pub mod Laws
use jwtmint.Prelude.{
  pos, ltb_ℤ, ◌&&◌, not, String, Bool, Option, none, some, List, [], ◌∷◌, is_empty, if◌then◌else◌,
}
use jwtmint.Text.{is_blank}
use jwtmint.Errors.{
  Result, ok, err, Verdict, unless_err, ◌>>=◌, reserved_header, invalid_value, invalid_param,
}
use jwtmint.Dict.{Dict, has, insert, overlay}
use jwtmint.Time.{Duration, plus}
use jwtmint.Claims.Value.{Value, Claims, Host}
use jwtmint.Claims.Copy.{deep_copy}
use jwtmint.Claims.Registered.{set_expires_at}
use jwtmint.Claims.Checks.{Context}
use jwtmint.Token.{Method, PrivateKey, Token}
use jwtmint.Signing.Method.{validate_method_and_key}
use jwtmint.Signing.Mint.{
  header_key_alg, default_expiration, default_issuer, default_typ, World, sign_with,
}

-- signing.signer
pub record Signer (F : Type 0) : Type 0 where
  pub method : Method
  pub signing_key : PrivateKey
  pub static_headers : Dict (Value F)
  pub static_claims : Claims F
  pub expiration : Duration
  pub issuer : String
  pub typ : String

-- signing.Opt: a function on a type that is not exported, so one of these.
pub data Opt (F : Type 0) : Type 0 where
  with_static_headers : Dict (Value F) → Opt F
  with_static_claims : Claims F → Opt F
  with_default_expiration : Duration → Opt F
  with_default_issuer : String → Opt F
  with_default_typ : String → Opt F

module _ {F : Type 0} where
  -- The function that an Opt is.
  unfoldable pub apply_opt : Opt F → Signer F → Result (Signer F)
  apply_opt (with_static_headers h) s =
      if has header_key_alg h
      then err (reserved_header ∷ [])
      else ok (record s { static_headers = h })
  apply_opt (with_static_claims c) s = ok (record s { static_claims = c })
  apply_opt (with_default_expiration d) s =
      if not (ltb_ℤ (pos 0) d) then err (invalid_value ∷ []) else ok (record s { expiration = d })
  apply_opt (with_default_issuer iss) s =
      if is_blank iss then err (invalid_value ∷ []) else ok (record s { issuer = iss })
  apply_opt (with_default_typ typ) s =
      if is_blank typ then err (invalid_value ∷ []) else ok (record s { typ = typ })

  -- The loop over the options.
  unfoldable pub apply_opts : List (Opt F) → Signer F → Result (Signer F)
  apply_opts [] s = ok s
  apply_opts (opt ∷ opts) s = apply_opt opt s >>= apply_opts opts

  -- The rest of NewSigner, on a method and a key that are valid.
  abbrev pub signer_from : Option Method → Option PrivateKey → List (Opt F) → Result (Signer F)
  signer_from (some method) (some key) opts = apply_opts opts (record {
    method = method;
    signing_key = key;
    static_headers = [];
    static_claims = [];
    expiration = default_expiration;
    issuer = default_issuer;
    typ = default_typ;
  })
  signer_from _ _ opts = err (invalid_value ∷ [])

  -- signing.NewSigner
  unfoldable pub new_signer : Option Method → Option PrivateKey → List (Opt F) → Result (Signer F)
  new_signer method key opts =
      unless_err (validate_method_and_key method key) (λ e. e) (signer_from method key opts)

  -- signing.mergeHeaders: per-call headers over static ones.
  unfoldable pub merge_headers : Dict (Value F) → Dict (Value F) → Dict (Value F)
  merge_headers static_headers per_call =
      if is_empty static_headers && is_empty per_call
      then []
      else overlay (overlay [] static_headers) per_call

-- The values that a context carries for this package, and its error.
pub record SignContext (F : Type 0) : Type 0 where
  pub failed : Verdict
  pub headers : Option (Dict (Value F))
  pub claims : Option (Claims F)

abbrev pub or_nil : {A : Type 0} → Option (List A) → List A
or_nil none = []
or_nil (some l) = l

module _ {F : Type 0} where
  -- signing.WrapContextHeaders, signing.WrapContextClaims
  unfoldable pub wrap_context_headers : SignContext F → Dict (Value F) → SignContext F
  wrap_context_headers ctx headers = record ctx { headers = some headers }

  unfoldable pub wrap_context_claims : SignContext F → Claims F → SignContext F
  wrap_context_claims ctx c = record ctx { claims = some c }

  -- signing.UnwrapContextHeaders, signing.UnwrapContextClaims
  unfoldable pub unwrap_context_headers : SignContext F → Dict (Value F)
  unwrap_context_headers ctx = or_nil ctx.headers

  unfoldable pub unwrap_context_claims : SignContext F → Claims F
  unwrap_context_claims ctx = or_nil ctx.claims

module _ {F : Type 0} (host : Host F) (world : World F) where
  -- (*signer).mergedClaims
  unfoldable pub merged_claims : Signer F → Claims F → Claims F
  merged_claims s c =
      if is_empty s.static_claims then c else overlay (deep_copy host s.static_claims) c

  -- (*signer).Sign
  unfoldable pub sign : Signer F → Context → Claims F → Dict (Value F) → Result (String × Token F)
  sign s ctx c headers =
      unless_err ctx.failed (λ e. e)
        (if has header_key_alg headers
          then err (reserved_header ∷ [])
          else sign_with host world s.method s.signing_key (merge_headers s.static_headers headers)
              (merged_claims s c) s.expiration s.issuer s.typ)

  -- The rest of Signed and SignedWithExpiration, on a method and a key that are valid.
  abbrev pub signed_from :
      Option Method
      → Option PrivateKey
      → Dict (Value F)
      → Claims F
      → Duration
      → Result (String × Token F)
  signed_from (some method) (some key) headers c d =
      if has header_key_alg headers
      then err (reserved_header ∷ [])
      else sign_with host world method key headers c d default_issuer default_typ
  signed_from _ _ headers c d = err (invalid_value ∷ [])

  -- signing.Signed
  unfoldable pub signed :
      Option Method → Option PrivateKey → Dict (Value F) → Claims F → Result (String × Token F)
  signed method key headers c =
      unless_err (validate_method_and_key method key) (λ e. e)
        (signed_from method key headers c default_expiration)

  -- signing.SignedWithExpiration
  unfoldable pub signed_with_expiration :
      Duration
      → Option Method
      → Option PrivateKey
      → Dict (Value F)
      → Claims F
      → Result (String × Token F)
  signed_with_expiration d method key headers c =
      if not (ltb_ℤ (pos 0) d)
      then err (invalid_param ∷ [])
      else unless_err (validate_method_and_key method key) (λ e. e)
          (signed_from method key headers (set_expires_at host c (plus world.now d)) d)

  -- signing.SignedFromContext
  unfoldable pub signed_from_context :
      SignContext F → Option Method → Option PrivateKey → Result (String × Token F)
  signed_from_context ctx method key =
      unless_err ctx.failed (λ e. e)
        (signed method key (unwrap_context_headers ctx) (unwrap_context_claims ctx))
