-- ===== src/Server/Start/Issuing.antt =====
-- POST /sign of a server that New returns.
use Prim.Native.String
use mathlib.Core.Path.{subst}
use mathlib.Core.Option.{some-injective}
use jwtmint.Prelude.{
  ℤ, String, ◌≡◌, ◌⊎◌, inl, inr, refl, sym, ap, ◌∙◌, Bool, true, false, Option, none, some, List,
  ◌∷◌, ltb_ℤ, pos, if◌then◌else◌,
}
use jwtmint.Text.{is_blank}
use jwtmint.Errors.{
  Err, Result, ok, err, is, reserved_header, unless_err-eq-ok, >>=-eq-ok, ok-injective,
}
use jwtmint.Dict.{Dict, lookup, has}
use jwtmint.Dict.Laws.{or_else}
use jwtmint.Claims.Value.{Value, Claims, Host, str}
use jwtmint.Claims.Checks.{Context}
use jwtmint.Token.{Token, Method, PrivateKey}
use jwtmint.Signing.Method.{validate_method_and_key}
use jwtmint.Signing.Signer
use jwtmint.Signing.Signer.{Signer, new_signer, signer_from, apply_opt, apply_opts, sign}
use jwtmint.Signing.Signer.Laws.{Issued, new_signer-Issued}
use jwtmint.Auth.HttpAuth.{Request, get_header}
use jwtmint.Server.Reply.{SignRequest, sign_response, Reply, write_error}
use jwtmint.Server.Callers.{
  Authenticator, static_bearer_authenticator, bearer_matches, unless_rejected, require_auth,
}
use jwtmint.Server.Callers.Laws.{bearer_matches_iff}
use jwtmint.Server.Handlers.Laws.{
  Lasting, ReportedExpiry, claims_to_sign-Lasting, expiry_seconds-ReportedExpiry,
}
use jwtmint.Server.Handlers.{
  Clock, SignFunc, claims_to_sign, expiry_seconds, sign_reply, sign_claims, sign_handler,
}
use jwtmint.Server.Build.{
  Config, with_defaults, signer_opts, expiration_opt, kid_opt, chosen, authenticator,
}
use jwtmint.Server.Start.{Server, Libraries, new, post_sign, routes}
use jwtmint.Server.Start.Inversion.{new-Built}

module _ {F : Type 0} where
  kid_opt-static :
      (kid : String) (s s' : Signer F)
      → is_blank kid ≡ false
      → apply_opts (kid_opt kid) s ≡ ok s'
      → lookup "kid" s'.static_headers ≡ some (str kid)
  unfolding apply_opts apply_opt lookup has
  kid_opt-static String.[] s s' named h = cc
  kid_opt-static (String.◌∷◌ c k) s s' named h =
      sym (ap (λ x. lookup "kid" x.static_headers) (ok-injective h))

  -- Options in front of others leave some signer to those.
  skip_opt :
      (b : Bool) (opt : Signer.Opt F) (opts : List (Signer.Opt F)) (s s' : Signer F)
      → apply_opts (if b then opt ∷ opts else opts) s ≡ ok s'
      → (t : Signer F) × (apply_opts opts t ≡ ok s')
  unfolding apply_opts
  skip_opt true opt opts s s' h =
      let (t, made, rest) = >>=-eq-ok (apply_opt opt s) (apply_opts opts) h in (t, rest)
  skip_opt false opt opts s s' h = (s, h)

  skip_unless :
      (b : Bool) (opt : Signer.Opt F) (opts : List (Signer.Opt F)) (s s' : Signer F)
      → apply_opts (if b then opts else opt ∷ opts) s ≡ ok s'
      → (t : Signer F) × (apply_opts opts t ≡ ok s')
  skip_unless true opt opts s s' h = (s, h)
  skip_unless false opt opts s s' h = skip_opt true opt opts s s' h

  -- The server's kid is a static header of its signer.
  signer_opts-kid :
      (c : Config F) (m : Method) (k : PrivateKey) (s : Signer F)
      → is_blank c.kid ≡ false
      → new_signer (some m) (some k) (signer_opts c) ≡ ok s
      → lookup "kid" s.static_headers ≡ some (str c.kid)
  unfolding new_signer signer_opts
  signer_opts-kid c m k s named h =
      let (valid, applied) = unless_err-eq-ok (validate_method_and_key (some m) (some k)) _ s h in
      let (t, rest) =
        skip_unless (is_blank c.default_issuer) (Signer.Opt.with_default_issuer c.default_issuer)
          (expiration_opt c.default_expiration (kid_opt c.kid)) _ s applied in
      let (u, last) =
        skip_opt (ltb_ℤ (pos 0) c.default_expiration)
          (Signer.Opt.with_default_expiration c.default_expiration) (kid_opt c.kid) t s rest in
      kid_opt-static c.kid u s named last

-- The request may make tokens: the configured authenticator accepts it, or without one the configured
-- token is empty or the request's bearer token.
abbrev pub AuthorizedBy : Option Authenticator → String → Request → Type 0
AuthorizedBy (some a) token r = a r ≡ none
AuthorizedBy none token r =
    (is_blank token ≡ true) ⊎ (get_header "Authorization" r ≡ String.◌++◌ "Bearer " token)

module _ {F : Type 0} where
  -- A reply of the endpoint that is no refusal of the middleware's.
  rejected-inv :
      (v : Option Err) (reply : Reply F) (text : String) (at : ℤ)
      → (unless_rejected v reply).body ≡ sign_response text at
      → (v ≡ none) × (reply.body ≡ sign_response text at)
  rejected-inv none reply text at h = (refl, h)
  rejected-inv (some e) reply text at h = cc

  require_auth-Authorized :
      (a : Option Authenticator) (token : String) (next : Request → Reply F) (r : Request)
      (text : String) (at : ℤ)
      → (require_auth (chosen a token) next r).body ≡ sign_response text at
      → AuthorizedBy a token r × ((next r).body ≡ sign_response text at)
  unfolding require_auth static_bearer_authenticator
  require_auth-Authorized (some a) token next r text at h = rejected-inv (a r) (next r) text at h
  require_auth-Authorized none String.[] next r text at h = (inl refl, h)
  require_auth-Authorized none (String.◌∷◌ c s) next r text at h =
      let (accepted, rest) = rejected-inv (bearer_matches (String.◌∷◌ c s) r) (next r) text at h in
      (inr ((bearer_matches_iff (String.◌∷◌ c s) r).0 accepted), rest)

module _ {F : Type 0} (host : Host F) (clock : Clock) where
  refused :
      (b : Bool) (text : String) (at : ℤ)
      → (if b
          then write_error {F = F} 400 "reserved_header"
          else write_error 500 "sign_failed").body
        ≡ sign_response text at
      → ⊥
  refused true text at h = cc
  refused false text at h = cc

  sign_reply-inv :
      (o : Result (String × Token F)) (text : String) (at : ℤ)
      → (sign_reply host clock o).body ≡ sign_response text at
      → (tok : Token F) × (o ≡ ok (text, tok)) × (at ≡ expiry_seconds host clock tok)
  sign_reply-inv (err e) text at h = absurd (refused (is e reserved_header) text at h)
  sign_reply-inv (ok (token, parsed)) text at h =
      let same : token ≡ text = cc in (parsed, rw same refl, cc)

  sign_claims-inv :
      (signer : SignFunc F) (ctx : Context) (headers : Dict (Value F)) (o : Option (Claims F))
      (text : String) (at : ℤ)
      → (sign_claims host clock signer ctx headers o).body ≡ sign_response text at
      → (c : Claims F) × (o ≡ some c)
        × ((sign_reply host clock (signer ctx c headers)).body ≡ sign_response text at)
  sign_claims-inv signer ctx headers none text at h = cc
  sign_claims-inv signer ctx headers (some c) text at h = (c, refl, h)

or_else-some :
    {A : Type 0} (o a rest : Option A) (v : A)
    → a ≡ some v
    → or_else o (or_else a rest) ≡ or_else o (some v)
or_else-some o a rest v h = rw h refl

module _ {F : Type 0} (lib : Libraries F) (clock : Clock) where
  -- A token that POST /sign of a server of New returns, if the server has a kid, went to a caller
  -- that the configured authenticator accepts, or without one, whose bearer token is the
  -- configured one if that is not empty; it is one that the server's signer issues with the
  -- configured method and key from the request's claims, with exp set to the clock's reading and
  -- the duration that expires_in reads as, which is positive, if expires_in is not blank; its kid
  -- header is the request's or else the server's, and the reported expiry is the Unix time of the
  -- token's exp, or 0 if that is not read.
  pub post_sign_sound :
      (cfg : Config F) (srv : Server F) (ctx : Context) (r : Request) (req : SignRequest F)
      (reply : Reply F) (text : String) (at : ℤ)
      → is_blank cfg.kid ≡ false
      → new lib cfg ≡ some (ok srv)
      → routes lib clock srv ctx (post_sign r (some req)) ≡ some reply
      → reply.body ≡ sign_response text at
      → (m : Method) × (key : PrivateKey) × (c : Claims F) × (tok : Token F) × (cfg.method ≡ some m)
        × (cfg.private_key ≡ some key)
        × AuthorizedBy cfg.authenticator cfg.auth_token r
        × Lasting lib.host clock req c
        × Issued lib.host lib.world m key srv.signer c req.headers text tok
        × (lookup "kid" tok.header ≡ or_else (lookup "kid" req.headers) (some (str cfg.kid)))
        × ReportedExpiry lib.host clock tok at
  unfolding routes with_defaults authenticator sign_handler
  post_sign_sound cfg srv ctx r req reply text at named built routed shown =
      let b = new-Built lib cfg srv built in
      let body = ap (λ x. x.body) (some-injective _ _ routed) ∙ shown in
      let (allowed, answered) =
        require_auth-Authorized cfg.authenticator cfg.auth_token _ r text at
          (rw b.is_cfg at body) in
      let (c, chosen_claims, replied) =
        sign_claims-inv lib.host clock (sign lib.host lib.world srv.signer) ctx req.headers
          (claims_to_sign lib.host clock req) text at answered in
      let (tok, signed, expiry) =
        sign_reply-inv lib.host clock (sign lib.host lib.world srv.signer ctx c req.headers) text at
          replied in
      let issued =
        new_signer-Issued lib.host lib.world b.method b.key (signer_opts (with_defaults cfg))
          srv.signer ctx c req.headers text tok b.signer_built signed in
      let static_kid =
        signer_opts-kid (with_defaults cfg) b.method b.key srv.signer named b.signer_built in
      (
        b.method,
        b.key,
        c,
        tok,
        b.is_method,
        b.is_key,
        allowed,
        claims_to_sign-Lasting lib.host clock req c chosen_claims,
        issued,
        issued.header_held "kid"
            ∙ or_else-some (lookup "kid" req.headers) _ _ (str cfg.kid) static_kid,
        subst (ReportedExpiry lib.host clock tok) (sym expiry)
            (expiry_seconds-ReportedExpiry lib.host clock tok),
      )
