-- ===== src/Server/Handlers.antt =====
-- httpserver/handler_verify.go, handler_sign.go, handler_refresh.go and handler_discovery.go, on what the
-- decoder makes of a request's body (none if it does not decode, or is too long). Each constructor
-- panics on nil, which is `none`.
pub mod Laws
use Prim.Native.String
use jwtmint.Prelude.{
  ℤ, pos, ltb_ℤ, String, true, false, Option, none, some, List, [], not, if◌then◌else◌,
}
use jwtmint.Text.{is_blank, trim_right, is_slash}
use jwtmint.Errors.{Result, ok, err, is, reserved_header}
use jwtmint.Dict.{Dict}
use jwtmint.Time.{Time, Duration, plus}
use jwtmint.Claims.Value.{Value, Claims, Host}
use jwtmint.Claims.Copy.{to_map_claims}
use jwtmint.Claims.Registered.{expires_at, set_expires_at}
use jwtmint.Claims.Checks.{Context}
use jwtmint.Token.{Token}
use jwtmint.Verification.Base.{Verifier}
use jwtmint.Refresh.{Refresher}
use jwtmint.Auth.Bearer.{claims_or_nil}
use jwtmint.Server.Reply.{
  SignRequest, sign_response, verify_response, refresh_response, discovery_response, Reply, write,
  write_error,
}

-- The calls of package time that the handlers make.
pub record Clock : Type 0 where
  pub now : Time
  -- time.ParseDuration, none on an error
  pub parse_duration : String → Option Duration
  -- t.Unix()
  pub unix_seconds : Time → ℤ

-- The Sign method of a signer.
abbrev pub SignFunc : Type 0 → Type 0
SignFunc F = Context → Claims F → Dict (Value F) → Result (String × Token F)

module _ {F : Type 0} where
  -- The end of handleVerify, on the claims.
  abbrev pub valid_reply : Token F → Result (Claims F) → Reply F
  valid_reply tok (err e) = write_error 500 "claims_extract_failed"
  valid_reply tok (ok c) = write 200 (verify_response true c tok.header)

  -- What handleVerify makes of Verify's answer.
  abbrev pub verify_reply : Result (Token F) → Reply F
  verify_reply (err e) = write 200 (verify_response false [] [])
  verify_reply (ok tok) = valid_reply tok (to_map_claims tok.claims)

  -- The handler that handleVerify returns.
  unfoldable pub verify_handler : Verifier F → Context → Option String → Reply F
  verify_handler v ctx none = write_error 400 "invalid_body"
  verify_handler v ctx (some token) =
      if is_blank token then write_error 400 "missing_token" else verify_reply (v ctx token [])

  -- httpserver.handleVerify
  unfoldable pub handle_verify : Option (Verifier F) → Option (Context → Option String → Reply F)
  unfolding verify_handler
  handle_verify none = none
  handle_verify (some v) = some (verify_handler v)

module _ {F : Type 0} (host : Host F) (clock : Clock) where
  abbrev pub seconds_or_zero : Result Time → ℤ
  seconds_or_zero (ok t) = clock.unix_seconds t
  seconds_or_zero (err e) = pos 0

  -- The unix second at which the token expires, 0 if it has no exp.
  abbrev pub expiry_seconds : Token F → ℤ
  expiry_seconds tok = seconds_or_zero (expires_at host (claims_or_nil (to_map_claims tok.claims)))

  -- What handleSign makes of Sign's answer.
  abbrev pub sign_reply : Result (String × Token F) → Reply F
  sign_reply (err e) =
      if is e reserved_header
      then write_error 400 "reserved_header"
      else write_error 500 "sign_failed"
  sign_reply (ok (token, parsed)) = write 200 (sign_response token (expiry_seconds parsed))

  -- The branch on expires_in: the claims to sign, none if the duration is not one or not positive.
  abbrev pub lasting : Claims F → Option Duration → Option (Claims F)
  lasting c none = none
  lasting c (some d) =
      if not (ltb_ℤ (pos 0) d) then none else some (set_expires_at host c (plus clock.now d))

  abbrev pub claims_to_sign : SignRequest F → Option (Claims F)
  claims_to_sign req =
      if is_blank req.expires_in
      then some req.claims
      else lasting req.claims (clock.parse_duration req.expires_in)

  abbrev pub sign_claims : SignFunc F → Context → Dict (Value F) → Option (Claims F) → Reply F
  sign_claims signer ctx headers none = write_error 400 "invalid_expires_in"
  sign_claims signer ctx headers (some c) = sign_reply (signer ctx c headers)

  -- The handler that handleSign returns.
  unfoldable pub sign_handler : SignFunc F → Context → Option (SignRequest F) → Reply F
  sign_handler signer ctx none = write_error 400 "invalid_body"
  sign_handler signer ctx (some req) = sign_claims signer ctx req.headers (claims_to_sign req)

  -- httpserver.handleSign
  unfoldable pub handle_sign :
      Option (SignFunc F) → Option (Context → Option (SignRequest F) → Reply F)
  unfolding sign_handler
  handle_sign none = none
  handle_sign (some signer) = some (sign_handler signer)

  -- What handleRefresh makes of Refresh's answer.
  abbrev pub refresh_reply : Result (Token F × String) → Reply F
  refresh_reply (err e) = write_error 400 "refresh_failed"
  refresh_reply (ok (tok, refreshed)) = write 200 (refresh_response refreshed (expiry_seconds tok))

  -- The handler that handleRefresh returns.
  unfoldable pub refresh_handler : Refresher F → Context → Option String → Reply F
  refresh_handler r ctx none = write_error 400 "invalid_body"
  refresh_handler r ctx (some token) =
      if is_blank token then write_error 400 "missing_token" else refresh_reply (r ctx token)

  -- httpserver.handleRefresh
  unfoldable pub handle_refresh : Option (Refresher F) → Option (Context → Option String → Reply F)
  unfolding refresh_handler
  handle_refresh none = none
  handle_refresh (some r) = some (refresh_handler r)

module _ {F : Type 0} where
  -- httpserver.handleOIDCDiscovery
  unfoldable pub handle_oidc_discovery : String → List String → Reply F
  unfolding trim_right
  handle_oidc_discovery issuer algs =
      let base = trim_right is_slash issuer in
      write 200 (discovery_response base (String.◌++◌ base "/.well-known/jwks.json") algs)
