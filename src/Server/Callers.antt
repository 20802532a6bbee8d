-- ===== src/Server/Callers.antt =====
-- httpserver/auth.go: who may call the endpoints that make tokens. A nil Authenticator is `none`.
pub mod Laws
use jwtmint.Prelude.{String, Bool, Option, none, some, List, [], ◌==◌, if◌then◌else◌}
use jwtmint.Text.{is_blank, strip_prefix}
use jwtmint.Errors.{Verdict}
use jwtmint.Auth.HttpAuth.{Request, get_header}
use jwtmint.Server.Reply.{Reply, write_error}

-- httpserver.Authenticator
abbrev pub Authenticator : Type 0
Authenticator = Request → Verdict

-- The comparison, on what follows the prefix; `got == authz` is that there is no prefix.
abbrev pub matched : String → Option String → Verdict
matched expected none = some []
matched expected (some got) = if got == expected then none else some []

-- The function that StaticBearerAuthenticator returns.
unfoldable pub bearer_matches : String → Authenticator
unfolding get_header strip_prefix
bearer_matches expected r = matched expected (strip_prefix "Bearer " (get_header "Authorization" r))

-- httpserver.StaticBearerAuthenticator
unfoldable pub static_bearer_authenticator : String → Option Authenticator
unfolding bearer_matches
static_bearer_authenticator expected =
    if is_blank expected then none else some (bearer_matches expected)

module _ {F : Type 0} where
  -- What requireAuth makes of Authenticate's error.
  abbrev pub unless_rejected : Verdict → Reply F → Reply F
  unless_rejected none reply = reply
  unless_rejected (some e) reply = record (write_error 401 "unauthorized") {
    www_authenticate = some "Bearer realm=\"jwtmintd\"";
  }

  -- httpserver.requireAuth
  unfoldable pub require_auth : Option Authenticator → (Request → Reply F) → Request → Reply F
  require_auth none next r = next r
  require_auth (some a) next r = unless_rejected (a r) (next r)
