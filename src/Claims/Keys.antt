-- ===== src/Claims/Keys.antt =====
-- claims/keys.go: the claim names; claims/claims.go: which of them RFC 7519 registers.
use jwtmint.Prelude.{String, Bool, ◌||◌, List, [], ◌∷◌, ◌==◌}

abbrev pub key_expires_at : String
key_expires_at = "exp"

abbrev pub key_issued_at : String
key_issued_at = "iat"

abbrev pub key_not_before : String
key_not_before = "nbf"

abbrev pub key_id : String
key_id = "jti"

abbrev pub key_issuer : String
key_issuer = "iss"

abbrev pub key_audience : String
key_audience = "aud"

abbrev pub key_subject : String
key_subject = "sub"

abbrev pub key_groups : String
key_groups = "groups"

abbrev pub key_roles : String
key_roles = "roles"

abbrev pub key_scope : String
key_scope = "scope"

abbrev pub key_permissions : String
key_permissions = "permissions"

abbrev pub key_entitlements : String
key_entitlements = "entitlements"

abbrev pub key_name : String
key_name = "name"

abbrev pub key_first_name : String
key_first_name = "first_name"

abbrev pub key_last_name : String
key_last_name = "last_name"

abbrev pub key_username : String
key_username = "username"

abbrev pub key_email : String
key_email = "email"

abbrev pub key_token_type : String
key_token_type = "token_type"

-- claims.RegisteredClaims, the keys of the set
abbrev pub registered_claims : List String
registered_claims =
    key_expires_at ∷ key_issued_at ∷ key_not_before ∷ key_id ∷ key_issuer ∷ key_audience
    ∷ key_subject ∷ []

-- claims.IsRegisteredClaim
unfoldable pub is_registered_claim : String → Bool
is_registered_claim key =
    key_expires_at == key
    || key_issued_at == key
    || key_not_before == key
    || key_id == key
    || key_issuer == key
    || key_audience == key
    || key_subject == key
