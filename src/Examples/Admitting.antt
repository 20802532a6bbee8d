-- ===== src/Examples/Admitting.antt =====
-- The admission policy on concrete requests.
use jwtmint.Prelude.{String, ◌≡◌, ◌↔◌, ◌⊎◌, none, some, [], ◌∷◌}
use jwtmint.Admission.{UserInfo, Spec, SelfOnlyPolicy, allow}
use jwtmint.Admission.Laws.{Administrator, SelfOnly, allow_iff}

abbrev pub policy : SelfOnlyPolicy
policy = record {
  allowed_audiences = "api" ∷ " web " ∷ [];
  allowed_entitlements = "*" ∷ [];
  allowed_roles = [];
  allowed_extra_claim_keys = [];
  admin_users = "root" ∷ [];
  admin_groups = "ops" ∷ [];
}

abbrev pub alice : UserInfo
alice = record { username = "alice"; groups = "dev" ∷ "ops" ∷ [] }

abbrev pub request : Spec String
request = record {
  subject = "alice";
  groups = "dev" ∷ [];
  audience = "web" ∷ [];
  entitlements = "any" ∷ [];
  roles = [];
  extra_claims = [];
}

allow_iff_example :
    (allow policy alice (some request) ≡ none)
    ↔ (Administrator policy alice ⊎ SelfOnly policy alice request)
allow_iff_example = allow_iff policy alice request
