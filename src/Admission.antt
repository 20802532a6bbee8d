-- ===== src/Admission.antt =====
-- k8s/admission/policy.go: SelfOnlyPolicy. A denial that wraps no sentinel is an empty error.
pub mod Entries
pub mod Laws
pub mod Webhook
use jwtmint.Prelude.{
  String, Bool, true, false, Option, none, some, List, [], ◌∷◌, ◌==◌, ◌&&◌, ◌||◌, not, is_empty,
  contains, if◌then◌else◌,
}
use jwtmint.Text.{is_blank, trim_space}
use jwtmint.Errors.{Verdict, invalid_value}
use jwtmint.Dict.{Dict}
use jwtmint.Claims.Checks.{and_then}

-- The fields of authnv1.UserInfo that the policy reads.
pub record UserInfo : Type 0 where
  pub username : String
  pub groups : List String

-- The fields of v1alpha1.JWTRequestSpec that the policy reads; `J` is apiextensionsv1.JSON.
pub record Spec (J : Type 0) : Type 0 where
  pub subject : String
  pub groups : List String
  pub audience : List String
  pub entitlements : List String
  pub roles : List String
  pub extra_claims : Dict J

-- admission.SelfOnlyPolicy
pub record SelfOnlyPolicy : Type 0 where
  pub allowed_audiences : List String
  pub allowed_entitlements : List String
  pub allowed_roles : List String
  pub allowed_extra_claim_keys : List String
  pub admin_users : List String
  pub admin_groups : List String

-- admission.AllowAny
abbrev pub allow_any : String
allow_any = "*"

-- admission.stringSet: the members of the set.
unfoldable pub string_set : List String → List String
string_set [] = []
string_set (s ∷ ss) =
    let rest = string_set ss in if is_blank (trim_space s) then rest else trim_space s ∷ rest

-- admission.containsString
unfoldable pub contains_string : List String → String → Bool
contains_string [] v = false
contains_string (e ∷ s) v = e == v || contains_string s v

-- A loop that rejects the first text that is not in the set.
unfoldable pub all_in : List String → List String → Verdict
all_in set [] = none
all_in set (r ∷ requested) = if contains set r then all_in set requested else some []

-- admission.checkAllowedList
unfoldable pub check_allowed_list : List String → List String → Verdict
unfolding string_set contains_string all_in
check_allowed_list requested allowed =
    if is_empty requested
    then none
    else if contains_string allowed allow_any
    then none
    else if is_empty allowed
    then some []
    else all_in (string_set allowed) requested

-- The keys of a map, in the order in which it is ranged over.
unfoldable pub keys_of : {J : Type 0} → Dict J → List String
keys_of [] = []
keys_of ((k, v) ∷ m) = k ∷ keys_of m

-- admission.checkAllowedKeys
unfoldable pub check_allowed_keys : {J : Type 0} → Dict J → List String → Verdict
unfolding check_allowed_list keys_of
check_allowed_keys requested allowed = check_allowed_list (keys_of requested) allowed

-- A loop that looks for a member of the set.
unfoldable pub any_in : List String → List String → Bool
any_in set [] = false
any_in set (g ∷ gs) = contains set g || any_in set gs

-- admission.isAdmin
unfoldable pub is_admin : SelfOnlyPolicy → UserInfo → Bool
unfolding contains_string string_set any_in
is_admin p requester =
    if contains_string p.admin_users requester.username
    then true
    else if is_empty p.admin_groups
    then false
    else any_in (string_set requester.groups) p.admin_groups

-- `jr.Spec.Subject != "" && jr.Spec.Subject != requester.Username`
abbrev pub foreign_subject : UserInfo → String → Bool
foreign_subject requester subject = not (is_blank subject) && not (subject == requester.username)

-- (*SelfOnlyPolicy).Allow; the request may be a nil pointer.
unfoldable pub allow : {J : Type 0} → SelfOnlyPolicy → UserInfo → Option (Spec J) → Verdict
unfolding is_admin string_set all_in check_allowed_list check_allowed_keys
allow p requester none = some (invalid_value ∷ [])
allow p requester (some spec) =
    if is_admin p requester
    then none
    else if foreign_subject requester spec.subject
    then some []
    else and_then (all_in (string_set requester.groups) spec.groups) (
        and_then (check_allowed_list spec.audience p.allowed_audiences) (
          and_then (check_allowed_list spec.entitlements p.allowed_entitlements) (
            and_then (check_allowed_list spec.roles p.allowed_roles)
              (check_allowed_keys spec.extra_claims p.allowed_extra_claim_keys))))
