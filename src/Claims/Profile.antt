-- ===== src/Claims/Profile.antt =====
-- claims/profile.go: the accessors of the profile claims and of scope. A setter returns the map that
-- the source changes in place.
pub mod Laws
use jwtmint.Prelude.{String, Bool, Option, none, some, List, [], ◌∷◌, if◌then◌else◌}
use jwtmint.Text.{is_blank, trim_space, split_comma, fields, has_space, join_space}
use jwtmint.Errors.{Result, ok, err, empty_value, invalid_claims}
use jwtmint.Dict.{lookup, insert, delete}
use jwtmint.Claims.Value.{Value, str, strs, items, Items, nil, cons, Claims, Host}
use jwtmint.Claims.Keys.{
  key_groups, key_roles, key_scope, key_permissions, key_entitlements, key_name, key_first_name,
  key_last_name, key_username, key_email, key_token_type,
}
use jwtmint.Claims.Read.{strings_of, or_missing, read_string, read_string_slice}

module _ {F : Type 0} where
  -- claims.Groups
  unfoldable pub groups : Claims F → Result (List String)
  groups c = read_string_slice c key_groups

  -- claims.SetGroups
  unfoldable pub set_groups : Claims F → List String → Claims F
  set_groups c ss = insert key_groups (strs ss) c

  -- claims.DeleteGroups
  unfoldable pub delete_groups : Claims F → Claims F
  delete_groups c = delete key_groups c

  -- claims.Roles
  unfoldable pub roles : Claims F → Result (List String)
  roles c = read_string_slice c key_roles

  -- claims.SetRoles
  unfoldable pub set_roles : Claims F → List String → Claims F
  set_roles c ss = insert key_roles (strs ss) c

  -- claims.DeleteRoles
  unfoldable pub delete_roles : Claims F → Claims F
  delete_roles c = delete key_roles c

  -- claims.Permissions
  unfoldable pub permissions : Claims F → Result (List String)
  permissions c = read_string_slice c key_permissions

  -- claims.SetPermissions
  unfoldable pub set_permissions : Claims F → List String → Claims F
  set_permissions c ss = insert key_permissions (strs ss) c

  -- claims.DeletePermissions
  unfoldable pub delete_permissions : Claims F → Claims F
  delete_permissions c = delete key_permissions c

  -- claims.Entitlements
  unfoldable pub entitlements : Claims F → Result (List String)
  entitlements c = read_string_slice c key_entitlements

  -- claims.SetEntitlements
  unfoldable pub set_entitlements : Claims F → List String → Claims F
  set_entitlements c ss = insert key_entitlements (strs ss) c

  -- claims.DeleteEntitlements
  unfoldable pub delete_entitlements : Claims F → Claims F
  delete_entitlements c = delete key_entitlements c

  -- The type switch of Scope.
  unfoldable pub scope_of : Value F → Result (List String)
  unfolding strings_of split_comma fields has_space
  scope_of (str s) =
      if is_blank s
      then err (empty_value ∷ [])
      else if has_space s
      then ok (fields s)
      else ok (split_comma s)
  scope_of (strs []) = err (empty_value ∷ [])
  scope_of (strs (s ∷ ss)) = ok (s ∷ ss)
  scope_of (items nil) = err (empty_value ∷ [])
  scope_of (items (cons v vs)) = strings_of (cons v vs)
  scope_of _ = err (invalid_claims ∷ [])

  -- claims.Scope
  unfoldable pub scope : Claims F → Result (List String)
  unfolding scope_of
  scope c = or_missing scope_of (lookup key_scope c)

  -- claims.SetScope
  unfoldable pub set_scope : Claims F → List String → Claims F
  set_scope c ss = insert key_scope (str (join_space ss)) c

  -- claims.DeleteScope
  unfoldable pub delete_scope : Claims F → Claims F
  delete_scope c = delete key_scope c

  -- claims.SetName
  unfoldable pub set_name : Claims F → String → Claims F
  set_name c s = insert key_name (str (trim_space s)) c

  -- claims.DeleteName
  unfoldable pub delete_name : Claims F → Claims F
  delete_name c = delete key_name c

  -- claims.SetFirstName
  unfoldable pub set_first_name : Claims F → String → Claims F
  set_first_name c s = insert key_first_name (str (trim_space s)) c

  -- claims.DeleteFirstName
  unfoldable pub delete_first_name : Claims F → Claims F
  delete_first_name c = delete key_first_name c

  -- claims.SetLastName
  unfoldable pub set_last_name : Claims F → String → Claims F
  set_last_name c s = insert key_last_name (str (trim_space s)) c

  -- claims.DeleteLastName
  unfoldable pub delete_last_name : Claims F → Claims F
  delete_last_name c = delete key_last_name c

  -- claims.SetUsername
  unfoldable pub set_username : Claims F → String → Claims F
  set_username c s = insert key_username (str (trim_space s)) c

  -- claims.DeleteUsername
  unfoldable pub delete_username : Claims F → Claims F
  delete_username c = delete key_username c

  -- claims.SetEmail
  unfoldable pub set_email : Claims F → String → Claims F
  set_email c s = insert key_email (str (trim_space s)) c

  -- claims.DeleteEmail
  unfoldable pub delete_email : Claims F → Claims F
  delete_email c = delete key_email c

  -- claims.SetTokenType
  unfoldable pub set_token_type : Claims F → String → Claims F
  set_token_type c s = insert key_token_type (str (trim_space s)) c

  -- claims.DeleteTokenType
  unfoldable pub delete_token_type : Claims F → Claims F
  delete_token_type c = delete key_token_type c

module _ {F : Type 0} (host : Host F) where
  -- claims.Name
  unfoldable pub name : Claims F → Result String
  name c = read_string host c key_name

  -- claims.FirstName
  unfoldable pub first_name : Claims F → Result String
  first_name c = read_string host c key_first_name

  -- claims.LastName
  unfoldable pub last_name : Claims F → Result String
  last_name c = read_string host c key_last_name

  -- claims.Username
  unfoldable pub username : Claims F → Result String
  username c = read_string host c key_username

  -- claims.Email
  unfoldable pub email : Claims F → Result String
  email c = read_string host c key_email

  -- claims.TokenType
  unfoldable pub token_type : Claims F → Result String
  token_type c = read_string host c key_token_type
