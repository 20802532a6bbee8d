-- ===== src/Claims/Registered.antt =====
-- claims/registered.go: the accessors of the registered claims. A setter returns the map that the
-- source changes in place.
pub mod Laws
use jwtmint.Prelude.{String, Bool, Option, none, some, List, [], ◌∷◌}
use jwtmint.Errors.{Result, ok, err, ◌>>=◌}
use jwtmint.Dict.{insert, delete}
use jwtmint.Time.{Time, before, after}
use jwtmint.Claims.Value.{Value, str, bytes, uuid, strs, date_ptr, Claims, Host}
use jwtmint.Claims.Keys.{
  key_expires_at, key_issued_at, key_not_before, key_id, key_issuer, key_audience, key_subject,
}
use jwtmint.Claims.Read.{read_string, read_string_slice, read_time}

module _ {F : Type 0} where
  -- claims.Audience
  unfoldable pub audience : Claims F → Result (List String)
  audience c = read_string_slice c key_audience

  -- claims.SetAudience
  unfoldable pub set_audience : Claims F → List String → Claims F
  set_audience c aud = insert key_audience (strs aud) c

  -- claims.SetIssuer
  unfoldable pub set_issuer : Claims F → String → Claims F
  set_issuer c s = insert key_issuer (str s) c

  -- claims.SetSubject
  unfoldable pub set_subject : Claims F → String → Claims F
  set_subject c s = insert key_subject (str s) c

  -- claims.DeleteID
  unfoldable pub delete_id : Claims F → Claims F
  delete_id c = delete key_id c

  -- claims.DeleteJTI
  unfoldable pub delete_jti : Claims F → Claims F
  unfolding delete_id
  delete_jti c = delete_id c

  -- claims.DeleteIssuer
  unfoldable pub delete_issuer : Claims F → Claims F
  delete_issuer c = delete key_issuer c

  -- claims.DeleteSubject
  unfoldable pub delete_subject : Claims F → Claims F
  delete_subject c = delete key_subject c

  -- claims.DeleteAudience
  unfoldable pub delete_audience : Claims F → Claims F
  delete_audience c = delete key_audience c

  -- claims.DeleteIssuedAt
  unfoldable pub delete_issued_at : Claims F → Claims F
  delete_issued_at c = delete key_issued_at c

  -- claims.DeleteExpiresAt
  unfoldable pub delete_expires_at : Claims F → Claims F
  delete_expires_at c = delete key_expires_at c

  -- claims.DeleteNotBefore
  unfoldable pub delete_not_before : Claims F → Claims F
  delete_not_before c = delete key_not_before c

module _ {F : Type 0} (host : Host F) where
  -- claims.SetID: values of other types are ignored.
  unfoldable pub set_id : Claims F → Value F → Claims F
  set_id c (str s) = insert key_id (str s) c
  set_id c (bytes b) = insert key_id (str (host.text_of_bytes b)) c
  set_id c (uuid u) = insert key_id (str u) c
  set_id c _ = c

  -- claims.SetJTI
  unfoldable pub set_jti : Claims F → String → Claims F
  unfolding set_id
  set_jti c jti = set_id c (str jti)

  -- claims.ID
  unfoldable pub id : Claims F → Result String
  id c = read_string host c key_id

  -- claims.Issuer
  unfoldable pub issuer : Claims F → Result String
  issuer c = read_string host c key_issuer

  -- claims.Subject
  unfoldable pub subject : Claims F → Result String
  subject c = read_string host c key_subject

  -- claims.JTI
  unfoldable pub jti : Claims F → Result String
  unfolding id
  jti c = id c

  -- claims.IssuedAt
  unfoldable pub issued_at : Claims F → Result Time
  issued_at c = read_time host c key_issued_at

  -- claims.SetIssuedAt
  unfoldable pub set_issued_at : Claims F → Time → Claims F
  set_issued_at c t = insert key_issued_at (date_ptr (some (host.numeric_date t))) c

  -- claims.ExpiresAt
  unfoldable pub expires_at : Claims F → Result Time
  expires_at c = read_time host c key_expires_at

  -- claims.SetExpiresAt
  unfoldable pub set_expires_at : Claims F → Time → Claims F
  set_expires_at c t = insert key_expires_at (date_ptr (some (host.numeric_date t))) c

  -- claims.NotBefore
  unfoldable pub not_before : Claims F → Result Time
  not_before c = read_time host c key_not_before

  -- claims.SetNotBefore
  unfoldable pub set_not_before : Claims F → Time → Claims F
  set_not_before c t = insert key_not_before (date_ptr (some (host.numeric_date t))) c

  -- claims.IssuedAtBefore
  unfoldable pub issued_at_before : Claims F → Time → Result Bool
  unfolding issued_at
  issued_at_before c u = issued_at c >>= λ t. ok (before t u)

  -- claims.IssuedAtAfter
  unfoldable pub issued_at_after : Claims F → Time → Result Bool
  unfolding issued_at
  issued_at_after c u = issued_at c >>= λ t. ok (after t u)

  -- claims.ExpiresBefore
  unfoldable pub expires_before : Claims F → Time → Result Bool
  unfolding expires_at
  expires_before c u = expires_at c >>= λ t. ok (before t u)

  -- claims.ExpiresAfter
  unfoldable pub expires_after : Claims F → Time → Result Bool
  unfolding expires_at
  expires_after c u = expires_at c >>= λ t. ok (after t u)

  -- claims.IsExpired, at the wall clock's `now`
  unfoldable pub is_expired : Time → Claims F → Result (Bool × Time)
  unfolding expires_at
  is_expired now c = expires_at c >>= λ exp. ok (before exp now, exp)

  -- claims.IsNotBefore
  unfoldable pub is_not_before : Time → Claims F → Result (Bool × Time)
  unfolding not_before
  is_not_before now c = not_before c >>= λ nbf. ok (after nbf now, nbf)
