-- ===== src/Signing/Signer/Total.antt =====
-- When signing does not fail.
use jwtmint.Prelude.{String, ◌≡◌, refl, none, [], ◌∷◌}
use jwtmint.Errors.{ok, err, not_found, sign as errors_sign}
use jwtmint.Dict.{Dict, lookup}
use jwtmint.Dict.Laws.{lookup-insert}
use jwtmint.Time.{Time, Duration, plus}
use jwtmint.Claims.Value.{Value, Claims, Host}
use jwtmint.Claims.Keys.{key_expires_at, key_issued_at, key_issuer}
use jwtmint.Claims.Read.{read_string, read_time}
use jwtmint.Claims.Checks.Laws.{read_time-absent}
use jwtmint.Claims.Registered.{
  id, issuer, set_issuer, expires_at, set_expires_at, issued_at, set_issued_at, not_before,
  set_not_before,
}
use jwtmint.Token.{Token}
use jwtmint.Signing.Mint.{default_jti, fill_claims}
use jwtmint.Signing.Mint.Laws.{default_nbf_lem}
use jwtmint.Signing.Signer.{Signer, sign}

module _ {F : Type 0} (host : Host F) where
  -- The claims leave the times of expiry and issue and the issuer to the signer.
  abbrev pub Open : Claims F → Type 0
  Open c =
      (lookup key_expires_at c ≡ none)
      × (lookup key_issued_at c ≡ none)
      × (lookup key_issuer c ≡ none)

  issuer_after :
      (c : Claims F) (e i n : Time)
      → lookup key_issuer c ≡ none
      → issuer host (set_not_before host (set_issued_at host (set_expires_at host c e) i) n)
        ≡ err (not_found ∷ [])
  unfolding issuer read_string set_not_before set_issued_at set_expires_at
  issuer_after c e i n h = rw (lookup-insert, lookup-insert, lookup-insert, h) refl

  issued_at_after :
      (c : Claims F) (e : Time)
      → lookup key_issued_at c ≡ none
      → issued_at host (set_expires_at host c e) ≡ err (not_found ∷ [])
  unfolding issued_at read_time set_expires_at
  issued_at_after c e h = rw (lookup-insert, h) refl

  pub fill_claims-Open :
      (now : Time) (uuid : String) (d : Duration) (iss : String) (c : Claims F)
      → Open c
      → (c' : Claims F) × (fill_claims host now uuid d iss c ≡ ok c')
  unfolding fill_claims expires_at
  fill_claims-Open now uuid d iss c (no_exp, no_iat, no_iss) =
      let c1 = set_expires_at host c (plus now d) in
      let c2 = set_issued_at host c1 now in
      let (nbf, from, same) = default_nbf_lem host now c2 (not_before host c2) in
      let exp_missing = read_time-absent host c key_expires_at no_exp in
      let iat_missing = issued_at_after c (plus now d) no_iat in
      let iss_missing = issuer_after c (plus now d) now nbf no_iss in
      let c4 = set_issuer (set_not_before host c2 nbf) iss in
      (default_jti host uuid c4 (id host c4), rw (exp_missing, iat_missing, same, iss_missing) refl)
