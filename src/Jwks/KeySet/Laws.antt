-- ===== src/Jwks/KeySet/Laws.antt =====
-- A key set that is made of a list of keys.
use jwtmint.Prelude.{
  String, ◌≡◌, inl, inr, refl, false, some, List, [], ◌∷◌, In, eq_iff, eq_refl, arith,
}
use jwtmint.Errors.{ok, >>=-eq-ok, ok-injective}
use jwtmint.Dict.{lookup, has, insert}
use jwtmint.Dict.Laws.{lookup-insert}
use jwtmint.Jwks.KeySet.{Jwk, KeySet, add, lookup_key, add_all, from_jwks}

module _ {K : Type 0} where
  -- A key that is added was not there, and keeps those that were.
  add-eq-ok :
      (j : Jwk K) (ks out : KeySet K)
      → add j ks ≡ ok out
      → (has j.kid ks ≡ false) × (out ≡ insert j.kid j ks)
  unfolding add
  add-eq-ok j ks out h = ground arith

  insert-keeps :
      (j i : Jwk K) (ks : KeySet K) (kid : String)
      → has j.kid ks ≡ false
      → lookup kid ks ≡ some i
      → lookup kid (insert j.kid j ks) ≡ some i
  unfolding has
  insert-keeps j i ks kid new held = ground (arith, lookup-insert j.kid kid j ks, eq_iff j.kid kid)

  add_all-keeps :
      (js : List (Jwk K)) (ks out : KeySet K) (i : Jwk K) (kid : String)
      → add_all js ks ≡ ok out
      → lookup kid ks ≡ some i
      → lookup kid out ≡ some i
  unfolding add_all
  add_all-keeps [] ks out i kid h held = let same : ks ≡ out = ok-injective h in rw (← same) held
  add_all-keeps (j ∷ js) ks out i kid h held =
      let (mid, added, rest) = >>=-eq-ok (add j ks) _ h in
      let (new, same) = add-eq-ok j ks mid added in
      add_all-keeps js mid out i kid rest (rw same (insert-keeps j i ks kid new held))

  add_all-In :
      (js : List (Jwk K)) (ks out : KeySet K) (i : Jwk K)
      → add_all js ks ≡ ok out
      → In i js
      → lookup i.kid out ≡ some i
  unfolding add_all
  add_all-In [] ks out i h member = absurd member
  add_all-In (j ∷ js) ks out i h (inl same) =
      let (mid, added, rest) = >>=-eq-ok (add j ks) _ h in
      let (new, is_mid) = add-eq-ok j ks mid added in
      let found : lookup j.kid mid ≡ some j = rw (is_mid, lookup-insert, eq_refl j.kid) refl in
      rw (← same) (add_all-keeps js mid out j j.kid rest found)
  add_all-In (j ∷ js) ks out i h (inr member) =
      let (mid, added, rest) = >>=-eq-ok (add j ks) _ h in add_all-In js mid out i rest member

  -- A key set that FromJWKS makes of a list holds every key of the list under its kid.
  pub lookup_key-from_jwks :
      (keys : List (Jwk K)) (ks : KeySet K) (j : Jwk K)
      → from_jwks keys ≡ ok ks
      → In j keys
      → lookup_key j.kid ks ≡ ok j
  unfolding from_jwks lookup_key
  lookup_key-from_jwks keys ks j h member = rw (add_all-In keys [] ks j h member) refl
