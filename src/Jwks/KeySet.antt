-- ===== src/Jwks/KeySet.antt =====
-- jwks/keyset.go. `K` is what a JWK holds besides its kid.
pub mod Laws
use jwtmint.Prelude.{ℕ, String, Option, none, some, List, [], ◌∷◌, length, if◌then◌else◌}
use jwtmint.Errors.{Result, ok, err, ◌>>=◌, invalid_value, not_found}
use jwtmint.Dict.{Dict, lookup, has, insert, delete}

-- jwks.JWK
pub record Jwk (K : Type 0) : Type 0 where
  pub kid : String
  pub material : K

-- jwks.KeySet
abbrev pub KeySet : Type 0 → Type 0
KeySet K = Dict (Jwk K)

module _ {K : Type 0} where
  -- (*KeySet).Add
  unfoldable pub add : Jwk K → KeySet K → Result (KeySet K)
  add j ks = if has j.kid ks then err (invalid_value ∷ []) else ok (insert j.kid j ks)

  -- (*KeySet).Replace
  unfoldable pub replace : Jwk K → KeySet K → KeySet K
  replace j ks = insert j.kid j ks

  -- (*KeySet).Remove
  unfoldable pub remove : String → KeySet K → KeySet K
  remove kid ks = delete kid ks

  -- What Lookup makes of what the map holds.
  abbrev pub found_or_error : Option (Jwk K) → Result (Jwk K)
  found_or_error none = err (not_found ∷ [])
  found_or_error (some j) = ok j

  -- (*KeySet).Lookup
  unfoldable pub lookup_key : String → KeySet K → Result (Jwk K)
  lookup_key kid ks = found_or_error (lookup kid ks)

  -- The loop of FromJWKS.
  unfoldable pub add_all : List (Jwk K) → KeySet K → Result (KeySet K)
  unfolding add
  add_all [] ks = ok ks
  add_all (j ∷ js) ks = add j ks >>= add_all js

  -- jwks.FromJWKS
  unfoldable pub from_jwks : List (Jwk K) → Result (KeySet K)
  unfolding add_all
  from_jwks keys = add_all keys []
