-- ===== src/Claims/Copy/Laws.antt =====
-- What a copy of a claim set holds: claims.ShallowCopy the same values, claims.DeepCopy each value as
-- a JSON round trip gives it back.
use jwtmint.Prelude.{
  String, ◌≡◌, refl, Option, none, some, [], ◌∷◌, ◌⊎◌, inl, inr, arith, Option-cases,
}
use jwtmint.Dict.{lookup}
use jwtmint.Dict.Laws.{lookup-overlay, or_else}
use jwtmint.Claims.Value.{str, Claims, Host}
use jwtmint.Claims.Copy.{json_value, json_claims, shallow_copy, deep_copy, ◌>>=◌, or_shallow}

pub or_else-none {ℓ} : {A : Type ℓ} (o : Option A) → or_else o none ≡ o
or_else-none none = refl
or_else-none (some a) = refl

module _ {F : Type 0} (host : Host F) where
  pub lookup-shallow_copy :
      (c : Claims F) (k : String) → lookup k (shallow_copy host c) ≡ lookup k c
  unfolding shallow_copy lookup
  lookup-shallow_copy c k = rw lookup-overlay (or_else-none (lookup k c))

  lookup-json_claims :
      (c d : Claims F) (k : String)
      → json_claims host c ≡ some d
      → lookup k d ≡ (lookup k c >>= json_value host)
  unfolding json_claims lookup
  lookup-json_claims [] d k e = ground arith
  lookup-json_claims ((j, v) ∷ c) d k e = elim (Option-cases (json_value host v)) [
    | inl f ↦ ground arith
    | inr (w, f) ↦ elim (Option-cases (json_claims host c)) [
      | inl g ↦ ground arith
      | inr (d', g) ↦ ground (arith, lookup-json_claims c d' k g)
    ]
  ]

  -- DeepCopy holds under a key what the original holds, or what a JSON round trip makes of it.
  pub lookup-deep_copy :
      (c : Claims F) (k : String)
      → (lookup k (deep_copy host c) ≡ lookup k c)
        ⊎ (lookup k (deep_copy host c) ≡ (lookup k c >>= json_value host))
  unfolding deep_copy
  lookup-deep_copy [] k = inl refl
  lookup-deep_copy ((j, v) ∷ c) k = elim (Option-cases (json_claims host ((j, v) ∷ c))) [
    | inl f ↦ inl (rw (f, or_shallow) (lookup-shallow_copy ((j, v) ∷ c) k))
    | inr (d, f) ↦ inr (rw (f, or_shallow) (lookup-json_claims ((j, v) ∷ c) d k f))
  ]

  pub deep_copy-absent :
      (c : Claims F) (k : String) → lookup k c ≡ none → lookup k (deep_copy host c) ≡ none
  deep_copy-absent c k h = elim (lookup-deep_copy c k) [ inl e ↦ rw e h | inr e ↦ rw (e, h) refl ]

  pub deep_copy-str :
      (c : Claims F) (k s : String)
      → lookup k c ≡ some (str s)
      → lookup k (deep_copy host c) ≡ some (str s)
  unfolding json_value
  deep_copy-str c k s h = elim (lookup-deep_copy c k) [ inl e ↦ rw e h | inr e ↦ rw (e, h) refl ]
