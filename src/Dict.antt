-- ===== src/Dict.antt =====
-- Go's `map[string]T` as an association list. A nil map reads like an empty one. The order in which
-- Go ranges over a map is not specified; the models range in list order, and what is proved of
-- lookups does not depend on it.
pub mod Laws
use jwtmint.Prelude.{String, Bool, Option, none, some, List, [], ◌∷◌, ◌==◌, if◌then◌else◌, is_some}

abbrev pub Dict {ℓ} : Type ℓ → Type ℓ
Dict V = List (String × V)

module _ {ℓ} {V : Type ℓ} where
  -- `v, ok := m[k]`
  unfoldable pub lookup : String → Dict V → Option V
  lookup k [] = none
  lookup k ((j, v) ∷ m) = if j == k then some v else lookup k m

  -- `_, ok := m[k]`
  unfoldable pub has : String → Dict V → Bool
  unfolding lookup
  has k m = is_some (lookup k m)

  -- `m[key] = v`
  unfoldable pub insert : String → V → Dict V → Dict V
  insert key v ((first, w) ∷ m) = if first == key then (key, v) ∷ m else (first, w) ∷ insert key v m
  insert key v [] = (key, v) ∷ []

  -- `delete(m, k)`
  unfoldable pub delete : String → Dict V → Dict V
  delete k [] = []
  delete k ((j, w) ∷ m) = let rest = delete k m in if j == k then rest else (j, w) ∷ rest

  -- `for k, v := range over { m[k] = v }`
  unfoldable pub overlay : Dict V → Dict V → Dict V
  unfolding insert
  overlay m [] = m
  overlay m ((k, v) ∷ over) = insert k v (overlay m over)
