-- ===== src/Dict/Laws.antt =====
-- What a lookup finds after each map operation, and that keys stay distinct.
use jwtmint.Prelude.{
  String, ◌≡◌, ◌≢◌, refl, Option, none, some, [], ◌∷◌, arith, ◌==◌, eq_iff, if◌then◌else◌,
}
use jwtmint.Dict.{Dict, lookup, insert, delete, overlay}

-- The first choice, or else the second.
abbrev pub or_else {ℓ} : {A : Type ℓ} → Option A → Option A → Option A
or_else none b = b
or_else (some a) b = some a

module _ {ℓ} {V : Type ℓ} where
  pub lookup-empty : (k : String) (v : V) → lookup k [] ≢ some v
  unfolding lookup
  lookup-empty k v h = cc

  -- A write is seen at its own key alone.
  pub lookup-insert :
      (written read : String) (v : V) (m : Dict V)
      → lookup read (insert written v m) ≡ (if written == read then some v else lookup read m)
  unfolding insert lookup
  lookup-insert written read v ((first, w) ∷ m) = ground (
    arith,
    lookup-insert written read v m,
    eq_iff first written,
    eq_iff first read,
    eq_iff written read,
  )
  lookup-insert written read v [] = refl

  pub lookup-delete :
      (k j : String) (m : Dict V) → lookup j (delete k m) ≡ (if k == j then none else lookup j m)
  unfolding lookup delete
  lookup-delete k j [] = ground arith
  lookup-delete k j ((i, w) ∷ m) =
      ground (arith, lookup-delete k j m, eq_iff i k, eq_iff i j, eq_iff k j)

  pub lookup-overlay :
      (j : String) (m over : Dict V)
      → lookup j (overlay m over) ≡ or_else (lookup j over) (lookup j m)
  unfolding overlay lookup
  lookup-overlay j m [] = refl
  lookup-overlay j m ((k, v) ∷ over) =
      ground (arith, lookup-insert k j v (overlay m over), lookup-overlay j m over)

  -- No key stands twice, as in every Go map.
  abbrev pub Distinct : Dict V → Type ℓ
  Distinct [] = Unit
  Distinct ((k, v) ∷ m) = (lookup k m ≡ none) × Distinct m

  pub insert-Distinct : (k : String) (v : V) (m : Dict V) → Distinct m → Distinct (insert k v m)
  unfolding insert
  insert-Distinct k v [] d = (unfold lookup in refl, tt)
  insert-Distinct k v ((j, w) ∷ m) (fresh, d) =
      ground (arith, eq_iff j k, eq_iff k j, lookup-insert k j v m, insert-Distinct k v m)

  pub delete-Distinct : (k : String) (m : Dict V) → Distinct m → Distinct (delete k m)
  unfolding delete
  delete-Distinct k [] d = tt
  delete-Distinct k ((j, w) ∷ m) (fresh, d) =
      ground (arith, eq_iff j k, eq_iff k j, lookup-delete k j m, delete-Distinct k m)

pub ruleset dict_laws = (lookup-insert, lookup-delete, lookup-overlay)
