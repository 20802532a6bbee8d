-- ===== src/TokenReview/Users/Laws.antt =====
-- The user of a token's claims: its name, and where each claim is found.
use Prim.Native.String
use mathlib.Core.Path.{subst}
use mathlib.Core.Option.{some-injective}
use jwtmint.Prelude.{
  String, ◌≡◌, ◌≢◌, refl, sym, ap, ◌∙◌, true, false, Option, none, some, List, [], ◌∷◌, ◌==◌, ◌⊎◌,
  is_empty, eq_iff, eq_refl, arith, Bool-cases, inl, inr, if◌then◌else◌,
}
use jwtmint.Text.{is_blank, strip_prefix}
use jwtmint.Text.Laws.{strip_prefix-append}
use jwtmint.Errors.{ok, err, if-eq-ok, ok-injective, Result, invalid_claims}
use jwtmint.Dict.{Dict, lookup}
use jwtmint.Dict.Laws.{or_else, lookup-insert, Distinct}
use jwtmint.Claims.Value.{Value, str, strs, items, Items, nil, cons, Claims, Host}
use jwtmint.Claims.Registered.{subject}
use jwtmint.TokenReview.Users.{
  UserInfo, text_of, texts_in, non_empty, with_audience, extra_value, put, is_mapped, add_claims,
  user_of, default_user_info_mapper,
}

prefixed_injective : (p s t : String) → String.◌++◌ p s ≡ String.◌++◌ p t → s ≡ t
prefixed_injective p s t h =
    some-injective _ _
      (sym (strip_prefix-append p s) ∙ ap (strip_prefix p) h ∙ strip_prefix-append p t)

-- The key of Extra under which a claim goes.
abbrev pub extra_key : String → String
extra_key k = String.◌++◌ "claim_" k

lookup-put :
    (j k : String) (o : Option (List String)) (extra : Dict (List String))
    → lookup (extra_key k) (put j o extra)
      ≡ (if j == k then or_else o (lookup (extra_key k) extra) else lookup (extra_key k) extra)
lookup-put j k none extra = ground arith
lookup-put j k (some ev) extra = elim (Bool-cases (j == k)) [
  | inl same ↦
      let e : j ≡ k = (eq_iff j k).0 same in rw (lookup-insert, same, e, eq_refl (extra_key k)) refl
  | inr other ↦ elim (Bool-cases (extra_key j == extra_key k)) [
    | inl bad ↦
        let e = prefixed_injective "claim_" j k ((eq_iff (extra_key j) (extra_key k)).0 bad) in
        let t = (eq_iff j k).1 e in let clash : true ≡ false = sym t ∙ other in cc
    | inr fine ↦ rw (lookup-insert, other, fine) refl
  ]
]

module _ {F : Type 0} where
  -- A step of the loop at another key, or at a key that is mapped, leaves the entry alone.
  lookup-step :
      (j k : String) (v : Value F) (extra : Dict (List String))
      → is_mapped k ≡ false
      → lookup (extra_key k) (if is_mapped j then extra else put j (extra_value v) extra) ≡ (
          if j == k
          then or_else (extra_value v) (lookup (extra_key k) extra)
          else lookup (extra_key k) extra)
  lookup-step j k v extra free = elim (Bool-cases (is_mapped j)) [
    | inl mapped ↦ elim (Bool-cases (j == k)) [
      | inl same ↦
          let e : j ≡ k = (eq_iff j k).0 same in
          let clash : true ≡ false = sym mapped ∙ ap is_mapped e ∙ free in cc
      | inr other ↦ rw (mapped, other) refl
    ]
    | inr open_key ↦ rw open_key (lookup-put j k (extra_value v) extra)
  ]

  lookup-absent :
      (k : String) (c : Claims F) (extra : Dict (List String))
      → is_mapped k ≡ false
      → lookup k c ≡ none
      → lookup (extra_key k) (add_claims c extra) ≡ lookup (extra_key k) extra
  unfolding add_claims lookup
  lookup-absent k [] extra free absent = refl
  lookup-absent k ((j, v) ∷ c) extra free absent = elim (Bool-cases (j == k)) [
    | inl same ↦ let clash : some v ≡ none = rw same at absent in cc
    | inr other ↦
        lookup-absent k c _ free (rw other at absent)
        ∙ lookup-step j k v extra free
        ∙ (rw other refl)
  ]

  lookup-add_claims :
      (k : String) (v : Value F) (c : Claims F) (extra : Dict (List String))
      → Distinct c
      → is_mapped k ≡ false
      → lookup k c ≡ some v
      → lookup (extra_key k) (add_claims c extra)
        ≡ or_else (extra_value v) (lookup (extra_key k) extra)
  unfolding add_claims lookup
  lookup-add_claims k v [] extra d free found = cc
  lookup-add_claims k v ((j, w) ∷ c) extra (fresh, d) free found = elim (Bool-cases (j == k)) [
    | inl same ↦
        let e : j ≡ k = (eq_iff j k).0 same in
        let is_v : w ≡ v = some-injective _ _ (rw same at found) in
        lookup-absent k c _ free (rw (← e) fresh)
        ∙ lookup-step j k w extra free
        ∙ (rw (same, is_v) refl)
    | inr other ↦
        lookup-add_claims k v c _ d free (rw other at found)
        ∙ ap (or_else (extra_value v)) (lookup-step j k w extra free ∙ (rw other refl))
  ]

module _ {F : Type 0} where
  -- The texts among the items, in their order.
  abbrev pub Texts : Items F → List String → Type 0
  Texts nil ss = ss ≡ []
  Texts (cons (str s) vs) ss = (rest : List String) × (ss ≡ s ∷ rest) × Texts vs rest
  Texts (cons _ vs) ss = Texts vs ss

  -- What Extra has for a claim: its text, its texts, or the texts among its items if there are some.
  abbrev pub Shows : Value F → Option (List String) → Type 0
  Shows (str s) o = o ≡ some (s ∷ [])
  Shows (strs ss) o = o ≡ some ss
  Shows (items vs) o =
      (ss : List String) × Texts vs ss
      × (((ss ≡ []) × (o ≡ none)) ⊎ ((is_empty ss ≡ false) × (o ≡ some ss)))
  Shows _ o = o ≡ none

  texts_in-Texts : (vs : Items F) → Texts vs (texts_in vs)
  unfolding texts_in
  texts_in-Texts nil = refl
  texts_in-Texts (cons (str s) vs) = (texts_in vs, refl, texts_in-Texts vs)
  texts_in-Texts (cons _ vs) = texts_in-Texts vs

  extra_value-Shows : (v : Value F) → Shows v (extra_value v)
  unfolding extra_value
  extra_value-Shows (str s) = refl
  extra_value-Shows (strs ss) = refl
  extra_value-Shows (items vs) = (texts_in vs, texts_in-Texts vs, go (texts_in vs))
    where
      go :
          (ss : List String)
          → ((ss ≡ []) × (non_empty ss ≡ none)) ⊎ ((is_empty ss ≡ false) × (non_empty ss ≡ some ss))
      go [] = inl (refl, refl)
      go (s ∷ ss) = inr (refl, refl)
  extra_value-Shows _ = refl

-- No key with the prefix is "aud".
extra_key-ne-aud : (k : String) → "aud" ≢ extra_key k
unfolding strip_prefix
extra_key-ne-aud k h =
    let clash : none ≡ some k = ap (strip_prefix "claim_") h ∙ strip_prefix-append "claim_" k in cc

lookup-with_audience :
    (k : String) (r : Result (List String)) → lookup (extra_key k) (with_audience r) ≡ none
unfolding lookup
lookup-with_audience k (err e) = refl
lookup-with_audience k (ok aud) = elim (Bool-cases ("aud" == extra_key k)) [
  | inl same ↦ absurd (extra_key-ne-aud k ((eq_iff "aud" (extra_key k)).0 same))
  | inr other ↦ rw other refl
]

or_else-none : {A : Type 0} (o : Option A) → or_else o none ≡ o
or_else-none none = refl
or_else-none (some a) = refl

subject_read : (r : Result String) → is_blank (text_of r) ≡ false → r ≡ ok (text_of r)
subject_read (ok s) h = refl
subject_read (err e) h = cc

module _ {F : Type 0} (host : Host F) where
  -- A user of DefaultUserInfoMapper has the name that is read as the subject, which is not blank,
  -- and holds under "claim_" and the key of each claim that is neither registered nor the groups
  -- its text, its texts, or the texts among its items if there are some, and nothing for another
  -- value, if no key of the claims stands twice.
  pub default_user_info_mapper_lem :
      (c : Claims F) (user : UserInfo) (k : String) (v : Value F)
      → default_user_info_mapper host c ≡ ok user
      → Distinct c
      → is_mapped k ≡ false
      → lookup k c ≡ some v
      → (subject host c ≡ ok user.username)
        × (is_blank user.username ≡ false)
        × Shows v (lookup (extra_key k) user.extra)
  unfolding default_user_info_mapper
  default_user_info_mapper_lem c user k v h distinct free found =
      let (named, made) = if-eq-ok (is_blank (user_of host c).username) (invalid_claims ∷ []) _ h in
      let same = ok-injective made in
      rw (← same) (
        subject_read (subject host c) named,
        named,
        subst (Shows v)
            (sym (
              lookup-add_claims k v c _ distinct free found
              ∙ ap (or_else (extra_value v)) (lookup-with_audience k _)
              ∙ or_else-none (extra_value v)))
            (extra_value-Shows v),
      )
