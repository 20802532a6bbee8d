-- ===== src/Claims/Matching/Laws.antt =====
-- What the matching functions return, and the shape of a normalised text.
use jwtmint.Prelude.{
  String, ◌≡◌, ◌↔◌, refl, Bool, true, false, List, [], ◌∷◌, contains, keep, is_empty, arith,
  Bool-cases, inl, inr, All, if◌then◌else◌, eq_iff, eq_refl,
}
use jwtmint.Text.{is_space, trim_right, trim_space, is_slash}
use jwtmint.Text.Laws.{StartsOutside, EndsOutside, trim_space-StartsOutside, trim_space-EndsOutside}
use jwtmint.Errors.{Err, ok, err}
use jwtmint.Claims.Matching.{normalize_string, normalize_string_slice, overlap}

-- A normalised text begins and ends with no white space.
pub normalize_string_trimmed :
    (s : String)
    → StartsOutside is_space (normalize_string s) × EndsOutside is_space (normalize_string s)
unfolding normalize_string
normalize_string_trimmed s = (
  trim_space-StartsOutside (trim_right is_slash (trim_space s)),
  trim_space-EndsOutside (trim_right is_slash (trim_space s)),
)

-- `x` is one of the texts, after normalisation.
abbrev pub Lists : List String → String → Type 0
Lists have x = contains (normalize_string_slice have) x ≡ true

-- Every item that is kept passes the test, and stands in the list.
keep-All : (p : String → Bool) (ws : List String) → All (λ w. p w ≡ true) (keep p ws)
keep-All p [] = tt
keep-All p (w ∷ ws) = elim (Bool-cases (p w)) [
  | inl t ↦ rw t (t, keep-All p ws)
  | inr f ↦ rw f (keep-All p ws)
]

-- An item is kept exactly if it stands in the list and passes the test.
keep-contains :
    (p : String → Bool) (ws : List String) (x : String)
    → (contains (keep p ws) x ≡ true) ↔ ((contains ws x ≡ true) × (p x ≡ true))
keep-contains p [] x = ground arith
keep-contains p (w ∷ ws) x = ground (arith, keep-contains p ws x, eq_iff w x)

contains-nil : (ws : List String) (x : String) → is_empty ws ≡ true → contains ws x ≡ false
contains-nil [] x h = refl
contains-nil (w ∷ ws) x h = cc

contains-head : (ws : List String) → is_empty ws ≡ false → (x : String) × (contains ws x ≡ true)
contains-head [] h = cc
contains-head (w ∷ ws) h = (w, rw (eq_refl w) refl)

map-is_empty : (ws : List String) → is_empty (normalize_string_slice ws) ≡ is_empty ws
unfolding normalize_string_slice
map-is_empty [] = refl
map-is_empty (w ∷ ws) = refl

module _ (nothing disjoint : Err) (have want : List String) where
  abbrev matched : List String
  matched = keep (contains (normalize_string_slice have)) (normalize_string_slice want)

  overlap-eq : overlap nothing disjoint have want ≡ (
      if is_empty have then err nothing else if is_empty matched then err disjoint else ok matched)
  unfolding overlap
  overlap-eq = refl

  -- A list that a matching function returns holds exactly the texts that both lists hold after
  -- normalisation.
  pub overlap_sound :
      (ms : List String) (x : String)
      → overlap nothing disjoint have want ≡ ok ms
      → (contains ms x ≡ true) ↔ (Lists want x × Lists have x)
  overlap_sound ms x e =
      let same : ms ≡ matched = ground (arith, overlap-eq) in
      rw same
        (keep-contains (contains (normalize_string_slice have)) (normalize_string_slice want) x)

  -- The matching functions return a list exactly if the claim and the call share a text after
  -- normalisation.
  pub overlap_iff :
      ((ms : List String) × (overlap nothing disjoint have want ≡ ok ms))
      ↔ ((x : String) × Lists want x × Lists have x)
  overlap_iff = (to, from)
    where
      to :
          (ms : List String) × (overlap nothing disjoint have want ≡ ok ms)
          → (x : String) × Lists want x × Lists have x
      to (ms, e) =
          let some_left : is_empty ms ≡ false = ground (arith, overlap-eq) in
          let (x, h) = contains-head ms some_left in
          let (a, b) = (overlap_sound ms x e).0 h in (x, a, b)

      from :
          (x : String) × Lists want x × Lists have x
          → (ms : List String) × (overlap nothing disjoint have want ≡ ok ms)
      from (x, a, b) =
          let kept =
            (keep-contains (contains (normalize_string_slice have)) (normalize_string_slice want)
                x).1
              (a, b) in
          (
            matched,
            ground (
              arith,
              overlap-eq,
              map-is_empty have,
              contains-nil matched x,
              contains-nil (normalize_string_slice have) x,
            ),
          )
