-- ===== src/Claims/Profile/Laws.antt =====
-- Scope reads back what SetScope wrote.
use Prim.Native.Char.{code}
use Prim.Native.String.{[], ◌∷◌}
use text.Mathlib.TextLemmas.{cons-append}
use jwtmint.Prelude.{ℕ, eqb, String, ◌≡◌, refl, false, List, [], ◌∷◌, arith, All}
use jwtmint.Text.{is_space, is_comma, is_blank, has_space, join_space, split_comma}
use jwtmint.Text.Laws.{IsWord, Avoids, fields-join_space, has_space-join_space, split_by-Avoids}
use jwtmint.Errors.{ok}
use jwtmint.Dict.Laws.{lookup-insert}
use jwtmint.Claims.Value.{Claims}
use jwtmint.Claims.Profile.{scope, set_scope}

-- The lists of scopes that a claim can carry: at least one, each of them a word, and a single one
-- with no comma in it.
abbrev pub CanBeScope : List String → Type 0
CanBeScope [] = ⊥
CanBeScope (w ∷ []) = IsWord w × Avoids is_comma w
CanBeScope (v ∷ w ∷ ws) = All IsWord (v ∷ w ∷ ws)

is_space-of-space : (n : ℕ) → is_space n ≡ false → eqb n 32 ≡ false
is_space-of-space n h = ground arith

has_space-word : (w : String) → Avoids is_space w → has_space w ≡ false
unfolding has_space
has_space-word [] h = refl
has_space-word (c ∷ w) (f, h) = rw (is_space-of-space (code c) f, has_space-word w h) refl

is_blank-join_space :
    (v w : String) (ws : List String)
    → is_blank v ≡ false
    → is_blank (join_space (v ∷ w ∷ ws)) ≡ false
unfolding join_space
is_blank-join_space [] w ws h = cc
is_blank-join_space (c ∷ v) w ws h = rw cons-append refl

module _ {F : Type 0} where
  -- Scope reads back the scopes that SetScope wrote, if the list is not empty, every scope is a
  -- word, and a single scope has no comma.
  pub scope-set_scope :
      (c : Claims F) (ws : List String) → CanBeScope ws → scope (set_scope c ws) ≡ ok ws
  unfolding scope set_scope
  scope-set_scope c [] h = elim h [ ]
  scope-set_scope c (w ∷ []) ((b, a), k) = rw lookup-insert (
      unfold join_space split_comma in
      rw (b, has_space-word w a, split_by-Avoids is_comma w k) refl)
  scope-set_scope c (v ∷ w ∷ ws) h = rw lookup-insert (
      rw
        (
          is_blank-join_space v w ws h.0.0,
          has_space-join_space v w ws,
          fields-join_space (v ∷ w ∷ ws) h,
        )
        refl)
