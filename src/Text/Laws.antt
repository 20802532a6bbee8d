-- ===== src/Text/Laws.antt =====
-- Trimming leaves no blank at either end; words joined by spaces are the fields of the result.
use Prim.Native.Char.{Char, code}
use Prim.Native.String
use Prim.Native.String.{String, [], ◌∷◌}
use mathlib.Core.Option.{some-injective}
use text.Mathlib.TextLemmas.{nil-append, cons-append}
use text.Mathlib.TextEquality.{Char-path}
use jwtmint.Prelude.{
  ℕ, ◌≡◌, refl, sym, ◌∙◌, Option, none, some, arith, if◌then◌else◌, Bool, true, false, ◌||◌, List,
  [], ◌∷◌, eqb, ap, Bool-cases, inl, inr, All,
}
use jwtmint.Text.{
  is_space, trim_left, trim_cons, trim_right, trim_space, split_by, fields, has_space, join_space,
  is_blank, strip_prefix,
}

-- The first character is none that `p` holds of.
abbrev pub StartsOutside : (ℕ → Bool) → String → Type 0
StartsOutside p [] = Unit
StartsOutside p (c ∷ s) = p (code c) ≡ false

abbrev pub EndsOutside : (ℕ → Bool) → String → Type 0
EndsOutside p [] = Unit
EndsOutside p (c ∷ []) = p (code c) ≡ false
EndsOutside p (c ∷ d ∷ s) = EndsOutside p (d ∷ s)

-- No character is one that `p` holds of.
abbrev pub Avoids : (ℕ → Bool) → String → Type 0
Avoids p [] = Unit
Avoids p (c ∷ s) = (p (code c) ≡ false) × Avoids p s

pub trim_left-StartsOutside : (p : ℕ → Bool) (s : String) → StartsOutside p (trim_left p s)
unfolding trim_left
trim_left-StartsOutside p [] = tt
trim_left-StartsOutside p (c ∷ s) = elim (Bool-cases (p (code c))) [
  | inl t ↦ rw t (trim_left-StartsOutside p s)
  | inr f ↦ rw f f
]

trim_cons-EndsOutside :
    (p : ℕ → Bool) (c : Char) (s : String) → EndsOutside p s → EndsOutside p (trim_cons p c s)
trim_cons-EndsOutside p c [] h = elim (Bool-cases (p (code c))) [ inl t ↦ rw t tt | inr f ↦ rw f f ]
trim_cons-EndsOutside p c (d ∷ s) h = h

pub trim_right-EndsOutside : (p : ℕ → Bool) (s : String) → EndsOutside p (trim_right p s)
unfolding trim_right
trim_right-EndsOutside p [] = tt
trim_right-EndsOutside p (c ∷ s) =
    trim_cons-EndsOutside p c (trim_right p s) (trim_right-EndsOutside p s)

-- Trimming the right end keeps the first character, unless nothing is left.
pub trim_right-StartsOutside :
    (p : ℕ → Bool) (q : ℕ → Bool) (s : String)
    → StartsOutside q s
    → StartsOutside q (trim_right p s)
unfolding trim_right
trim_right-StartsOutside p q [] h = tt
trim_right-StartsOutside p q (c ∷ s) h = go (trim_right p s)
  where
    go : (t : String) → StartsOutside q (trim_cons p c t)
    go [] = elim (Bool-cases (p (code c))) [ inl t ↦ rw t tt | inr f ↦ rw f h ]
    go (d ∷ t) = h

pub trim_space-StartsOutside : (s : String) → StartsOutside is_space (trim_space s)
unfolding trim_space
trim_space-StartsOutside s =
    trim_right-StartsOutside is_space is_space (trim_left is_space s)
      (trim_left-StartsOutside is_space s)

pub trim_space-EndsOutside : (s : String) → EndsOutside is_space (trim_space s)
unfolding trim_space
trim_space-EndsOutside s = trim_right-EndsOutside is_space (trim_left is_space s)

-- A text that avoids the separators is one part.
pub split_by-Avoids : (p : ℕ → Bool) (w : String) → Avoids p w → split_by p w ≡ w ∷ []
unfolding split_by
split_by-Avoids p [] h = refl
split_by-Avoids p (c ∷ w) (f, h) = rw (f, split_by-Avoids p w h) refl

-- A separator closes the part in front of it.
split_by-append :
    (p : ℕ → Bool) (w : String) (d : Char) (s : String)
    → Avoids p w
    → p (code d) ≡ true
    → split_by p (String.◌++◌ w (d ∷ s)) ≡ w ∷ split_by p s
unfolding split_by
split_by-append p [] d s h t = rw (nil-append, t) refl
split_by-append p (c ∷ w) d s (f, h) t = rw (cons-append, f, split_by-append p w d s h t) refl

-- A word: not empty, and with no blank in it.
abbrev pub IsWord : String → Type 0
IsWord w = (is_blank w ≡ false) × Avoids is_space w

-- strings.Fields takes apart what strings.Join put together.
pub fields-join_space : (ws : List String) → All IsWord ws → fields (join_space ws) ≡ ws
unfolding fields join_space
fields-join_space [] h = unfold split_by in refl
fields-join_space (w ∷ []) ((b, a), _) = rw (split_by-Avoids is_space w a, b) refl
fields-join_space (w ∷ v ∷ ws) ((b, a), h) =
    rw (cons-append, nil-append, split_by-append is_space w " " (join_space (v ∷ ws)) a refl, b)
      (ap (λ r. w ∷ r) (fields-join_space (v ∷ ws) h))

or_true : (b : Bool) → (b || true) ≡ true
or_true true = refl
or_true false = refl

-- A text that two words joined by a space begin holds a space.
pub has_space-join_space :
    (v w : String) (ws : List String) → has_space (join_space (v ∷ w ∷ ws)) ≡ true
unfolding join_space has_space
has_space-join_space [] w ws = rw (nil-append, cons-append) refl
has_space-join_space (c ∷ v) w ws =
    rw (cons-append, has_space-join_space v w ws) (or_true (eqb (code c) 32))

prefix_step :
    (c d : Char) (p : String) (rest : Option String) (s t : String)
    → (rest ≡ some t → s ≡ String.◌++◌ p t)
    → (if eqb (code c) (code d) then rest else none) ≡ some t
    → d ∷ s ≡ String.◌++◌ (c ∷ p) t
prefix_step c d p rest s t ih h = elim (Bool-cases (eqb (code c) (code d))) [
  | inl same ↦
      let is_d : c ≡ d = Char-path c d (ground arith) in
      rw (cons-append, is_d, ih (rw same at h)) refl
  | inr other ↦ let gone : none ≡ some t = rw other at h in cc
]

pub strip_prefix-to : (p s t : String) → strip_prefix p s ≡ some t → s ≡ String.◌++◌ p t
unfolding strip_prefix
strip_prefix-to [] s t h = some-injective _ _ h ∙ sym (nil-append t)
strip_prefix-to (c ∷ p) [] t h = cc
strip_prefix-to (c ∷ p) (d ∷ s) t h =
    prefix_step c d p (strip_prefix p s) s t (strip_prefix-to p s t) h

pub strip_prefix-append : (p t : String) → strip_prefix p (String.◌++◌ p t) ≡ some t
unfolding strip_prefix
strip_prefix-append [] t = rw nil-append refl
strip_prefix-append (c ∷ p) t = rw (cons-append, strip_prefix-append p t) (ground arith)

trim_left-fixed : (p : ℕ → Bool) (s : String) → StartsOutside p s → trim_left p s ≡ s
unfolding trim_left
trim_left-fixed p [] h = refl
trim_left-fixed p (c ∷ s) h = rw h refl

trim_right-fixed : (p : ℕ → Bool) (s : String) → EndsOutside p s → trim_right p s ≡ s
unfolding trim_right
trim_right-fixed p [] h = refl
trim_right-fixed p (c ∷ []) h = rw h refl
trim_right-fixed p (c ∷ d ∷ s) h = ap (trim_cons p c) (trim_right-fixed p (d ∷ s) h)

-- Trimming twice is trimming once.
pub trim_space-trim_space : (s : String) → trim_space (trim_space s) ≡ trim_space s
unfolding trim_space
trim_space-trim_space s =
    let t : String = trim_right is_space (trim_left is_space s) in
    ap (trim_right is_space) (trim_left-fixed is_space t (trim_space-StartsOutside s))
    ∙ trim_right-fixed is_space t (trim_space-EndsOutside s)
