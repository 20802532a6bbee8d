-- ===== src/Text.antt =====
-- What the source uses of Go's package strings, over the code points of a text.
pub mod Laws
use Prim.Native.Char.{Char, code}
use Prim.Native.String
use Prim.Native.String.{String, [], ◌∷◌}
use jwtmint.Prelude.{
  ℕ, Bool, true, false, Option, none, some, ◌||◌, ◌&&◌, List, [], ◌∷◌, eqb, leb, if◌then◌else◌,
  ◌==◌, not, keep,
}

-- unicode.IsSpace
abbrev pub is_space : ℕ → Bool
is_space c =
    leb 9 c && leb c 13
    || eqb c 32
    || eqb c 0x85
    || eqb c 0xA0
    || eqb c 0x1680
    || leb 0x2000 c && leb c 0x200A
    || eqb c 0x2028
    || eqb c 0x2029
    || eqb c 0x202F
    || eqb c 0x205F
    || eqb c 0x3000

abbrev pub is_slash : ℕ → Bool
is_slash c = eqb c b'/'

abbrev pub is_comma : ℕ → Bool
is_comma c = eqb c b','

abbrev pub is_blank : String → Bool
is_blank [] = true
is_blank (c ∷ s) = false

-- strings.TrimLeftFunc
unfoldable pub trim_left : (ℕ → Bool) → String → String
trim_left p [] = ""
trim_left p (c ∷ s) = let rest = trim_left p s in if p (code c) then rest else c ∷ s

-- What stays of `c ∷ s` when `rest` stays of `s`.
abbrev trim_cons : (ℕ → Bool) → Char → String → String
trim_cons p c [] = if p (code c) then "" else c ∷ ""
trim_cons p c (d ∷ s) = c ∷ d ∷ s

-- strings.TrimRightFunc
unfoldable pub trim_right : (ℕ → Bool) → String → String
trim_right p [] = ""
trim_right p (c ∷ s) = trim_cons p c (trim_right p s)

-- strings.TrimSpace
unfoldable pub trim_space : String → String
unfolding trim_left trim_right
trim_space s = trim_right is_space (trim_left is_space s)

-- A character before the first part.
abbrev push : Char → List String → List String
push c [] = (c ∷ "") ∷ []
push c (w ∷ ws) = (c ∷ w) ∷ ws

-- The parts between the characters that `p` holds of, the empty ones too.
unfoldable pub split_by : (ℕ → Bool) → String → List String
split_by p [] = "" ∷ []
split_by p (c ∷ s) = let rest = split_by p s in if p (code c) then "" ∷ rest else push c rest

-- strings.Split(s, ",")
unfoldable pub split_comma : String → List String
unfolding split_by
split_comma s = split_by is_comma s

-- strings.Fields
unfoldable pub fields : String → List String
unfolding split_by
fields s = keep (λ w. not (is_blank w)) (split_by is_space s)

-- strings.Contains(s, " ")
unfoldable pub has_space : String → Bool
has_space [] = false
has_space (c ∷ s) = eqb (code c) 32 || has_space s

-- strings.Join(ws, " ")
unfoldable pub join_space : List String → String
join_space [] = ""
join_space (w ∷ []) = w
join_space (w ∷ v ∷ ws) = String.◌++◌ w (String.◌++◌ " " (join_space (v ∷ ws)))

-- strings.HasPrefix and strings.TrimPrefix: what follows the prefix, none without it.
unfoldable pub strip_prefix : String → String → Option String
strip_prefix [] s = some s
strip_prefix (c ∷ p) [] = none
strip_prefix (c ∷ p) (d ∷ s) =
    let rest = strip_prefix p s in if eqb (code c) (code d) then rest else none
