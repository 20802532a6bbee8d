-- ===== src/Admission/Entries.antt =====
-- Lists of the policy as sets: what a text must be to be among them.
use jwtmint.Prelude.{
  String, ◌≡◌, ◌↔◌, inl, inr, refl, sym, ap, ◌∙◌, In, ◌==◌, true, false, none, List, [], ◌∷◌,
  is_empty, contains, All, if◌then◌else◌, arith, eq_iff, eq_refl, Bool-cases,
}
use jwtmint.Text.{is_blank, trim_space}
use jwtmint.Admission.{string_set, contains_string, all_in, any_in}

-- The text is an entry of the list, once the white space around the entry is cut off.
abbrev pub Trimmed : List String → String → Type 0
Trimmed list s = (is_blank s ≡ false) × ((e : String) × In e list × (trim_space e ≡ s))

pub contains_iff : (l : List String) (x : String) → (contains l x ≡ true) ↔ In x l
contains_iff [] x = (λ h. cc, λ h. absurd h)
contains_iff (y ∷ l) x =
    let (to, from) = contains_iff l x in
    (
      λ h. elim (Bool-cases (y == x)) [
        | inl same ↦ inl ((eq_iff y x).0 same)
        | inr other ↦ inr (to (ground arith))
      ],
      elim [
        | inl same ↦ let t = (eq_iff y x).1 same in ground arith
        | inr rest ↦ let t = from rest in ground arith
      ],
    )

-- The set of a list has the entries of the list without the white space around them.
pub string_set_iff :
    (list : List String) (s : String) → (contains (string_set list) s ≡ true) ↔ Trimmed list s
unfolding string_set
string_set_iff [] s = (λ h. cc, λ (_, (e, h, _)). absurd h)
string_set_iff (x ∷ list) s =
    let (to, from) = string_set_iff list s in
    let later : Trimmed list s → Trimmed (x ∷ list) s =
      λ (full, (e, h, same)). (full, (e, inr h, same)) in
    elim (Bool-cases (is_blank (trim_space x))) [
      | inl blank ↦ (
        λ h. later (to (rw blank at h)),
        λ (full, (e, h, same)). rw blank (elim h [
          | inl is_x ↦
              let clash : true ≡ false =
                sym blank ∙ ap (λ z. is_blank (trim_space z)) is_x ∙ ap is_blank same ∙ full in
              cc
          | inr rest ↦ from (full, (e, rest, same))
        ]),
      )
      | inr kept ↦ (
        λ h. elim (Bool-cases (trim_space x == s)) [
          | inl same ↦
              let e = (eq_iff (trim_space x) s).0 same in
              (sym (ap is_blank e) ∙ kept, (x, inl refl, e))
          | inr other ↦ later (to (rw (kept, other) at h))
        ],
        λ (full, (e, h, same)). rw kept (elim h [
          | inl is_x ↦
              let t = (eq_iff (trim_space x) s).1 (ap trim_space is_x ∙ same) in ground arith
          | inr rest ↦ let t = from (full, (e, rest, same)) in ground arith
        ]),
      )
    ]

pointwise_iff :
    {P Q : String → Type 0} (l : List String) → ((x : String) → P x ↔ Q x) → All P l ↔ All Q l
pointwise_iff [] f = (λ _. tt, λ _. tt)
pointwise_iff (x ∷ l) f =
    let (to, from) = pointwise_iff l f in
    (λ (a, b). ((f x).0 a, to b), λ (a, b). ((f x).1 a, from b))

pub contains_string_lem : (s : List String) (v : String) → contains_string s v ≡ contains s v
unfolding contains_string
contains_string_lem [] v = refl
contains_string_lem (e ∷ s) v = rw (contains_string_lem s v) refl

all_in_iff :
    (set requested : List String)
    → (all_in set requested ≡ none) ↔ All (λ r. contains set r ≡ true) requested
unfolding all_in
all_in_iff set [] = (λ _. tt, λ _. refl)
all_in_iff set (r ∷ requested) = ground (arith, all_in_iff set requested)

pub entries_iff :
    (list requested : List String)
    → (all_in (string_set list) requested ≡ none) ↔ All (Trimmed list) requested
entries_iff list requested =
    let loop = all_in_iff (string_set list) requested in
    let trimmed = pointwise_iff requested (string_set_iff list) in
    (λ h. trimmed.0 (loop.0 h), λ h. loop.1 (trimmed.1 h))

any_in_to :
    (set gs : List String)
    → any_in set gs ≡ true
    → (g : String) × (contains gs g ≡ true) × (contains set g ≡ true)
unfolding any_in
any_in_to set [] h = cc
any_in_to set (g ∷ gs) h = elim (Bool-cases (contains set g)) [
  | inl t ↦ (g, rw (eq_refl g) refl, t)
  | inr f ↦ let (x, a, b) = any_in_to set gs (rw f at h) in (x, ground arith, b)
]

any_in_from :
    (set gs : List String) (g : String)
    → contains gs g ≡ true
    → contains set g ≡ true
    → any_in set gs ≡ true
unfolding any_in
any_in_from set [] g h k = cc
any_in_from set (x ∷ gs) g h k = ground (arith, eq_iff x g, any_in_from set gs g)

pub member_iff :
    (groups gs : List String)
    → ((if is_empty gs then false else any_in (string_set groups) gs) ≡ true)
      ↔ ((g : String) × In g gs × Trimmed groups g)
member_iff groups [] = (λ h. cc, λ (g, h, _). absurd h)
member_iff groups (x ∷ gs) = (
  λ h.
      let (g, listed, there) = any_in_to (string_set groups) (x ∷ gs) h in
      (g, (contains_iff (x ∷ gs) g).0 listed, (string_set_iff groups g).0 there),
  λ (g, listed, there).
      any_in_from (string_set groups) (x ∷ gs) g ((contains_iff (x ∷ gs) g).1 listed)
        ((string_set_iff groups g).1 there),
)
