-- ===== src/Controller/Conditions/Laws.antt =====
-- What setCondition changes.
use jwtmint.Prelude.{
  String, ◌≡◌, refl, ap, Bool, true, false, Option, none, some, List, [], ◌∷◌, ◌==◌, eq_iff, arith,
  if◌then◌else◌,
}
use jwtmint.Time.{Time}
use jwtmint.Controller.Request.{Condition}
use jwtmint.Controller.Conditions.{same_status, updated, set_in}

-- The first condition of a type.
unfoldable pub condition : String → List Condition → Option Condition
condition kind [] = none
condition kind (c ∷ cs) = let rest = condition kind cs in if c.kind == kind then some c else rest

-- Since when the new status holds, from the old status and its time.
abbrev pub since : Time → Bool → Bool → Time → Time
since now true true t = t
since now false false t = t
since now _ _ t = now

-- A condition with the values of `new`; its transition is the old one if the status stays.
abbrev pub merged : Time → Condition → Option Condition → Condition
merged now new none = new
merged now new (some c) = record new {
  kind = c.kind;
  last_transition = since now c.status new.status c.last_transition;
}

same_status-since :
    (now : Time) (old new : Bool) (t : Time)
    → (if same_status old new then t else now) ≡ since now old new t
same_status-since now true true t = refl
same_status-since now true false t = refl
same_status-since now false true t = refl
same_status-since now false false t = refl

updated-merged : (now : Time) (new c : Condition) → updated now new c ≡ merged now new (some c)
updated-merged now new c =
    ap
      (λ t. record c {
        status = new.status;
        reason = new.reason;
        last_transition = t;
        observed_generation = new.observed_generation;
      })
      (same_status-since now c.status new.status c.last_transition)

-- After setCondition the condition of its type has the new values, with the old transition time
-- exactly if there was one with that status, and the condition of every other type is as it was.
pub condition-set_in :
    (now : Time) (new : Condition) (kind : String) (cs : List Condition)
    → condition kind (set_in now new cs) ≡ (
        if new.kind == kind
        then some (merged now new (condition new.kind cs))
        else condition kind cs)
unfolding condition set_in
condition-set_in now new kind [] = ground arith
condition-set_in now new kind (c ∷ cs) = ground (
  arith,
  condition-set_in now new kind cs,
  updated-merged now new c,
  eq_iff c.kind new.kind,
  eq_iff c.kind kind,
  eq_iff new.kind kind,
)

-- No type stands twice.
abbrev pub Unique : List Condition → Type 0
Unique [] = Unit
Unique (c ∷ cs) = (condition c.kind cs ≡ none) × Unique cs

pub set_in-Unique :
    (now : Time) (new : Condition) (cs : List Condition) → Unique cs → Unique (set_in now new cs)
unfolding set_in
set_in-Unique now new [] h = (unfold condition in refl, tt)
set_in-Unique now new (c ∷ cs) (fresh, rest) = ground (
  arith,
  eq_iff c.kind new.kind,
  eq_iff new.kind c.kind,
  condition-set_in now new c.kind cs,
  set_in-Unique now new cs,
)
