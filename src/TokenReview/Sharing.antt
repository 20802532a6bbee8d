-- ===== src/TokenReview/Sharing.antt =====
-- `extra := cfg.extra` and the append that follows it in the handler, where requests interleave. All
-- requests start from the one slice of the configuration. Where its array has room behind its last
-- element, append writes into that room, which is one slot for all; else it copies. Whether there is
-- room is up to Go's growth of slices, so it is a parameter.
use jwtmint.Prelude.{
  Bool, true, false, Option, List, [], ◌∷◌, ◌++◌, ◌≡◌, refl, ap, ◌∙◌, if◌then◌else◌, is_empty,
  String,
}
use jwtmint.Claims.Checks.{Context}
use jwtmint.Verification.Base.{TokenCheckFunc, Verifier}
use jwtmint.TokenReview.{Config, Review, Reply, audience_check, review_with}

-- The slice that a request holds: one of its own, or the configuration's and the slot behind it.
pub data Extra (A : Type 0) : Type 0 where
  own : List A → Extra A
  shared : Extra A

module _ {A : Type 0} where
  -- `extra = append(extra, …)`, for a request that appends `more`: the slice, and the slot.
  unfoldable pub append : Bool → List A → List A → List A → Extra A × List A
  append room base [] slot = (own base, slot)
  append true base (a ∷ more) slot = (shared, a ∷ more)
  append false base (a ∷ more) slot = (own (base ++ a ∷ more), slot)

  -- What a slice holds when it is read.
  abbrev pub read : List A → List A → Extra A → List A
  read base slot (own l) = l
  read base slot shared = base ++ slot

  -- The slot after the requests that came next.
  unfoldable pub slot_after : Bool → List A → List A → List (List A) → List A
  unfolding append
  slot_after room base slot [] = slot
  slot_after room base slot (more ∷ others) =
      slot_after room base (append room base more slot).1 others

  -- The last of the appends that is not empty.
  abbrev pub last_append : List A → List (List A) → List A
  last_append mine [] = mine
  last_append mine ([] ∷ others) = last_append mine others
  last_append mine ((a ∷ more) ∷ others) = last_append (a ∷ more) others

  slot_after-room :
      (base mine : List A) (others : List (List A))
      → slot_after true base mine others ≡ last_append mine others
  unfolding slot_after
  slot_after-room base mine [] = refl
  slot_after-room base mine ([] ∷ others) = slot_after-room base mine others
  slot_after-room base mine ((a ∷ more) ∷ others) = slot_after-room base (a ∷ more) others

  pub read-append :
      (room : Bool) (base slot : List A) (a : A) (mine : List A) (others : List (List A))
      → read base
          (slot_after room base (append room base (a ∷ mine) slot).1 others)
          (append room base (a ∷ mine) slot).0
        ≡ base ++ (if room then last_append (a ∷ mine) others else a ∷ mine)
  unfolding append
  read-append true base slot a mine others = rw (slot_after-room base (a ∷ mine) others) refl
  read-append false base slot a mine others = refl

module _ {F : Type 0} where
  abbrev pub appends : List Review → List (List (Option (TokenCheckFunc F)))
  appends [] = []
  appends (r ∷ rs) = audience_check r.audiences ∷ appends rs

  -- The reply to a request whose append is followed by those of others before its token is verified.
  unfoldable pub interleaved :
      Bool
      → Verifier F
      → Config F
      → Context
      → Review
      → List Review
      → List (Option (TokenCheckFunc F))
      → Reply
  unfolding append slot_after review_with
  interleaved room v cfg ctx review others slot =
      let mine = append room cfg.extra (audience_check review.audiences) slot in
      review_with v cfg ctx review
        (read cfg.extra (slot_after room cfg.extra mine.1 (appends others)) mine.0)

-- The audiences of the last request that has some.
abbrev pub last_audiences : List String → List Review → List String
last_audiences mine [] = mine
last_audiences mine (r ∷ rs) =
    last_audiences (if is_empty r.audiences then mine else r.audiences) rs

module _ {F : Type 0} where
  last_step :
      (mine auds : List String) (others : List (List (Option (TokenCheckFunc F))))
      → last_append (audience_check mine) (audience_check auds ∷ others)
        ≡ last_append (audience_check (if is_empty auds then mine else auds)) others
  last_step mine [] others = refl
  last_step mine (a ∷ auds) others = refl

  last_append-audiences :
      (mine : List String) (others : List Review)
      → last_append (audience_check {F = F} mine) (appends others)
        ≡ audience_check (last_audiences mine others)
  last_append-audiences mine [] = refl
  last_append-audiences mine (r ∷ rs) =
      last_step mine r.audiences (appends rs)
      ∙ last_append-audiences (if is_empty r.audiences then mine else r.audiences) rs

  -- Where a request asks for audiences, and others come between its append and its verification,
  -- its token is verified against its own audiences if the shared array of checks has no room,
  -- and else against those of the last request that has some.
  pub interleaved_lem :
      (room : Bool) (v : Verifier F) (cfg : Config F) (ctx : Context) (token a : String)
      (mine : List String) (others : List Review) (slot : List (Option (TokenCheckFunc F)))
      → interleaved room v cfg ctx (record { token = token; audiences = a ∷ mine }) others slot
        ≡ review_with v cfg ctx
            (record { token = token; audiences = a ∷ mine })
            (cfg.extra
              ++ audience_check (if room then last_audiences (a ∷ mine) others else a ∷ mine))
  unfolding interleaved
  interleaved_lem true v cfg ctx token a mine others slot =
      ap (review_with v cfg ctx (record { token = token; audiences = a ∷ mine })) (
        read-append true cfg.extra slot _ [] (appends others)
        ∙ ap (λ l. cfg.extra ++ l) (last_append-audiences (a ∷ mine) others))
  interleaved_lem false v cfg ctx token a mine others slot =
      ap (review_with v cfg ctx (record { token = token; audiences = a ∷ mine }))
        (read-append false cfg.extra slot _ [] (appends others))
