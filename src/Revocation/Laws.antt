-- ===== src/Revocation/Laws.antt =====
-- One operation of the denylist, as Revoked sees it.
use jwtmint.Prelude.{
  pos, negsuc, ltb_ℤ, ◌⊎◌, inl, inr, ap, Bool-cases, true, ◌+◌, String, ◌≡◌, refl, Bool, false,
  Option, none, some, List, [], ◌∷◌, ◌++◌, ◌==◌, if◌then◌else◌, arith, eq_iff, length, ◌≤ℤ◌, not,
  ◌&&◌, ◌↔◌,
}
use jwtmint.Text.{is_blank}
use jwtmint.Errors.{Result, ok}
use jwtmint.Dict.{Dict, lookup}
use jwtmint.Dict.Laws.{Distinct, lookup-insert, lookup-delete}
use jwtmint.Time.{Time, zero_time, is_zero, before}
use jwtmint.Claims.Checks.{Context}
use jwtmint.Token.{Token}
use jwtmint.Revocation.{
  Revoker, MemRevoker, revoke_until, unrevoke, len, sweep, entry_revoked, cleanup, key_revoked,
  chain, chain_step,
}

-- A key that the map does not hold is not in the swept map.
lookup-sweep_absent :
    (now : Time) (key : String) (m : Dict Time)
    → lookup key m ≡ none
    → lookup key (sweep now m).0 ≡ none
unfolding sweep lookup
lookup-sweep_absent now key [] h = refl
lookup-sweep_absent now key ((k, until) ∷ m) h =
    ground (arith, eq_iff k key, lookup-sweep_absent now key m)

pub sweep-Distinct : (now : Time) (m : Dict Time) → Distinct m → Distinct (sweep now m).0
unfolding sweep
sweep-Distinct now [] d = tt
sweep-Distinct now ((k, until) ∷ m) (fresh, d) =
    ground (arith, lookup-sweep_absent now k m fresh, sweep-Distinct now m d)

-- Sweeping at one time changes no answer from then on.
lookup-sweep :
    (now later : Time) (key : String) (m : Dict Time)
    → Distinct m
    → now ≤ℤ later
    → entry_revoked later (lookup key (sweep now m).0) ≡ entry_revoked later (lookup key m)
unfolding sweep lookup
lookup-sweep now later key [] d h = refl
lookup-sweep now later key ((k, until) ∷ m) (fresh, d) h =
    ground
      (arith, eq_iff k key, lookup-sweep_absent now k m fresh, lookup-sweep now later key m d h)

-- What is removed and what stays add up.
pub sweep_count : (now : Time) (m : Dict Time) → length (sweep now m).0 + (sweep now m).1 ≡ length m
unfolding sweep
sweep_count now [] = refl
sweep_count now ((k, until) ∷ m) = ground (arith, sweep_count now m)

-- A revocation until then is in force: it is for good, or ends later.
abbrev pub InForce : Time → Time → Type 0
InForce now until = (until ≡ zero_time) ⊎ (ltb_ℤ now until ≡ true)

zero_only : (t : Time) → is_zero t ≡ true → t ≡ zero_time
zero_only (pos n) h = ap pos (ground arith)
zero_only (negsuc n) h = cc

-- The test of both Cleanup and Revoked fails exactly of what is in force.
pub unlapsed_iff :
    (now until : Time)
    → ((not (is_zero until) && not (before now until)) ≡ false) ↔ InForce now until
unlapsed_iff now until = (
  λ h. elim (Bool-cases (is_zero until)) [
    | inl zero ↦ inl (zero_only until zero)
    | inr dated ↦ inr (ground arith)
  ],
  elim [
    | inl good ↦ let zero : is_zero until ≡ true = ap is_zero good in rw zero refl
    | inr later ↦ ground arith
  ],
)

-- The answer for what the map holds under a key: only an entry that is in force is a revocation.
abbrev pub Stands : Time → Option Time → Type 0
Stands now none = ⊥
Stands now (some until) = InForce now until

pub entry_revoked_iff : (now : Time) (o : Option Time) → (entry_revoked now o ≡ true) ↔ Stands now o
entry_revoked_iff now none = (λ h. cc, λ h. absurd h)
entry_revoked_iff now (some until) = (
  λ h. (unlapsed_iff now until).0 (ground arith),
  λ h. let stays = (unlapsed_iff now until).1 h in rw stays refl,
)

-- A sweep keeps an entry exactly if the test of the loop fails.
lookup-sweep_iff :
    (now : Time) (key : String) (until : Time) (m : Dict Time)
    → Distinct m
    → (lookup key (sweep now m).0 ≡ some until)
      ↔ ((lookup key m ≡ some until) × ((not (is_zero until) && not (before now until)) ≡ false))
unfolding sweep lookup
lookup-sweep_iff now key until [] d = (λ h. cc, λ (h, _). cc)
lookup-sweep_iff now key until ((k, u) ∷ m) (fresh, d) =
    let gone = lookup-sweep_absent now k m fresh in
    let (down, up) = lookup-sweep_iff now key until m d in
    (λ h. ground (arith, eq_iff k key), λ (h, f). ground (arith, eq_iff k key))

module _ {F : Type 0} (m : MemRevoker F) (now : Time) (key : String) where
  pub key_revoked-revoke_until :
      (k : String) (until : Time)
      → key_revoked (revoke_until k until m) now key ≡ (
          if not (is_blank k) && (k == key)
          then entry_revoked (m.clock now) (some until)
          else key_revoked m now key)
  unfolding key_revoked revoke_until
  key_revoked-revoke_until k until = ground (arith, lookup-insert k key until m.revoked)

  pub key_revoked-unrevoke :
      (k : String)
      → key_revoked (unrevoke k m) now key ≡ (if k == key then false else key_revoked m now key)
  unfolding key_revoked unrevoke
  key_revoked-unrevoke k = ground (arith, lookup-delete k key m.revoked)

  -- On a map with distinct keys, a Cleanup changes no answer of Revoked from its time on.
  pub key_revoked-cleanup :
      (wall : Time)
      → Distinct m.revoked
      → m.clock wall ≤ℤ m.clock now
      → key_revoked (cleanup wall m).0 now key ≡ key_revoked m now key
  unfolding key_revoked cleanup
  key_revoked-cleanup wall d h = lookup-sweep (m.clock wall) (m.clock now) key m.revoked d h

-- On a map with distinct keys, Cleanup keeps an entry exactly if its time is zero or lies behind
-- the clock's reading, adds none, and returns the number of entries by which the map shrank.
pub cleanup_lem :
    {F : Type 0} (wall : Time) (m : MemRevoker F) (key : String) (until : Time)
    → Distinct m.revoked
    → (len (cleanup wall m).0 + (cleanup wall m).1 ≡ len m)
      × ((lookup key (cleanup wall m).0.revoked ≡ some until)
          ↔ ((lookup key m.revoked ≡ some until) × InForce (m.clock wall) until))
unfolding len cleanup
cleanup_lem wall m key until d =
    let kept = lookup-sweep_iff (m.clock wall) key until m.revoked d in
    let unlapsed = unlapsed_iff (m.clock wall) until in
    (
      sweep_count (m.clock wall) m.revoked,
      (λ h. ((kept.0 h).0, unlapsed.0 (kept.0 h).1), λ (h, f). kept.1 (h, unlapsed.1 f)),
    )

module _ {F : Type 0} (ctx : Context) (token : Option (Token F)) where
  -- Every revoker that is not nil gives the answer.
  abbrev pub AllAnswer : Result Bool → List (Option (Revoker F)) → Type 0
  AllAnswer a [] = Unit
  AllAnswer a (none ∷ rs) = AllAnswer a rs
  AllAnswer a (some r ∷ rs) = (r ctx token ≡ a) × AllAnswer a rs

  -- A chain of revokers answers false exactly if every revoker that is not nil answers false.
  pub chain_clear_iff :
      (rs : List (Option (Revoker F))) → (chain rs ctx token ≡ ok false) ↔ AllAnswer (ok false) rs
  unfolding chain
  chain_clear_iff [] = (λ _. tt, λ _. refl)
  chain_clear_iff (none ∷ rs) = chain_clear_iff rs
  chain_clear_iff (some r ∷ rs) = ground (arith, chain_clear_iff rs)

  -- Behind revokers that all answer false, a chain answers as the next revoker does if it reports
  -- a revocation or, wrapped, an error, and else as the rest of the chain does.
  pub chain_first :
      (front : List (Option (Revoker F))) (r : Revoker F) (back : List (Option (Revoker F)))
      → AllAnswer (ok false) front
      → chain (front ++ some r ∷ back) ctx token ≡ chain_step (r ctx token) (chain back ctx token)
  unfolding chain
  chain_first [] r back h = refl
  chain_first (none ∷ front) r back h = chain_first front r back h
  chain_first (some f ∷ front) r back (e, h) = rw e (chain_first front r back h)
