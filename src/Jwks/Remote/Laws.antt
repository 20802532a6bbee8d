-- ===== src/Jwks/Remote/Laws.antt =====
-- The key sets that a remote cache hands out, against the history of its fetches.
use jwtmint.Prelude.{
  ◌≤ℤ◌, ◌≡◌, ◌≢◌, ◌∙◌, ◌⊎◌, inl, inr, refl, sym, ap, Bool, true, false, Option, none, some, List,
  [], ◌∷◌, In, arith, if◌then◌else◌,
}
use jwtmint.Errors.{Err, Result, ok, err, ok-injective}
use jwtmint.Time.{Time, Duration, before, plus}
use jwtmint.Jwks.KeySet.{KeySet}
use jwtmint.Jwks.Remote.{Response, Remote, fetch_locked, key_set}
use jwtmint.Jwks.Remote.Cases.{Supplies, Failed, Fetched, Served, fetch_locked_cases, key_set_cases}

before_bound : (now e limit : Time) → before now e ≡ true → e ≤ℤ limit → before now limit ≡ true
before_bound now e limit h le = ground arith

-- A call of KeySet, or of Refresh where it is forced, and the fetch that it would make.
pub record Call (K : Type 0) : Type 0 where
  pub forced : Bool
  pub now : Time
  pub done : Time
  pub response : Result (Response K)

module _ {K : Type 0} where
  abbrev pub step : Call K → Remote K → Remote K
  step c r =
      if c.forced
      then (fetch_locked r c.done c.response).0
      else (key_set r c.now c.done c.response).0

  -- The state after a history, its latest call first.
  unfoldable pub run : List (Call K) → Remote K → Remote K
  run [] r = r
  run (c ∷ calls) r = step c (run calls r)

  -- What is cached was supplied by a call, and expires within the lifetime from that fetch.
  abbrev pub Backed : List (Call K) → Duration → Remote K → Type 0
  Backed calls ttl r =
      (r.ttl ≡ ttl)
      × ((r.cached ≡ none)
          ⊎ ((ks : KeySet K) × (c : Call K) × (r.cached ≡ some ks)
              × In c calls
              × Supplies c.response ks
              × (r.expires_at ≤ℤ plus c.done ttl)))

  -- What a call leaves is backed by the history with that call.
  Served-Backed :
      (c : Call K) (calls : List (Call K)) (ttl : Duration) (r : Remote K)
      (p : Remote K × Result (KeySet K))
      → Backed calls ttl r
      → Served r c.now p
      → Backed (c ∷ calls) ttl p.0
  Served-Backed c calls ttl r p (same_ttl, held) (ks, cached, fresh, same) = rw same (
    same_ttl,
    elim held [
      | inl empty ↦ inl empty
      | inr (k, d, is_k, member, supplies, bound) ↦ inr (k, d, is_k, inr member, supplies, bound)
    ],
  )

  Failed-Backed :
      (c : Call K) (calls : List (Call K)) (ttl : Duration) (r : Remote K)
      (p : Remote K × Result (KeySet K))
      → Backed calls ttl r
      → Failed r p
      → Backed (c ∷ calls) ttl p.0
  Failed-Backed c calls ttl r p (same_ttl, held) (ttl_kept, kept, expiry_kept, failed) = (
    rw ttl_kept same_ttl,
    elim held [
      | inl empty ↦ inl (rw kept empty)
      | inr (k, d, is_k, member, supplies, bound) ↦
          inr (k, d, rw kept is_k, inr member, supplies, rw expiry_kept bound)
    ],
  )

  Fetched-Backed :
      (c : Call K) (calls : List (Call K)) (ttl : Duration) (r : Remote K)
      (p : Remote K × Result (KeySet K))
      → Backed calls ttl r
      → Fetched r c.done c.response p
      → Backed (c ∷ calls) ttl p.0
  Fetched-Backed c calls ttl r p (same_ttl, held)
        (ttl_kept, (ks, cached, answer, supplies, bound)) =
      (rw ttl_kept same_ttl, inr (ks, c, cached, inl refl, supplies, rw (← same_ttl) bound))

  step-Backed :
      (c : Call K) (calls : List (Call K)) (ttl : Duration) (r : Remote K)
      → Backed calls ttl r
      → Backed (c ∷ calls) ttl (step c r)
  step-Backed c calls ttl r b = go c.forced
    where
      fetched : Backed (c ∷ calls) ttl (fetch_locked r c.done c.response).0
      fetched = elim (fetch_locked_cases r c.done c.response) [
        | inl failed ↦ Failed-Backed c calls ttl r (fetch_locked r c.done c.response) b failed
        | inr done ↦ Fetched-Backed c calls ttl r (fetch_locked r c.done c.response) b done
      ]

      go :
          (forced : Bool)
          → Backed (c ∷ calls) ttl (
              if forced
              then (fetch_locked r c.done c.response).0
              else (key_set r c.now c.done c.response).0)
      go true = fetched
      go false = elim (key_set_cases r c.now c.done c.response) [
        | inl served ↦ Served-Backed c calls ttl r (key_set r c.now c.done c.response) b served
        | inr (inl failed) ↦
            Failed-Backed c calls ttl r (key_set r c.now c.done c.response) b failed
        | inr (inr done) ↦ Fetched-Backed c calls ttl r (key_set r c.now c.done c.response) b done
      ]

  run-Backed :
      (calls : List (Call K)) (r : Remote K) → r.cached ≡ none → Backed calls r.ttl (run calls r)
  unfolding run
  run-Backed [] r empty = (refl, inl empty)
  run-Backed (c ∷ calls) r empty =
      step-Backed c calls r.ttl (run calls r) (run-Backed calls r empty)

  some-injective : (a b : KeySet K) → some a ≡ some b → a ≡ b
  some-injective a b h = cc

  served_fresh :
      (calls : List (Call K)) (ttl : Duration) (r : Remote K) (now : Time) (ks : KeySet K)
      → Backed calls ttl r
      → r.cached ≡ some ks
      → before now r.expires_at ≡ true
      → (c : Call K) × In c calls × Supplies c.response ks × (before now (plus c.done ttl) ≡ true)
  served_fresh calls ttl r now ks (same_ttl, held) cached fresh = elim held [
    | inl empty ↦ absurd (none_or_some ks empty cached)
    | inr (k, c, is_k, member, supplies, bound) ↦
        let same : k ≡ ks = some-injective k ks (sym is_k ∙ cached) in
        (
          c,
          member,
          rw (← same) supplies,
          before_bound now r.expires_at (plus c.done ttl) fresh bound,
        )
  ]
    where
      none_or_some : {o : Option (KeySet K)} (k : KeySet K) → o ≡ none → o ≡ some k → ⊥
      none_or_some k e f = cc

  -- After any sequence of KeySet and Refresh calls on an empty cache, a key set that KeySet
  -- returns is the one of the response to a fetch in that sequence, which ended less than the
  -- configured lifetime before the clock's reading, or of the response to its own fetch.
  pub key_set_fresh :
      (calls : List (Call K)) (r r' : Remote K) (now done : Time) (response : Result (Response K))
      (ks : KeySet K)
      → r.cached ≡ none
      → key_set (run calls r) now done response ≡ (r', ok ks)
      → ((c : Call K) × In c calls
          × Supplies c.response ks
          × (before now (plus c.done r.ttl) ≡ true))
        ⊎ Supplies response ks
  key_set_fresh calls r r' now done response ks empty h =
      let answer : (key_set (run calls r) now done response).1 ≡ ok ks = ap (λ p. p.1) h in
      elim (key_set_cases (run calls r) now done response) [
        | inl (k, cached, fresh, same) ↦
            let is_ks : k ≡ ks = ok-injective (sym (ap (λ p. p.1) same) ∙ answer) in
            inl (
              served_fresh calls r.ttl (run calls r) now ks (run-Backed calls r empty)
                (cached ∙ ap some is_ks) fresh)
        | inr (inl (t, c, x, (e, failed))) ↦ absurd (err_or_ok e ks (sym failed ∙ answer))
        | inr (inr (t, (k, c, given, supplies, bound))) ↦
            let is_ks : k ≡ ks = ok-injective (sym given ∙ answer) in inr (rw (← is_ks) supplies)
      ]
    where
      err_or_ok : (e : Err) (k : KeySet K) → ◌≢◌ {A = Result (KeySet K)} (err e) (ok k)
      err_or_ok e k q = cc
