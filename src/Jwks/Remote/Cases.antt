-- ===== src/Jwks/Remote/Cases.antt =====
-- What one call does to the cache: it serves the set, fails, or fetches another one.
use jwtmint.Prelude.{
  ℤ, +ℤ_parts, pos, ltb_ℤ, ◌≤ℤ◌, ◌≡◌, ◌⊎◌, inl, inr, refl, sym, ap, Bool, true, false, Option, none,
  some, ◌&&◌, arith, Bool-cases,
}
use jwtmint.Errors.{Err, Result, ok, err, >>=-eq-ok, ok-injective}
use jwtmint.Time.{Time, Duration, before, plus, minus}
use jwtmint.Jwks.KeySet.{KeySet, from_jwks}
use jwtmint.Jwks.Remote.{
  Response, Remote, shortened, do_fetch, recorded, fetch_locked, failed_or_fetched,
  cached_or_fetched, key_set,
}

plus_mono : (a b done : ℤ) → ltb_ℤ a b ≡ true → plus done a ≤ℤ plus done b
plus_mono a b done h = ground (arith, +ℤ_parts done a, +ℤ_parts done b)

shortened_bound :
    (ignore : Bool) (ttl : Duration) (max_age : Option Duration) (done : Time)
    → plus done (shortened ignore ttl max_age) ≤ℤ plus done ttl
shortened_bound true ttl max_age done = ground arith
shortened_bound false ttl none done = ground arith
shortened_bound false ttl (some a) done = elim (Bool-cases (ltb_ℤ a ttl)) [
  | inl less ↦ rw less (plus_mono a ttl done less)
  | inr more ↦ rw more (ground arith)
]

module _ {K : Type 0} where
  -- The response has these keys.
  abbrev pub Supplies : Result (Response K) → KeySet K → Type 0
  Supplies response ks = (resp : Response K) × (response ≡ ok resp) × (from_jwks resp.keys ≡ ok ks)

  do_fetch-eq-ok :
      (r : Remote K) (response : Result (Response K)) (ks : KeySet K) (d : Duration)
      → do_fetch r response ≡ ok (ks, d)
      → (resp : Response K) × (response ≡ ok resp)
        × (from_jwks resp.keys ≡ ok ks)
        × (d ≡ shortened r.ignore_cache_control r.ttl resp.max_age)
  unfolding do_fetch
  do_fetch-eq-ok r response ks d h =
      let (resp, given, h0) = >>=-eq-ok response _ h in
      let (ks', keys, h1) = >>=-eq-ok (from_jwks resp.keys) _ h0 in
      let same : ks' ≡ ks = ap (λ p. p.0) (ok-injective h1) in
      (resp, given, rw (← same) keys, sym (ap (λ p. p.1) (ok-injective h1)))

  -- What a fetch leaves: the cache as it was and an error, or the key set of the response.
  abbrev pub Failed : Remote K → Remote K × Result (KeySet K) → Type 0
  Failed r p =
      (p.0.ttl ≡ r.ttl)
      × (p.0.cached ≡ r.cached)
      × (p.0.expires_at ≡ r.expires_at)
      × ((e : Err) × (p.1 ≡ err e))

  abbrev pub Fetched : Remote K → Time → Result (Response K) → Remote K × Result (KeySet K) → Type 0
  Fetched r done response p =
      (p.0.ttl ≡ r.ttl)
      × ((ks : KeySet K) × (p.0.cached ≡ some ks)
          × (p.1 ≡ ok ks)
          × Supplies response ks
          × (p.0.expires_at ≤ℤ plus done r.ttl))

  abbrev pub Served : Remote K → Time → Remote K × Result (KeySet K) → Type 0
  Served r now p =
      (ks : KeySet K) × (r.cached ≡ some ks) × (before now r.expires_at ≡ true) × (p ≡ (r, ok ks))

  recorded_cases :
      (r : Remote K) (done : Time) (response : Result (Response K))
      (o : Result (KeySet K × Duration))
      → do_fetch r response ≡ o
      → Failed r (recorded r done o) ⊎ Fetched r done response (recorded r done o)
  recorded_cases r done response (err e) h = inl (refl, refl, refl, (e, refl))
  recorded_cases r done response (ok (ks, d)) h =
      let (resp, given, keys, bound) = do_fetch-eq-ok r response ks d h in
      inr (
        refl,
        (
          ks,
          refl,
          refl,
          (resp, given, keys),
          rw bound (shortened_bound r.ignore_cache_control r.ttl resp.max_age done),
        ),
      )

  pub fetch_locked_cases :
      (r : Remote K) (done : Time) (response : Result (Response K))
      → Failed r (fetch_locked r done response)
        ⊎ Fetched r done response (fetch_locked r done response)
  unfolding fetch_locked
  fetch_locked_cases r done response = recorded_cases r done response (do_fetch r response) refl

  failed_or_fetched_cases :
      (r : Remote K) (o : Option Err) (now done : Time) (response : Result (Response K))
      → Failed r (failed_or_fetched r o now done response)
        ⊎ Fetched r done response (failed_or_fetched r o now done response)
  failed_or_fetched_cases r none now done response = fetch_locked_cases r done response
  failed_or_fetched_cases r (some e) now done response =
      elim (Bool-cases
        (ltb_ℤ (pos 0) r.negative_ttl && ltb_ℤ (minus now r.err_at) r.negative_ttl)) [
          | inl recent ↦ rw recent (inl (refl, refl, refl, (e, refl)))
          | inr old ↦ rw old (fetch_locked_cases r done response)
        ]

  cached_or_fetched_cases :
      (r : Remote K) (o : Option (KeySet K)) (now done : Time) (response : Result (Response K))
      → r.cached ≡ o
      → Served r now (cached_or_fetched r o now done response)
        ⊎ Failed r (cached_or_fetched r o now done response)
        ⊎ Fetched r done response (cached_or_fetched r o now done response)
  cached_or_fetched_cases r none now done response h =
      inr (failed_or_fetched_cases r r.last_err now done response)
  cached_or_fetched_cases r (some ks) now done response h =
      elim (Bool-cases (before now r.expires_at)) [
        | inl fresh ↦ rw fresh (inl (ks, h, refl, refl))
        | inr stale ↦ rw stale (inr (failed_or_fetched_cases r r.last_err now done response))
      ]

  pub key_set_cases :
      (r : Remote K) (now done : Time) (response : Result (Response K))
      → Served r now (key_set r now done response)
        ⊎ Failed r (key_set r now done response)
        ⊎ Fetched r done response (key_set r now done response)
  unfolding key_set
  key_set_cases r now done response = cached_or_fetched_cases r r.cached now done response refl
