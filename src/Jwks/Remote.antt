-- ===== src/Jwks/Remote.antt =====
-- jwks/remote.go: the cache of Remote. A fetch is what the HTTP client and the JSON decoder make of it:
-- an error, or the keys and the max-age that the server sent, if any. `now` is the clock's reading
-- before a fetch, `done` the one behind it; the locks make each call one step.
pub mod Cases
pub mod Laws
use jwtmint.Prelude.{
  pos, ltb_ℤ, Bool, true, false, Option, none, some, List, [], ◌∷◌, ◌&&◌, not, if◌then◌else◌,
}
use jwtmint.Errors.{Err, Result, ok, err, ◌>>=◌}
use jwtmint.Time.{Time, Duration, before, plus, minus}
use jwtmint.Jwks.KeySet.{Jwk, KeySet, from_jwks}

-- A response that was decoded.
pub record Response (K : Type 0) : Type 0 where
  pub keys : List (Jwk K)
  pub max_age : Option Duration

-- jwks.Remote: the configuration that the cache depends on, and the cache.
pub record Remote (K : Type 0) : Type 0 where
  pub ttl : Duration
  pub negative_ttl : Duration
  pub ignore_cache_control : Bool
  pub cached : Option (KeySet K)
  pub expires_at : Time
  pub last_err : Option Err
  pub err_at : Time

-- The choice of the lifetime at the end of doFetch.
abbrev pub shortened : Bool → Duration → Option Duration → Duration
shortened true ttl max_age = ttl
shortened false ttl none = ttl
shortened false ttl (some max_age) = if ltb_ℤ max_age ttl then max_age else ttl

module _ {K : Type 0} where
  -- (*Remote).doFetch, on the response.
  unfoldable pub do_fetch : Remote K → Result (Response K) → Result (KeySet K × Duration)
  do_fetch r response = response >>= λ resp.
      from_jwks resp.keys >>= λ ks. ok (ks, shortened r.ignore_cache_control r.ttl resp.max_age)

  -- What fetchLocked records, and returns.
  abbrev pub recorded :
      Remote K → Time → Result (KeySet K × Duration) → Remote K × Result (KeySet K)
  recorded r done (err e) = (record r { last_err = some e; err_at = done }, err e)
  recorded r done (ok (ks, ttl)) =
      (record r { cached = some ks; expires_at = plus done ttl; last_err = none }, ok ks)

  -- (*Remote).fetchLocked, and so (*Remote).Refresh
  unfoldable pub fetch_locked : Remote K → Time → Result (Response K) → Remote K × Result (KeySet K)
  unfolding do_fetch
  fetch_locked r done response = recorded r done (do_fetch r response)

  -- The cache behind the first test: the negative cache, or a fetch.
  abbrev pub failed_or_fetched :
      Remote K → Option Err → Time → Time → Result (Response K) → Remote K × Result (KeySet K)
  failed_or_fetched r none now done response = fetch_locked r done response
  failed_or_fetched r (some e) now done response =
      if ltb_ℤ (pos 0) r.negative_ttl && ltb_ℤ (minus now r.err_at) r.negative_ttl
      then (r, err e)
      else fetch_locked r done response

  -- The test of both KeySet and cachedOrFetch, on what is cached.
  abbrev pub cached_or_fetched :
      Remote K
      → Option (KeySet K)
      → Time
      → Time
      → Result (Response K)
      → Remote K × Result (KeySet K)
  cached_or_fetched r none now done response = failed_or_fetched r r.last_err now done response
  cached_or_fetched r (some ks) now done response =
      if before now r.expires_at
      then (r, ok ks)
      else failed_or_fetched r r.last_err now done response

  -- (*Remote).KeySet
  unfoldable pub key_set :
      Remote K → Time → Time → Result (Response K) → Remote K × Result (KeySet K)
  unfolding fetch_locked
  key_set r now done response = cached_or_fetched r r.cached now done response
