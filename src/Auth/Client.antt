-- ===== src/Auth/Client.antt =====
-- middleware/httpauth/client.go and withBearer of middleware/grpcauth/client.go: where a client's token
-- comes from, and how it is sent. `now` is the clock's reading before a source is read, `done` the one
-- behind it; the locks make a call of Token one step, but for the loads in front of CachedTokenSource's.
pub mod Laws
use Prim.Native.String
use jwtmint.Prelude.{
  ℤ, pos, ◌-ℤ◌, ltb_ℤ, String, Bool, Option, none, some, List, [], ◌∷◌, ◌&&◌, not, if◌then◌else◌,
}
use jwtmint.Text.{is_blank, trim_space}
use jwtmint.Errors.{Result, ok, err, read, invalid_value}
use jwtmint.Dict.{insert}
use jwtmint.Time.{wrapped, Time, Duration, plus, minus, seconds}
use jwtmint.Auth.Bearer.{bearer_prefix}
use jwtmint.Auth.HttpAuth.{Request, header_authorization}
use jwtmint.Auth.GrpcAuth.{metadata_key_authorization}

-- httpauth.FileTokenSource
pub record FileTokenSource : Type 0 where
  pub path : String
  pub refresh_interval : Duration
  pub cached : String
  pub cached_at : Time

-- The interval, five seconds where none is set.
abbrev pub interval : FileTokenSource → Duration
interval f = if ltb_ℤ (pos 0) f.refresh_interval then f.refresh_interval else seconds 5

-- The test in front of both returns of the cached token.
abbrev pub is_fresh : FileTokenSource → Time → Bool
is_fresh f now = not (is_blank f.cached) && ltb_ℤ (minus now f.cached_at) (interval f)

-- What is made of the file, none if it is not read.
abbrev pub store : FileTokenSource → Time → Option String → FileTokenSource × Result String
store f done none = (f, err (read ∷ []))
store f done (some body) =
    let token = trim_space body in
    if is_blank token
    then (f, err (invalid_value ∷ []))
    else (record f { cached = token; cached_at = done }, ok token)

-- (*FileTokenSource).Token
unfoldable pub file_token :
    FileTokenSource → Time → Time → Option String → FileTokenSource × Result String
unfolding trim_space minus
file_token f now done content =
    if is_blank f.path
    then (f, err (invalid_value ∷ []))
    else if is_fresh f now
    then (f, ok f.cached)
    else store f done content

-- StaticTokenSource.Token
abbrev pub static_token : String → Result String
static_token value = if is_blank value then err (invalid_value ∷ []) else ok value

-- httpauth.CachedTokenSource: whether it has a source, and what its atomics hold.
pub record CachedTokenSource : Type 0 where
  pub has_source : Bool
  pub ttl : Duration
  pub value : String
  pub expire_at : ℤ

-- t.UnixNano(), which wraps around outside the years 1678 to 2262.
unfoldable pub unix_nano : Time → ℤ
unfolding wrapped
unix_nano t = wrapped (t -ℤ pos 62135596800000000000)

-- The test in front of both returns of the cached value, on what the loads of `value` and `expire_at`
-- gave.
abbrev pub loaded : String → ℤ → Time → Bool
loaded value expire_at now = not (is_blank value) && ltb_ℤ (unix_nano now) expire_at

-- What is made of the source's answer.
abbrev pub keep_token : CachedTokenSource → Time → Result String → CachedTokenSource × Result String
keep_token c done (err e) = (c, err e)
keep_token c done (ok token) =
    (record c { value = token; expire_at = unix_nano (plus done c.ttl) }, ok token)

-- (*CachedTokenSource).Token
unfoldable pub cached_token :
    CachedTokenSource → Time → Time → Result String → CachedTokenSource × Result String
unfolding unix_nano
cached_token c now done answer =
    if not c.has_source
    then (c, err (invalid_value ∷ []))
    else if not (ltb_ℤ (pos 0) c.ttl)
    then (c, err (invalid_value ∷ []))
    else if loaded c.value c.expire_at now
    then (c, ok c.value)
    else keep_token c done answer

-- `cloned.Header.Set("Authorization", "Bearer "+tok)`
unfoldable pub with_authorization : String → Request → Request
unfolding insert
with_authorization token req = record req {
  header = insert header_authorization (String.◌++◌ bearer_prefix token) req.header;
}

-- (*roundTripper).RoundTrip, on what the source gives, over the base transport.
unfoldable pub round_trip : {R : Type 0} → (Request → Result R) → Result String → Request → Result R
unfolding with_authorization
round_trip base (err e) req = err (read ∷ e)
round_trip base (ok token) req = base (with_authorization token req)

-- grpcauth.withBearer, over metadata.AppendToOutgoingContext, on what the source gives.
unfoldable pub with_bearer : {C : Type 0} → (C → String → String → C) → C → Result String → Result C
with_bearer append ctx (err e) = err (read ∷ e)
with_bearer append ctx (ok token) =
    ok (append ctx metadata_key_authorization (String.◌++◌ bearer_prefix token))
