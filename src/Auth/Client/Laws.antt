-- ===== src/Auth/Client/Laws.antt =====
-- The tokens that a FileTokenSource hands out, against the history of its reads, and what a server
-- makes of them.
use jwtmint.Prelude.{
  ltb_ℤ, String, ◌≡◌, ◌≢◌, ◌∙◌, ◌⊎◌, inl, inr, refl, sym, ap, true, false, Option, none, some, List,
  [], ◌∷◌, In, arith, Bool-cases,
}
use Prim.Native.String.{[], ◌∷◌}
use jwtmint.Text.{is_blank, trim_space, strip_prefix}
use jwtmint.Text.Laws.{trim_space-trim_space, strip_prefix-append}
use jwtmint.Errors.{Err, Result, ok, err, ok-injective}
use jwtmint.Time.{Time, minus}
use Prim.Native.String
use jwtmint.Dict.Laws.{lookup-insert}
use jwtmint.Auth.Bearer.{bearer_prefix, bearer_token, trimmed_or_empty}
use jwtmint.Auth.GrpcAuth.{metadata_key_authorization}
use jwtmint.Auth.HttpAuth.{Request, default_token_source, get_header, header_authorization}
use jwtmint.Auth.Client.{
  FileTokenSource, interval, is_fresh, store, file_token, with_authorization, round_trip,
  with_bearer,
}

-- The file was read, and has this token.
abbrev pub Holds : Option String → String → Type 0
Holds content token =
    (body : String) × (content ≡ some body) × (token ≡ trim_space body) × (is_blank token ≡ false)

-- What one call does: it fails, hands out what is cached, or stores what the file has.
abbrev pub Failed : FileTokenSource → FileTokenSource × Result String → Type 0
Failed f p = (p.0 ≡ f) × ((e : Err) × (p.1 ≡ err e))

abbrev pub Served : FileTokenSource → Time → FileTokenSource × Result String → Type 0
Served f now p = (p ≡ (f, ok f.cached)) × (is_fresh f now ≡ true)

abbrev pub Stored :
    FileTokenSource → Time → Option String → FileTokenSource × Result String → Type 0
Stored f done content p =
    (token : String) × (p ≡ (record f { cached = token; cached_at = done }, ok token))
    × Holds content token

store_cases :
    (f : FileTokenSource) (done : Time) (content : Option String)
    → Failed f (store f done content) ⊎ Stored f done content (store f done content)
store_cases f done none = inl (refl, (_, refl))
store_cases f done (some body) = elim (Bool-cases (is_blank (trim_space body))) [
  | inl blank ↦ inl (rw blank (refl, (_, refl)))
  | inr full ↦ inr (trim_space body, rw full refl, (body, refl, refl, full))
]

file_token_cases :
    (f : FileTokenSource) (now done : Time) (content : Option String)
    → Failed f (file_token f now done content)
      ⊎ (Served f now (file_token f now done content)
          ⊎ Stored f done content (file_token f now done content))
unfolding file_token
file_token_cases f now done content = elim (Bool-cases (is_blank f.path)) [
  | inl blank ↦ inl (rw blank (refl, (_, refl)))
  | inr named ↦ elim (Bool-cases (is_fresh f now)) [
    | inl fresh ↦ inr (inl (rw (named, fresh) refl, fresh))
    | inr stale ↦ elim (store_cases f done content) [
      | inl failed ↦ inl (rw (named, stale) failed)
      | inr stored ↦ inr (inr (rw (named, stale) stored))
    ]
  ]
]

-- A call of Token: the clock in front of and behind the read, and what the read gives.
pub record Call : Type 0 where
  pub now : Time
  pub done : Time
  pub content : Option String

-- The state after a history, its latest call first.
unfoldable pub run : List Call → FileTokenSource → FileTokenSource
unfolding file_token
run [] f = f
run (c ∷ calls) f = (file_token (run calls f) c.now c.done c.content).0

-- The interval is the one from the start, and what is cached was read by a call, at the time that is
-- kept with it.
abbrev pub Backed : List Call → FileTokenSource → FileTokenSource → Type 0
Backed calls start f =
    (f.refresh_interval ≡ start.refresh_interval)
    × ((is_blank f.cached ≡ true)
        ⊎ ((c : Call) × In c calls × Holds c.content f.cached × (f.cached_at ≡ c.done)))

Backed-earlier :
    (c : Call) (calls : List Call) (start f : FileTokenSource)
    → Backed calls start f
    → Backed (c ∷ calls) start f
Backed-earlier c calls start f (same, inl empty) = (same, inl empty)
Backed-earlier c calls start f (same, inr (d, member, holds, at)) =
    (same, inr (d, inr member, holds, at))

step-Backed :
    (c : Call) (calls : List Call) (start f : FileTokenSource)
    → Backed calls start f
    → Backed (c ∷ calls) start (file_token f c.now c.done c.content).0
step-Backed c calls start f b = elim (file_token_cases f c.now c.done c.content) [
  | inl (same, _) ↦ rw same (Backed-earlier c calls start f b)
  | inr (inl (served, _)) ↦ rw served (Backed-earlier c calls start f b)
  | inr (inr (token, stored, holds)) ↦ rw stored (b.0, inr (c, inl refl, holds, refl))
]

run-Backed :
    (calls : List Call) (f : FileTokenSource)
    → is_blank f.cached ≡ true
    → Backed calls f (run calls f)
unfolding run
run-Backed [] f empty = (refl, inl empty)
run-Backed (c ∷ calls) f empty = step-Backed c calls f (run calls f) (run-Backed calls f empty)

-- A cached token that is fresh was read by a call, less than the interval ago.
served_fresh :
    (calls : List Call) (start f : FileTokenSource) (now : Time)
    → Backed calls start f
    → is_fresh f now ≡ true
    → (c : Call) × In c calls
      × Holds c.content f.cached
      × (ltb_ℤ (minus now c.done) (interval start) ≡ true)
served_fresh calls start f now (same, inl empty) fresh = absurd (ground (arith, empty, fresh))
served_fresh calls start f now (same, inr (c, member, holds, at)) fresh =
    (c, member, holds, rw (← at, ← same) (ground (arith, fresh)))

-- After any sequence of Token calls on a FileTokenSource with an empty cache, a token that Token
-- returns is the trimmed content, which is not blank, of the file as its own call read it, or as
-- a call of that sequence did, and then the time since that read is shorter than the interval.
pub file_token_fresh :
    (calls : List Call) (f f' : FileTokenSource) (now done : Time) (content : Option String)
    (token : String)
    → is_blank f.cached ≡ true
    → file_token (run calls f) now done content ≡ (f', ok token)
    → ((c : Call) × In c calls
        × Holds c.content token
        × (ltb_ℤ (minus now c.done) (interval f) ≡ true))
      ⊎ Holds content token
file_token_fresh calls f f' now done content token empty h =
    let answer : (file_token (run calls f) now done content).1 ≡ ok token = ap (λ p. p.1) h in
    elim (file_token_cases (run calls f) now done content) [
      | inl (_, (e, failed)) ↦ absurd (err_or_ok e (sym failed ∙ answer))
      | inr (inl (served, fresh)) ↦
          let is_token : (run calls f).cached ≡ token =
            ok-injective (sym (ap (λ p. p.1) served) ∙ answer) in
          inl (
            rw (← is_token)
              (served_fresh calls f (run calls f) now (run-Backed calls f empty) fresh))
      | inr (inr (read, stored, holds)) ↦
          let is_token : read ≡ token = ok-injective (sym (ap (λ p. p.1) stored) ∙ answer) in
          inr (rw (← is_token) holds)
    ]
  where
    err_or_ok : (e : Err) → ◌≢◌ {A = Result String} (err e) (ok token)
    err_or_ok e q = cc

prefixed-full : (s token : String) → strip_prefix bearer_prefix s ≡ some token → is_blank s ≡ false
unfolding strip_prefix
prefixed-full [] token h = cc
prefixed-full (c ∷ s) token h = refl

-- What a client sends as its token, the server reads, without the blanks around it.
default_token_source-with_authorization :
    (token : String) (req : Request)
    → default_token_source (with_authorization token req) ≡ trim_space token
unfolding default_token_source with_authorization get_header
default_token_source-with_authorization token req =
    rw
      (
        lookup-insert header_authorization header_authorization (String.◌++◌ bearer_prefix token)
            req.header,
        prefixed-full (String.◌++◌ bearer_prefix token) token
            (strip_prefix-append bearer_prefix token),
        strip_prefix-append bearer_prefix token,
      )
      refl

Holds-full :
    (content : Option String) (token : String) → Holds content token → is_blank token ≡ false
Holds-full content token (body, _, _, full) = full

Holds-trimmed :
    (content : Option String) (token : String) → Holds content token → trim_space token ≡ token
Holds-trimmed content token (body, _, is_token, _) = rw is_token (trim_space-trim_space body)

-- A token that a FileTokenSource with a cache that was empty at the start returns after any
-- sequence of calls is what the HTTP middleware reads from the request that RoundTrip sends and
-- what the gRPC interceptors read from the value that withBearer appends, and it is not blank.
pub round_trip-default_token_source :
    {R C : Type 0} (calls : List Call) (f f' : FileTokenSource) (now done : Time)
    (content : Option String) (token : String) (base : Request → Result R) (req : Request)
    (append : C → String → String → C) (ctx : C)
    → is_blank f.cached ≡ true
    → file_token (run calls f) now done content ≡ (f', ok token)
    → (sent : Request) × (round_trip base (ok token) req ≡ base sent)
      × (default_token_source sent ≡ token)
      × ((value : String) × (with_bearer append ctx (ok token)
            ≡ ok (append ctx metadata_key_authorization value))
          × (bearer_token value ≡ token))
      × (is_blank token ≡ false)
unfolding round_trip with_bearer bearer_token
round_trip-default_token_source calls f f' now done content token base req append ctx empty h =
    let (source, holds) : (source : Option String) × Holds source token =
      elim (file_token_fresh calls f f' now done content token empty h) [
        | inl (c, _, holds, _) ↦ (c.content, holds)
        | inr holds ↦ (content, holds)
      ] in
    let trimmed : trim_space token ≡ token = Holds-trimmed source token holds in
    (
      with_authorization token req,
      refl,
      default_token_source-with_authorization token req ∙ trimmed,
      (
        String.◌++◌ bearer_prefix token,
        refl,
        ap trimmed_or_empty (strip_prefix-append bearer_prefix token) ∙ trimmed,
      ),
      Holds-full source token holds,
    )
