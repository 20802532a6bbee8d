-- ===== src/Server/Handlers/Laws.antt =====
-- The expiry that POST /sign gives a token, and the one that it reports.
use mathlib.Core.Option.{some-injective}
use jwtmint.Prelude.{
  ℤ, ◌≡◌, ◌⊎◌, inl, inr, refl, sym, true, Option, none, some, ltb_ℤ, pos, Bool-cases,
}
use jwtmint.Text.{is_blank}
use jwtmint.Errors.{Err, Result, ok, err}
use jwtmint.Dict.{lookup}
use jwtmint.Time.{Time, Duration, plus}
use jwtmint.Claims.Value.{Claims, Host}
use jwtmint.Claims.Copy.{to_map_claims}
use jwtmint.Claims.Read.{read_time}
use jwtmint.Claims.Registered.{expires_at, set_expires_at}
use jwtmint.Token.{Token}
use jwtmint.Auth.Bearer.{claims_or_nil}
use jwtmint.Server.Reply.{SignRequest}
use jwtmint.Server.Handlers.{Clock, claims_to_sign, lasting, seconds_or_zero, expiry_seconds}

module _ {F : Type 0} (host : Host F) (clock : Clock) where
  -- The claims to sign are the request's, with an expiry if expires_in asks for one.
  abbrev pub Lasting : SignRequest F → Claims F → Type 0
  Lasting req c =
      ((is_blank req.expires_in ≡ true) × (c ≡ req.claims))
      ⊎ ((d : Duration) × (clock.parse_duration req.expires_in ≡ some d)
          × (ltb_ℤ (pos 0) d ≡ true)
          × (c ≡ set_expires_at host req.claims (plus clock.now d)))

  -- The reported expiry is the Unix time of the token's exp, or 0 if it has none that can be read.
  abbrev pub ReportedExpiry : Token F → ℤ → Type 0
  ReportedExpiry tok at =
      ((mc : Claims F) × (t : Time) × (to_map_claims tok.claims ≡ ok mc)
        × (expires_at host mc ≡ ok t)
        × (at ≡ clock.unix_seconds t))
      ⊎ ((mc : Claims F) × (e : Err) × (to_map_claims tok.claims ≡ ok mc)
          × (expires_at host mc ≡ err e)
          × (at ≡ pos 0))
      ⊎ ((e : Err) × (to_map_claims tok.claims ≡ err e) × (at ≡ pos 0))

  pub claims_to_sign-Lasting :
      (req : SignRequest F) (c : Claims F) → claims_to_sign host clock req ≡ some c → Lasting req c
  claims_to_sign-Lasting req c h = elim (Bool-cases (is_blank req.expires_in)) [
    | inl blank ↦ inl (blank, sym (some-injective _ _ (rw blank at h)))
    | inr asked ↦ go (clock.parse_duration req.expires_in) refl (rw asked at h)
  ]
    where
      go :
          (o : Option Duration)
          → clock.parse_duration req.expires_in ≡ o
          → lasting host clock req.claims o ≡ some c
          → Lasting req c
      go none parsed k = cc
      go (some d) parsed k = elim (Bool-cases (ltb_ℤ (pos 0) d)) [
        | inl positive ↦ inr (d, parsed, positive, sym (some-injective _ _ (rw positive at k)))
        | inr other ↦ let clash : none ≡ some c = rw other at k in cc
      ]

  pub expiry_seconds-ReportedExpiry :
      (tok : Token F) → ReportedExpiry tok (expiry_seconds host clock tok)
  unfolding expires_at read_time lookup
  expiry_seconds-ReportedExpiry tok = go (to_map_claims tok.claims) refl
    where
      read :
          (mc : Claims F) (o : Result Time)
          → to_map_claims tok.claims ≡ ok mc
          → expires_at host mc ≡ o
          → ReportedExpiry tok (seconds_or_zero host clock o)
      read mc (ok t) is_mc is_t = inl (mc, t, is_mc, is_t, refl)
      read mc (err e) is_mc is_e = inr (inl (mc, e, is_mc, is_e, refl))

      go :
          (o : Result (Claims F))
          → to_map_claims tok.claims ≡ o
          → ReportedExpiry tok (seconds_or_zero host clock (expires_at host (claims_or_nil o)))
      go (ok mc) is_mc = read mc (expires_at host mc) is_mc refl
      go (err e) is_err = inr (inr (e, is_err, refl))
