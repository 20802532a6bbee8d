-- ===== src/Claims/Checks/Laws.antt =====
-- When the checks on a claim set pass.
use jwtmint.Prelude.{
  ℤ, String, ◌≡◌, ◌↔◌, ◌⊎◌, inl, inr, refl, ◌≤ℤ◌, true, false, Option, none, some, List, [], ◌∷◌,
  ◌++◌, arith, Option-cases,
}
use jwtmint.Errors.{Err, Result, ok, err, Verdict, verdict_of, is, not_found, no_audience, ◌>>=◌}
use jwtmint.Time.{Time, Duration, plus}
use jwtmint.Dict.{lookup}
use jwtmint.Claims.Value.{
  Value, str, str_ptr, float, float_ptr, int, int_ptr, number, date, date_ptr, time, time_ptr,
  Claims, Host,
}
use jwtmint.Claims.Keys.{key_not_before}
use jwtmint.Claims.Timestamp.{time_from_float, parsed_float, parsed_time, parsed_number, non_zero}
use jwtmint.Claims.Read.{read_time, time_of}
use jwtmint.Claims.Registered.{audience, not_before, expires_at}
use jwtmint.Claims.Matching.{matching_audience, overlap}
use jwtmint.Claims.Matching.Laws.{Lists, overlap_iff}
use jwtmint.Claims.Checks.{
  Context, CheckFunc, and_then, ready_verdict, expiry_verdict, chain, check_audience,
  check_not_expired, check_not_before_ready,
}

-- From what the matching returns to the verdict on it.
accepted :
    (have want : List String) {r : Result (List String)}
    → ((ms : List String) × (r ≡ ok ms)) ↔ ((x : String) × Lists want x × Lists have x)
    → (verdict_of r ≡ none)
      ↔ ((h : List String) × (ok have ≡ ok h) × (x : String) × Lists want x × Lists h x)
accepted have want {r = ok ms} both =
    (λ _. let (x, a, b) = both.0 (ms, refl) in (have, refl, x, a, b), λ _. refl)
accepted have want {r = err e} both = (
  λ q. cc,
  λ (h, same, x, a, b). let eq : have ≡ h = cc in let (ms, bad) = both.1 (x, a, rw eq b) in cc,
)

pub and_then_iff : (a b : Verdict) → (and_then a b ≡ none) ↔ ((a ≡ none) × (b ≡ none))
and_then_iff none b = (λ h. (refl, h), λ (_, h). h)
and_then_iff (some e) b = (λ h. cc, λ (h, _). cc)

module _ {F : Type 0} (ctx : Context) (c : Claims F) where
  -- Every check that is not nil accepts the claims.
  abbrev pub AllPass : List (Option (CheckFunc F)) → Type 0
  AllPass [] = Unit
  AllPass (none ∷ checks) = AllPass checks
  AllPass (some f ∷ checks) = (f ctx c ≡ none) × AllPass checks

  -- A chain of claim checks passes exactly if every check that is not nil passes.
  pub chain_iff :
      (checks : List (Option (CheckFunc F))) → (chain checks ctx c ≡ none) ↔ AllPass checks
  unfolding chain
  chain_iff [] = (λ _. tt, λ _. refl)
  chain_iff (none ∷ checks) = chain_iff checks
  chain_iff (some f ∷ checks) = ground (arith, chain_iff checks)

  -- The checks in front decide first; those behind run only if they pass.
  pub chain-append :
      (fs gs : List (Option (CheckFunc F)))
      → chain (fs ++ gs) ctx c ≡ and_then (chain fs ctx c) (chain gs ctx c)
  unfolding chain
  chain-append [] gs = refl
  chain-append (none ∷ fs) gs = chain-append fs gs
  chain-append (some f ∷ fs) gs = ground (arith, chain-append fs gs)

  -- CheckAudience passes exactly if the audience is read and shares a normalised text with the
  -- wanted ones.
  pub check_audience_iff :
      (want : List String)
      → (check_audience want ctx c ≡ none) ↔ (
          (have : List String) × (audience c ≡ ok have)
          × (x : String) × Lists want x
          × Lists have x)
  unfolding check_audience matching_audience
  check_audience_iff want = go (audience c) refl
    where
      go :
          (r : Result (List String))
          → audience c ≡ r
          → (verdict_of
                (r >>= λ have. overlap (not_found ∷ no_audience ∷ []) (no_audience ∷ []) have want)
              ≡ none)
            ↔ ((have : List String) × (r ≡ ok have) × (x : String) × Lists want x × Lists have x)
      go (err e) p = (λ q. cc, λ q. ground arith)
      go (ok have) p =
          accepted have want
            (overlap_iff (not_found ∷ no_audience ∷ []) (no_audience ∷ []) have want)

ready_within :
    (leeway : Duration) (now t : Time)
    → t ≤ℤ plus now leeway
    → ready_verdict leeway now (ok t) ≡ none
ready_within leeway now t le = ground arith

ready_time :
    (leeway : Duration) (now t : Time)
    → ready_verdict leeway now (ok t) ≡ none
    → t ≤ℤ plus now leeway
ready_time leeway now t h = ground arith

ready_error :
    (leeway : Duration) (now : Time) (e : Err)
    → ready_verdict leeway now (err e) ≡ none
    → is e not_found ≡ true
ready_error leeway now e h = ground arith

module _ {F : Type 0} (host : Host F) where
  time_from_float-error :
      (f : F) (e : Err) → time_from_float host f ≡ err e → is e not_found ≡ false
  unfolding time_from_float
  time_from_float-error f e h = ground arith

  parsed_float-error :
      (o : Option F) (e : Err) → parsed_float host o ≡ err e → is e not_found ≡ false
  parsed_float-error none e h = ground arith
  parsed_float-error (some f) e h = time_from_float-error f e h

  parsed_time-error :
      (s : String) (o : Option Time) (e : Err)
      → parsed_time host s o ≡ err e
      → is e not_found ≡ false
  parsed_time-error s none e h = parsed_float-error (host.float_of_text s) e h
  parsed_time-error s (some t) e h = cc

  parsed_number-error :
      (n : String) (o : Option ℤ) (e : Err)
      → parsed_number host n o ≡ err e
      → is e not_found ≡ false
  parsed_number-error n none e h = parsed_float-error (host.float_of_text n) e h
  parsed_number-error n (some i) e h = time_from_float-error (host.float_of_int i) e h

  non_zero-error : (t : Time) (e : Err) → non_zero host t ≡ err e → is e not_found ≡ false
  non_zero-error t e h = ground arith

  -- No conversion of a value that is present reports that it is missing.
  time_of-error : (v : Value F) (e : Err) → time_of host v ≡ err e → is e not_found ≡ false
  unfolding time_of
  time_of-error (str s) e h = parsed_time-error s (host.parse_time s) e h
  time_of-error (str_ptr none) e h = ground arith
  time_of-error (str_ptr (some s)) e h = parsed_time-error s (host.parse_time s) e h
  time_of-error (float f) e h = time_from_float-error f e h
  time_of-error (float_ptr none) e h = ground arith
  time_of-error (float_ptr (some f)) e h = time_from_float-error f e h
  time_of-error (int i) e h = time_from_float-error (host.float_of_int i) e h
  time_of-error (int_ptr none) e h = ground arith
  time_of-error (int_ptr (some i)) e h = time_from_float-error (host.float_of_int i) e h
  time_of-error (number n) e h = parsed_number-error n (host.int_of_number n) e h
  time_of-error (date t) e h = non_zero-error t e h
  time_of-error (date_ptr none) e h = ground arith
  time_of-error (date_ptr (some t)) e h = non_zero-error t e h
  time_of-error (time t) e h = non_zero-error t e h
  time_of-error (time_ptr none) e h = ground arith
  time_of-error (time_ptr (some t)) e h = non_zero-error t e h
  time_of-error _ e h = ground arith

  -- A time claim reads as missing exactly if its key is not there.
  pub read_time-missing :
      (c : Claims F) (key : String) (e : Err)
      → read_time host c key ≡ err e
      → (is e not_found ≡ true) ↔ (lookup key c ≡ none)
  unfolding read_time
  read_time-missing c key e h = elim (Option-cases (lookup key c)) [
    | inl f ↦ ground arith
    | inr (v, f) ↦ ground (arith, time_of-error v e)
  ]

  pub read_time-absent :
      (c : Claims F) (key : String)
      → lookup key c ≡ none
      → read_time host c key ≡ err (not_found ∷ [])
  unfolding read_time
  read_time-absent c key h = rw h refl

  -- CheckNotBeforeReady passes exactly if there is no nbf, or it is read and lies no further
  -- ahead of the clock than the leeway.
  pub check_not_before_ready_iff :
      (leeway : Duration) (ctx : Context) (c : Claims F)
      → (check_not_before_ready host leeway ctx c ≡ none) ↔ (
          (lookup key_not_before c ≡ none)
          ⊎ ((t : Time) × (not_before host c ≡ ok t) × (t ≤ℤ plus ctx.now leeway)))
  unfolding check_not_before_ready not_before
  check_not_before_ready_iff leeway ctx c = go (read_time host c key_not_before) refl
    where
      go :
          (r : Result Time)
          → read_time host c key_not_before ≡ r
          → (ready_verdict leeway ctx.now r ≡ none) ↔ (
              (lookup key_not_before c ≡ none)
              ⊎ ((t : Time) × (r ≡ ok t) × (t ≤ℤ plus ctx.now leeway)))
      go (ok t) q = (
        λ v. inr (t, refl, ready_time leeway ctx.now t v),
        elim [
          | inl m ↦ let clash = read_time-absent c key_not_before m in cc
          | inr (x, same, le) ↦ let eq : t ≡ x = cc in ready_within leeway ctx.now t (rw eq le)
        ],
      )
      go (err e) q = (
        λ v. inl ((read_time-missing c key_not_before e q).0 (ready_error leeway ctx.now e v)),
        elim [
          | inl m ↦ rw ((read_time-missing c key_not_before e q).1 m) refl
          | inr (x, same, le) ↦ cc
        ],
      )

-- When the verdict on an expiry is good.
pub expiry_verdict_iff :
    (leeway : Duration) (now : Time) (r : Result Time)
    → (expiry_verdict leeway now r ≡ none) ↔ ((t : Time) × (r ≡ ok t) × (now ≤ℤ plus t leeway))
expiry_verdict_iff leeway now (ok exp) =
    (λ q. (exp, refl, ground arith), λ (t, same, le). ground arith)
expiry_verdict_iff leeway now (err e) = (λ q. cc, λ (t, same, le). cc)

-- CheckNotExpired passes exactly if exp is read and the clock is not past it by more than the
-- leeway.
pub check_not_expired_iff :
    {F : Type 0} (host : Host F) (leeway : Duration) (ctx : Context) (c : Claims F)
    → (check_not_expired host leeway ctx c ≡ none)
      ↔ ((t : Time) × (expires_at host c ≡ ok t) × (ctx.now ≤ℤ plus t leeway))
unfolding check_not_expired
check_not_expired_iff host leeway ctx c = expiry_verdict_iff leeway ctx.now (expires_at host c)
