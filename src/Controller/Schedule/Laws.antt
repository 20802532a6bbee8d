-- ===== src/Controller/Schedule/Laws.antt =====
-- The times that the controller waits.
use jwtmint.Prelude.{
  ℕ, ℤ, pos, negsuc, ◌-◌, ◌%◌, ◌<◌, ltb_ℤ, ◌≤ℤ◌, ◌-ℤ◌, ◌≡◌, refl, Option, none, some, String, arith,
  if◌then◌else◌, true, false, Bool, Bool-cases, inl, inr,
}
use jwtmint.Text.{is_blank}
use jwtmint.Errors.{Result, ok, err}
use jwtmint.Dict.{lookup}
use jwtmint.Time.{int64_of_bits, wrapped, Time, Duration, minus, seconds, max_duration}
use jwtmint.Claims.Value.{Claims, Host}
use jwtmint.Claims.Registered.{expires_at}
use jwtmint.Controller.Schedule.{
  Tools, Secret, secret_data_key, wait_for, wait_until, wait_parsed, wait_token, evaluate_refresh,
  next_refresh,
}

wrapped-pos : (n : ℕ) → n < 9223372036854775808 → wrapped (pos n) ≡ pos n
unfolding wrapped
wrapped-pos n h = ground (arith)

minus_bounds : (t u : Time) → minus t u ≤ℤ pos 9223372036854775807
unfolding minus
minus_bounds t u = ground arith

wait_for_bounds :
    (remaining cutoff d : Duration)
    → pos 0 ≤ℤ cutoff
    → remaining ≤ℤ pos 9223372036854775807
    → wait_for remaining cutoff ≡ some d
    → (pos 1 ≤ℤ d) × (d ≤ℤ remaining)
unfolding ◌-ℤ◌
wait_for_bounds (pos n) (pos c) d low high h = ground (arith, wrapped-pos (n - c))
wait_for_bounds (negsuc n) (pos c) d low high h = ground arith
wait_for_bounds remaining (negsuc c) d low high h = absurd (omega arith)

wait_for-later :
    (remaining cutoff d : Duration)
    → wait_for remaining cutoff ≡ some d
    → ltb_ℤ cutoff remaining ≡ true
wait_for-later remaining cutoff d h = elim (Bool-cases (ltb_ℤ cutoff remaining)) [
  | inl later ↦ later
  | inr other ↦ let bad : none ≡ some d = rw other at h in cc
]

int64_of_bits_bounds : (m : ℕ) → int64_of_bits m ≤ℤ max_duration
int64_of_bits_bounds m = ground arith

wrapped_bounds : (z : ℤ) → wrapped z ≤ℤ max_duration
unfolding wrapped
wrapped_bounds (pos n) = int64_of_bits_bounds (n % 18446744073709551616)
wrapped_bounds (negsuc n) = int64_of_bits_bounds (18446744073709551615 - n % 18446744073709551616)

at_least :
    (d : Duration)
    → d ≤ℤ max_duration
    → (seconds 1 ≤ℤ (if ltb_ℤ d (seconds 1) then seconds 1 else d))
      × ((if ltb_ℤ d (seconds 1) then seconds 1 else d) ≤ℤ max_duration)
at_least d h = ground arith

module _ {F : Type 0} (host : Host F) (tools : Tools F) (now : Time) where
  wait_token-inv :
      (cutoff : Duration) (o : Option String) (d : Duration)
      → wait_token host tools now cutoff o ≡ some d
      → (token : String) × (c : Claims F) × (exp : Time) × (o ≡ some token)
        × (tools.parse_unverified token ≡ some c)
        × (expires_at host c ≡ ok exp)
        × (wait_for (minus exp now) cutoff ≡ some d)
  wait_token-inv cutoff none d h = cc
  wait_token-inv cutoff (some token) d h = go (is_blank token) (tools.parse_unverified token) refl h
    where
      waiting :
          (c : Claims F) (r : Result Time)
          → wait_until host tools now cutoff r ≡ some d
          → (exp : Time) × (r ≡ ok exp) × (wait_for (minus exp now) cutoff ≡ some d)
      waiting c (ok exp) h = (exp, refl, h)
      waiting c (err e) h = cc

      go :
          (b : Bool) (o : Option (Claims F))
          → tools.parse_unverified token ≡ o
          → (if b then none else wait_parsed host tools now cutoff o) ≡ some d
          → (t : String) × (c : Claims F) × (exp : Time) × (some token ≡ some t)
            × (tools.parse_unverified t ≡ some c)
            × (expires_at host c ≡ ok exp)
            × (wait_for (minus exp now) cutoff ≡ some d)
      go true o same h = cc
      go false none same h = cc
      go false (some c) same h =
          let (exp, is_exp, waits) = waiting c (expires_at host c) h in
          (token, c, exp, refl, same, is_exp, waits)

  -- If the time that is kept back is not negative, a token is not due only if it is parsed and
  -- its exp is further ahead than that, and then the requeue is at least a nanosecond and no
  -- longer than the token's remaining time, without a wrap-around of the 64-bit difference.
  pub evaluate_refresh_bounds :
      (secret : Option Secret) (expiration : Duration) (threshold : F) (d : Duration)
      → pos 0 ≤ℤ tools.cutoff_of expiration threshold
      → evaluate_refresh host tools now secret expiration threshold ≡ some d
      → (s : Secret) × (token : String) × (c : Claims F) × (exp : Time) × (secret ≡ some s)
        × (lookup secret_data_key s.data_map ≡ some token)
        × (tools.parse_unverified token ≡ some c)
        × (expires_at host c ≡ ok exp)
        × (ltb_ℤ (tools.cutoff_of expiration threshold) (minus exp now) ≡ true)
        × (pos 1 ≤ℤ d)
        × (d ≤ℤ minus exp now)
  unfolding evaluate_refresh
  evaluate_refresh_bounds none expiration threshold d low h = cc
  evaluate_refresh_bounds (some s) expiration threshold d low h =
      let cutoff = tools.cutoff_of expiration threshold in
      let (token, c, exp, held, parsed, is_exp, waits) =
        wait_token-inv cutoff (lookup secret_data_key s.data_map) d h in
      let (one, most) = wait_for_bounds (minus exp now) cutoff d low (minus_bounds exp now) waits in
      (
        s,
        token,
        c,
        exp,
        refl,
        held,
        parsed,
        is_exp,
        wait_for-later (minus exp now) cutoff d waits,
        one,
        most,
      )

module _ {F : Type 0} (tools : Tools F) (now : Time) where
  pub next_refresh_bounds :
      (expires : Time) (expiration : Duration) (threshold : F)
      → (seconds 1 ≤ℤ next_refresh tools now expires expiration threshold)
        × (next_refresh tools now expires expiration threshold ≤ℤ max_duration)
  unfolding next_refresh
  next_refresh_bounds expires expiration threshold =
      at_least (wrapped (minus expires now -ℤ tools.cutoff_of expiration threshold))
        (wrapped_bounds (minus expires now -ℤ tools.cutoff_of expiration threshold))
