-- ===== src/Controller/Schedule.antt =====
-- When a token is minted, and when the controller looks again: resolveExpiration, evaluateRefresh and
-- nextRefresh of k8s/controller/reconciler.go. Durations are 64-bit integers that wrap around.
pub mod Laws
use jwtmint.Prelude.{
  ℕ, ℤ, pos, negsuc, ◌-◌, ◌%◌, ltb, ltb_ℤ, ◌-ℤ◌, String, Bool, true, false, Option, none, some,
  List, [], ◌∷◌, not, if◌then◌else◌,
}
use jwtmint.Text.{is_blank}
use jwtmint.Errors.{Result, ok, err, invalid_value}
use jwtmint.Dict.{Dict, lookup}
use jwtmint.Time.{wrapped, Time, Duration, minus, seconds}
use jwtmint.Claims.Value.{Claims, Host}
use jwtmint.Claims.Registered.{expires_at}

-- What the schedule takes from outside.
pub record Tools (F : Type 0) : Type 0 where
  -- time.ParseDuration, none on an error
  pub parse_duration : String → Option Duration
  -- (*jwt.Parser).ParseUnverified into a map, none on an error
  pub parse_unverified : String → Option (Claims F)
  -- `time.Duration(float64(expiration) * threshold)`
  pub cutoff_of : Duration → F → Duration
  -- `t > 0 && t <= 1`
  pub is_fraction : F → Bool
  -- controller.DefaultRefreshThreshold, 0.25
  pub default_refresh_threshold : F

-- controller.SecretDataKey
abbrev pub secret_data_key : String
secret_data_key = "token"

-- A corev1.Secret: its annotations, its data, the bytes as a text, and its type.
pub record Secret : Type 0 where
  pub annotations : Dict String
  pub data_map : Dict String
  pub kind : String

-- The end of resolveExpiration, on the duration that was parsed.
abbrev pub positive : Option Duration → Result Duration
positive none = err []
positive (some d) = if not (ltb_ℤ (pos 0) d) then err [] else ok d

module _ {F : Type 0} (tools : Tools F) where
  -- controller.resolveExpiration
  unfoldable pub resolve_expiration : String → Duration → Result Duration
  resolve_expiration spec default =
      if is_blank spec
      then ok (if ltb_ℤ (pos 0) default then default else seconds 3600)
      else positive (tools.parse_duration spec)

  -- The choice of the threshold in Reconcile.
  unfoldable pub threshold_of : Option F → F
  threshold_of none = tools.default_refresh_threshold
  threshold_of (some t) = if tools.is_fraction t then t else tools.default_refresh_threshold

-- needsRefresh and requeueAfter as one: none, or how long until the next refresh.
abbrev pub Wait : Type 0
Wait = Option Duration

-- The end of evaluateRefresh.
abbrev pub wait_for : Duration → Duration → Wait
wait_for remaining cutoff =
    if ltb_ℤ cutoff remaining then some (wrapped (remaining -ℤ cutoff)) else none

module _ {F : Type 0} (host : Host F) (tools : Tools F) (now : Time) where
  abbrev pub wait_until : Duration → Result Time → Wait
  wait_until cutoff (err e) = none
  wait_until cutoff (ok exp) = wait_for (minus exp now) cutoff

  abbrev pub wait_parsed : Duration → Option (Claims F) → Wait
  wait_parsed cutoff none = none
  wait_parsed cutoff (some c) = wait_until cutoff (expires_at host c)

  abbrev pub wait_token : Duration → Option String → Wait
  wait_token cutoff none = none
  wait_token cutoff (some token) =
      if is_blank token then none else wait_parsed cutoff (tools.parse_unverified token)

  -- controller.evaluateRefresh
  unfoldable pub evaluate_refresh : Option Secret → Duration → F → Wait
  unfolding wrapped lookup
  evaluate_refresh none expiration threshold = none
  evaluate_refresh (some secret) expiration threshold =
      wait_token (tools.cutoff_of expiration threshold) (lookup secret_data_key secret.data_map)

module _ {F : Type 0} (tools : Tools F) (now : Time) where
  -- controller.nextRefresh
  unfoldable pub next_refresh : Time → Duration → F → Duration
  unfolding wrapped
  next_refresh expires expiration threshold =
      let d = wrapped (minus expires now -ℤ tools.cutoff_of expiration threshold) in
      if ltb_ℤ d (seconds 1) then seconds 1 else d
