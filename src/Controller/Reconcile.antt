-- ===== src/Controller/Reconcile.antt =====
-- Reconcile of k8s/controller/reconciler.go, on the requests and the Secrets of one namespace. An error of
-- the API server comes with the call, and an object that is missing is found missing. Of the owner
-- of a Secret only the error of setting it is modelled.
pub mod Laws
pub mod Converges
use jwtmint.Prelude.{
  ℤ, pos, String, Bool, true, false, Option, none, some, List, [], ◌∷◌, is_some, not, if◌then◌else◌,
}
use jwtmint.Text.{is_blank}
use jwtmint.Errors.{Result, ok, err, Verdict}
use jwtmint.Dict.{Dict, lookup, insert}
use jwtmint.Time.{Time, Duration, zero_time}
use jwtmint.Claims.Value.{Value, Claims, Host}
use jwtmint.Claims.Copy.{to_map_claims}
use jwtmint.Claims.Registered.{expires_at, id}
use jwtmint.Claims.Checks.{and_then, Context}
use jwtmint.Token.{Token}
use jwtmint.Auth.Bearer.{claims_or_nil}
use jwtmint.Server.Handlers.{SignFunc}
use jwtmint.Controller.Request.{Spec, Status, JwtRequest}
use jwtmint.Controller.Conditions.{set_minted, set_failed, set_claims_accepted}
use jwtmint.Controller.Schedule.{
  Tools, Secret, Wait, secret_data_key, resolve_expiration, threshold_of, evaluate_refresh,
  next_refresh,
}
use jwtmint.Controller.Minting.{Minted, mint}

-- What the API server stores.
pub record Cluster (F J : Type 0) : Type 0 where
  pub requests : Dict (JwtRequest F J)
  pub secrets : Dict Secret

-- How the calls of one Reconcile to the API server fail, if they do.
pub record Faults : Type 0 where
  pub get_request : Verdict
  pub get_secret : Verdict
  pub upsert : Verdict
  -- controllerutil.SetControllerReference, which fails if the Secret has another controller
  pub set_controller_reference : Verdict
  pub update : Verdict

-- The error of CreateOrUpdate, which runs its function on what it has read before it writes.
abbrev pub upsert_error : Faults → Verdict
upsert_error faults = and_then faults.set_controller_reference faults.upsert

-- controller.JWTRequestReconciler, and what Reconcile takes from outside.
pub record Reconciler (F J : Type 0) : Type 0 where
  pub host : Host F
  pub tools : Tools F
  pub signer : SignFunc F
  pub unmarshal : J → Option (Value F)
  pub default_expiration : Duration
  -- t.UTC().Format(time.RFC3339)
  pub rfc3339 : Time → String
  pub now : Time
  pub context : Context

-- ctrl.Result and the error.
pub record Outcome : Type 0 where
  pub requeue_after : Duration
  pub failed : Verdict

abbrev pub outcome : Duration → Verdict → Outcome
outcome d e = record { requeue_after = d; failed = e }

abbrev pub time_or_zero : Result Time → Time
time_or_zero (ok t) = t
time_or_zero (err e) = zero_time

abbrev pub text_or_empty : Result String → String
text_or_empty (ok s) = s
text_or_empty (err e) = ""

abbrev pub secret_or_empty : Option Secret → Secret
secret_or_empty none = record { annotations = []; data_map = []; kind = "" }
secret_or_empty (some secret) = secret

-- corev1.SecretTypeOpaque
abbrev pub secret_type_opaque : String
secret_type_opaque = "Opaque"

module _ {F J : Type 0} (r : Reconciler F J) (faults : Faults) where
  -- (*JWTRequestReconciler).updateStatus, the last call on every path.
  abbrev pub with_status :
      Verdict → Cluster F J → String → JwtRequest F J → Duration → Cluster F J × Outcome
  with_status (some e) cl name jr d = (cl, outcome d (some e))
  with_status none cl name jr d =
      (record cl { requests = insert name jr cl.requests }, outcome d none)

  unfoldable pub update_status :
      Cluster F J → String → JwtRequest F J → Duration → Cluster F J × Outcome
  unfolding insert
  update_status cl name jr d = with_status faults.update cl name jr d

  abbrev pub fail : Cluster F J → String → JwtRequest F J → Cluster F J × Outcome
  fail cl name jr = update_status cl name (set_failed r.now jr) (pos 0)

  -- The fields of the status that Reconcile sets of a minted token.
  abbrev pub stamped : JwtRequest F J → Token F → JwtRequest F J
  stamped jr tok =
      let mc = claims_or_nil (to_map_claims tok.claims) in
      record jr {
        status = record (jr.status) {
          last_minted_at = some r.now;
          expires_at = some (time_or_zero (expires_at r.host mc));
          jti = text_or_empty (id r.host mc);
          secret_name = jr.spec.secret_name;
          observed_generation = jr.generation;
        };
      }

  -- And the conditions.
  unfoldable pub minted_status : JwtRequest F J → Bool → Token F → Minted F → JwtRequest F J
  unfolding set_minted set_claims_accepted
  minted_status jr fresh tok m =
      set_claims_accepted r.now (set_minted r.now (stamped jr tok) fresh) m.reserved m.invalid

  -- What the function of upsertSecret makes of the Secret that was read.
  abbrev pub with_token : String → Secret → Secret
  with_token token secret = record secret {
    annotations = insert "jwtmint.io/mintedAt" (r.rfc3339 r.now) secret.annotations;
    data_map = insert secret_data_key token secret.data_map;
    kind = secret_type_opaque;
  }

  -- (*JWTRequestReconciler).upsertSecret
  unfoldable pub upsert_secret : Cluster F J → String → String → Cluster F J
  unfolding insert lookup
  upsert_secret cl name token = record cl {
    secrets = insert name (with_token token (secret_or_empty (lookup name cl.secrets))) cl.secrets;
  }

  -- Reconcile behind upsertSecret, on its error.
  abbrev pub upserted :
      Verdict
      → Cluster F J
      → String
      → JwtRequest F J
      → Bool
      → Duration
      → F
      → String
      → Token F
      → Minted F
      → Cluster F J × Outcome
  upserted (some e) cl name jr fresh expiration threshold text tok m = fail cl name jr
  upserted none cl name jr fresh expiration threshold text tok m =
      update_status (upsert_secret cl jr.spec.secret_name text) name (minted_status jr fresh tok m)
        (next_refresh r.tools r.now
          (time_or_zero (expires_at r.host (claims_or_nil (to_map_claims tok.claims)))) expiration
          threshold)

  -- Reconcile behind mint.
  abbrev pub minted :
      Cluster F J
      → String
      → JwtRequest F J
      → Bool
      → Duration
      → F
      → Result (String × Token F) × Minted F
      → Cluster F J × Outcome
  minted cl name jr fresh expiration threshold (err e, m) = fail cl name jr
  minted cl name jr fresh expiration threshold (ok (text, tok), m) =
      upserted (upsert_error faults) cl name jr fresh expiration threshold text tok m

  -- The branch on needsRefresh.
  abbrev pub due :
      Cluster F J → String → JwtRequest F J → Bool → Duration → F → Wait → Cluster F J × Outcome
  due cl name jr fresh expiration threshold (some d) =
      update_status cl name
        (record jr { status = record (jr.status) { secret_name = jr.spec.secret_name } }) d
  due cl name jr fresh expiration threshold none =
      minted cl name jr fresh expiration threshold
        (mint r.unmarshal r.host r.now r.signer r.context jr.spec expiration)

  -- Reconcile behind getSecret.
  abbrev pub with_secret :
      Verdict
      → Cluster F J
      → String
      → JwtRequest F J
      → Option Secret
      → Duration
      → Cluster F J × Outcome
  with_secret (some e) cl name jr secret expiration = (cl, outcome (pos 0) (some e))
  with_secret none cl name jr secret expiration =
      let threshold = threshold_of r.tools jr.spec.refresh_threshold in
      due cl name jr (not (is_some secret)) expiration threshold
        (evaluate_refresh r.host r.tools r.now secret expiration threshold)

  -- Reconcile behind resolveExpiration.
  abbrev pub with_expiration :
      Cluster F J → String → JwtRequest F J → Result Duration → Cluster F J × Outcome
  with_expiration cl name jr (err e) = fail cl name jr
  with_expiration cl name jr (ok expiration) =
      with_secret faults.get_secret cl name jr (lookup jr.spec.secret_name cl.secrets) expiration

  -- Reconcile behind the first Get.
  abbrev pub with_request :
      Verdict → Cluster F J → String → Option (JwtRequest F J) → Cluster F J × Outcome
  with_request (some e) cl name o = (cl, outcome (pos 0) (some e))
  with_request none cl name none = (cl, outcome (pos 0) none)
  with_request none cl name (some jr) =
      if is_blank jr.spec.secret_name
      then fail cl name jr
      else with_expiration cl name jr
          (resolve_expiration r.tools jr.spec.expires_in r.default_expiration)

  -- (*JWTRequestReconciler).Reconcile
  unfoldable pub reconcile : Cluster F J → String → Cluster F J × Outcome
  unfolding update_status set_failed minted_status upsert_secret next_refresh mint evaluate_refresh
      threshold_of resolve_expiration lookup
  reconcile cl name = with_request faults.get_request cl name (lookup name cl.requests)
