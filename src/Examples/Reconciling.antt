-- ===== src/Examples/Reconciling.antt =====
-- The controller on a concrete namespace.
use jwtmint.Prelude.{
  ℤ, pos, ltb_ℤ, ◌-ℤ◌, ◌+ℤ◌, ◌*ℤ◌, ◌≤ℤ◌, String, ◌≡◌, ◌⊎◌, refl, true, false, Option, none, some,
  [], ◌∷◌, ◌==◌, if◌then◌else◌, arith,
}
use jwtmint.Errors.{ok}
use jwtmint.Dict.{lookup}
use jwtmint.Dict.Laws.{Distinct, or_else}
use jwtmint.Time.{Time, seconds, plus, minus}
use jwtmint.Claims.Value.{Value, str, date_ptr, Claims}
use jwtmint.Claims.Keys.{key_expires_at}
use jwtmint.Claims.Read.{read_time}
use jwtmint.Claims.Registered.{expires_at}
use jwtmint.Server.Handlers.{SignFunc}
use jwtmint.Controller.Request.{Spec, Condition, JwtRequest}
use jwtmint.Controller.Conditions.{set_in}
use jwtmint.Controller.Conditions.Laws.{condition, merged, condition-set_in}
use jwtmint.Controller.Schedule.{
  Tools, Secret, secret_data_key, resolve_expiration, evaluate_refresh,
}
use jwtmint.Controller.Schedule.Laws.{evaluate_refresh_bounds}
use jwtmint.Controller.Minting.{mint_claims}
use jwtmint.Controller.Minting.Laws.{field_given, extra_given, lookup-mint_claims}
use jwtmint.Controller.Reconcile.{Cluster, Faults, Reconciler, reconcile}
use jwtmint.Controller.Reconcile.Laws.{Wrote, reconcile-Kept}
use jwtmint.Controller.Reconcile.Converges.{Served, reconcile-Served}
use jwtmint.Examples.{host, ctx, now, claims, token}

-- The threshold is a number of seconds here, and so is what is kept back.
abbrev tools : Tools ℤ
tools = record {
  parse_duration = λ s. none;
  parse_unverified = λ s. some claims;
  cutoff_of = λ d t. t;
  is_fraction = λ t. true;
  default_refresh_threshold = seconds 100;
}

abbrev signer : SignFunc ℤ
signer c m h = ok ("x.y.z", token)

abbrev unmarshal : String → Option (Value ℤ)
unmarshal s = some (str s)

abbrev reconciler : Reconciler ℤ String
reconciler = record {
  host = host;
  rfc3339 = λ t. "2026-01-01T00:00:00Z";
  tools = tools;
  signer = signer;
  unmarshal = unmarshal;
  default_expiration = seconds 3600;
  now = now;
  context = ctx;
}

abbrev fine : Faults
fine = record {
  get_request = none;
  get_secret = none;
  upsert = none;
  set_controller_reference = none;
  update = none;
}

abbrev spec : Spec ℤ String
spec = record {
  secret_name = "alice-token";
  subject = "alice";
  issuer = "";
  audience = "api" ∷ [];
  groups = [];
  roles = [];
  entitlements = [];
  extra_claims = ("team", "blue") ∷ ("exp", "never") ∷ [];
  expires_in = "";
  refresh_threshold = none;
}

abbrev jr : JwtRequest ℤ String
jr = record {
  generation = pos 1;
  spec = spec;
  status = record {
    secret_name = "";
    last_minted_at = none;
    expires_at = none;
    jti = "";
    observed_generation = pos 0;
    conditions = [];
  };
}

abbrev cluster : Cluster ℤ String
cluster = record { requests = ("alice", jr) ∷ []; secrets = [] }

reconcile-Kept_example :
    ((reconcile reconciler fine cluster "alice").0.secrets ≡ cluster.secrets)
    ⊎ Wrote reconciler fine cluster "alice" (reconcile reconciler fine cluster "alice").0.secrets
reconcile-Kept_example = reconcile-Kept reconciler fine cluster "alice"

jr_found : lookup "alice" cluster.requests ≡ some jr
unfolding lookup
jr_found = refl

jr_lasts : resolve_expiration tools spec.expires_in (seconds 3600) ≡ ok (seconds 3600)
unfolding resolve_expiration
jr_lasts = refl

reconcile-Served_example :
    Served reconciler cluster "alice" jr
      (seconds 3600)
      "x.y.z"
      (reconcile reconciler fine cluster "alice")
reconcile-Served_example =
    reconcile-Served reconciler fine cluster "alice" jr (seconds 3600) "x.y.z" token
      (refl, refl, (refl, refl), refl) jr_found refl jr_lasts refl

extras-Distinct : Distinct spec.extra_claims
unfolding lookup
extras-Distinct = (refl, (refl, tt))

lookup-mint_claims_example :
    lookup "team" (mint_claims unmarshal host now spec (seconds 60)).claims ≡ (
      if key_expires_at == "team"
      then some (date_ptr (some (host.numeric_date (plus now (seconds 60)))))
      else or_else (extra_given unmarshal spec.extra_claims "team") (field_given spec "team"))
lookup-mint_claims_example =
    lookup-mint_claims unmarshal host now spec (seconds 60) "team" extras-Distinct

abbrev held : Secret
held = record { annotations = []; data_map = ("token", "x.y.z") ∷ []; kind = "Opaque" }

waits :
    evaluate_refresh host tools now (some held) (seconds 3600) (seconds 100) ≡ some (seconds 900)
unfolding evaluate_refresh lookup expires_at read_time minus ◌-ℤ◌ ◌+ℤ◌ ◌*ℤ◌
waits = refl

evaluate_refresh_bounds_example :
    (s : Secret) × (t : String) × (c : Claims ℤ) × (exp : Time) × (some held ≡ some s)
    × (lookup secret_data_key s.data_map ≡ some t)
    × (some claims ≡ some c)
    × (expires_at host c ≡ ok exp)
    × (ltb_ℤ (seconds 100) (minus exp now) ≡ true)
    × (pos 1 ≤ℤ seconds 900)
    × (seconds 900 ≤ℤ minus exp now)
evaluate_refresh_bounds_example =
    evaluate_refresh_bounds host tools now (some held) (seconds 3600) (seconds 100) (seconds 900)
      (omega arith) waits

abbrev was : Condition
was = record {
  kind = "Ready";
  status = false;
  reason = "MintFailed";
  last_transition = seconds 5;
  observed_generation = pos 1;
}

abbrev becomes : Condition
becomes = record was { status = true; reason = "Minted"; last_transition = seconds 9 }

condition-set_in_example : condition "Ready" (set_in (seconds 9) becomes (was ∷ [])) ≡ (
    if becomes.kind == "Ready"
    then some (merged (seconds 9) becomes (condition becomes.kind (was ∷ [])))
    else condition "Ready" (was ∷ []))
condition-set_in_example = condition-set_in (seconds 9) becomes "Ready" (was ∷ [])
