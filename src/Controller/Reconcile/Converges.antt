-- ===== src/Controller/Reconcile/Converges.antt =====
-- What one Reconcile reaches when no call fails.
use jwtmint.Prelude.{
  String, ◌≡◌, ◌⊎◌, inl, inr, refl, ◌∙◌, Bool, true, false, Option, none, some, List, [], ◌==◌,
  ◌&&◌, if◌then◌else◌, eq_refl, is_empty, not, is_some,
}
use jwtmint.Text.{is_blank}
use jwtmint.Errors.{ok}
use jwtmint.Dict.{lookup}
use jwtmint.Dict.Laws.{lookup-insert}
use jwtmint.Time.{Time, Duration}
use jwtmint.Token.{Token}
use jwtmint.Controller.Request.{
  Condition, JwtRequest, condition_ready, condition_minted, condition_claims_accepted,
  reason_minted, reason_refreshed, reason_all_claims_accepted, reason_invalid_claim_values,
  reason_reserved_claims_dropped,
}
use jwtmint.Controller.Conditions.{set_condition, set_minted, set_claims_accepted}
use jwtmint.Controller.Conditions.Laws.{condition, merged, condition-set_in}
use jwtmint.Controller.Schedule.{
  Secret, Wait, secret_data_key, resolve_expiration, threshold_of, evaluate_refresh,
}
use jwtmint.Controller.Minting.{Minted, mint, mint_claims}
use jwtmint.Controller.Reconcile.{
  Cluster, Faults, Reconciler, Outcome, secret_or_empty, with_token, update_status, stamped,
  minted_status, upsert_secret, minted, due, reconcile,
}

-- The condition of a type holds.
abbrev pub Holds : String → List Condition → Type 0
Holds kind cs = (c : Condition) × (condition kind cs ≡ some c) × (c.status ≡ true)

merged-status :
    (now : Time) (new : Condition) (o : Option Condition) → (merged now new o).status ≡ new.status
merged-status now new none = refl
merged-status now new (some c) = refl

module _ {F J : Type 0} (now : Time) where
  set_condition-other :
      (jr : JwtRequest F J) (kind other : String) (status : Bool) (reason : String)
      → (kind == other) ≡ false
      → Holds other jr.status.conditions
      → Holds other (set_condition now jr kind status reason).status.conditions
  unfolding set_condition
  set_condition-other jr kind other status reason apart (c, held, is_true) =
      (c, condition-set_in now _ other jr.status.conditions ∙ (rw apart held), is_true)

  set_condition-same :
      (jr : JwtRequest F J) (kind reason : String)
      → Holds kind (set_condition now jr kind true reason).status.conditions
  unfolding set_condition
  set_condition-same jr kind reason =
      let new : Condition = record {
        kind = kind;
        status = true;
        reason = reason;
        last_transition = now;
        observed_generation = jr.generation;
      } in
      let old = condition kind jr.status.conditions in
      (
        merged now new old,
        condition-set_in now new kind jr.status.conditions ∙ (rw (eq_refl kind) refl),
        merged-status now new old,
      )

  set_minted-Ready :
      (jr : JwtRequest F J) (fresh : Bool)
      → Holds condition_ready (set_minted now jr fresh).status.conditions
  unfolding set_minted
  set_minted-Ready jr fresh =
      let reason = if fresh then reason_minted else reason_refreshed in
      set_condition-other (set_condition now jr condition_ready true reason) condition_minted
        condition_ready true reason refl (set_condition-same jr condition_ready reason)

  set_claims_accepted-Ready :
      (jr : JwtRequest F J) (reserved invalid : List String)
      → Holds condition_ready jr.status.conditions
      → Holds condition_ready (set_claims_accepted now jr reserved invalid).status.conditions
  unfolding set_claims_accepted
  set_claims_accepted-Ready jr reserved invalid h = go (is_empty reserved && is_empty invalid)
    where
      go :
          (b : Bool)
          → Holds condition_ready
              (if b
                then set_condition now jr condition_claims_accepted true reason_all_claims_accepted
                else set_condition now jr condition_claims_accepted false (
                    if is_empty reserved
                    then reason_invalid_claim_values
                    else reason_reserved_claims_dropped)).status.conditions
      go true = set_condition-other jr condition_claims_accepted condition_ready true _ refl h
      go false = set_condition-other jr condition_claims_accepted condition_ready false _ refl h

-- The Secret holds a token that is not due yet, or the one that was signed, and then Ready holds.
abbrev pub Served :
    {F J : Type 0}
    → Reconciler F J
    → Cluster F J
    → String
    → JwtRequest F J
    → Duration
    → String
    → Cluster F J × Outcome
    → Type 0
Served {F} {J} r cl name jr expiration text (after, out) =
    (out.failed ≡ none)
    × (((evaluate_refresh r.host r.tools r.now (lookup jr.spec.secret_name cl.secrets) expiration
              (threshold_of r.tools jr.spec.refresh_threshold)
            ≡ some out.requeue_after)
          × (after.secrets ≡ cl.secrets))
        ⊎ ((secret : Secret) × (jr' : JwtRequest F J) × (lookup jr.spec.secret_name after.secrets
              ≡ some secret)
            × (lookup secret_data_key secret.data_map ≡ some text)
            × (lookup name after.requests ≡ some jr')
            × Holds condition_ready jr'.status.conditions))

module _ {F J : Type 0} (r : Reconciler F J) (faults : Faults) (cl : Cluster F J) (name : String)
    (jr : JwtRequest F J) where
  minted_status-Ready :
      (fresh : Bool) (tok : Token F) (m : Minted F)
      → Holds condition_ready (minted_status r faults jr fresh tok m).status.conditions
  unfolding minted_status
  minted_status-Ready fresh tok m =
      set_claims_accepted-Ready r.now (set_minted r.now (stamped r faults jr tok) fresh) m.reserved
        m.invalid (set_minted-Ready r.now (stamped r faults jr tok) fresh)

  after_mint :
      (fresh : Bool) (expiration : Duration) (threshold : F) (text : String) (tok : Token F)
      (m : Minted F)
      → (faults.upsert ≡ none) × (faults.set_controller_reference ≡ none)
      → faults.update ≡ none
      → Served r cl name jr expiration text
          (minted r faults cl name jr fresh expiration threshold (ok (text, tok), m))
  unfolding update_status upsert_secret
  after_mint fresh expiration threshold text tok m no_upsert no_update =
      simp (no_upsert.0, no_upsert.1, no_update)
        (
          refl,
          inr (
            with_token r faults text (secret_or_empty (lookup jr.spec.secret_name cl.secrets)),
            minted_status r faults jr fresh tok m,
            lookup-insert jr.spec.secret_name jr.spec.secret_name _ cl.secrets
                ∙ (rw (eq_refl jr.spec.secret_name) refl),
            lookup-insert secret_data_key secret_data_key text
                (secret_or_empty (lookup jr.spec.secret_name cl.secrets)).data_map,
            lookup-insert name name _ cl.requests ∙ (rw (eq_refl name) refl),
            minted_status-Ready fresh tok m,
          ),
        )

  after_due :
      (fresh : Bool) (expiration : Duration) (text : String) (tok : Token F) (wait : Wait)
      → (faults.upsert ≡ none) × (faults.set_controller_reference ≡ none)
      → faults.update ≡ none
      → r.signer r.context (mint_claims r.unmarshal r.host r.now jr.spec expiration).claims []
        ≡ ok (text, tok)
      → evaluate_refresh r.host r.tools r.now
          (lookup jr.spec.secret_name cl.secrets)
          expiration
          (threshold_of r.tools jr.spec.refresh_threshold)
        ≡ wait
      → Served r cl name jr expiration text (
          due r faults cl name jr fresh expiration
            (threshold_of r.tools jr.spec.refresh_threshold)
            wait)
  unfolding update_status mint
  after_due fresh expiration text tok (some d) no_upsert no_update signed is_wait =
      simp no_update (refl, inl (is_wait, refl))
  after_due fresh expiration text tok none no_upsert no_update signed is_wait = simp signed (
      after_mint fresh expiration (threshold_of r.tools jr.spec.refresh_threshold) text tok
        (mint_claims r.unmarshal r.host r.now jr.spec expiration) no_upsert no_update)

  -- A Reconcile of a request that names a Secret and has a valid expiry succeeds if no call to
  -- the API server fails, the Secret can be owned by the request and the signer signs: the token
  -- in the Secret is not due, no Secret is written and the requeue is the time until it is, or
  -- the Secret holds the signed text and the condition Ready holds.
  pub reconcile-Served :
      (expiration : Duration) (text : String) (tok : Token F)
      → (faults.get_request ≡ none)
        × (faults.get_secret ≡ none)
        × ((faults.upsert ≡ none) × (faults.set_controller_reference ≡ none))
        × (faults.update ≡ none)
      → lookup name cl.requests ≡ some jr
      → is_blank jr.spec.secret_name ≡ false
      → resolve_expiration r.tools jr.spec.expires_in r.default_expiration ≡ ok expiration
      → r.signer r.context (mint_claims r.unmarshal r.host r.now jr.spec expiration).claims []
        ≡ ok (text, tok)
      → Served r cl name jr expiration text (reconcile r faults cl name)
  unfolding reconcile
  reconcile-Served expiration text tok (no_get, no_secret, no_upsert, no_update) found named
        resolved signed =
      simp (no_get, found, named, resolved, no_secret)
        (after_due (not (is_some (lookup jr.spec.secret_name cl.secrets))) expiration text tok _
          no_upsert no_update signed refl)
