-- ===== src/Controller/Reconcile/Laws.antt =====
-- What one Reconcile does to the Secrets.
use jwtmint.Prelude.{
  String, ◌≡◌, ◌⊎◌, inl, inr, refl, ap, ◌∙◌, Bool, true, false, Option, none, some, [], ◌==◌,
  is_some, not, if◌then◌else◌,
}
use jwtmint.Text.{is_blank}
use jwtmint.Errors.{Result, ok, err, Verdict}
use jwtmint.Dict.{Dict, lookup, insert}
use jwtmint.Dict.Laws.{lookup-insert}
use jwtmint.Time.{Duration}
use jwtmint.Token.{Token}
use jwtmint.Controller.Request.{JwtRequest}
use jwtmint.Controller.Schedule.{
  Secret, Wait, secret_data_key, resolve_expiration, threshold_of, evaluate_refresh,
}
use jwtmint.Controller.Minting.{Minted, mint, mint_claims}
use jwtmint.Controller.Reconcile.{
  Cluster, Faults, upsert_error, Reconciler, secret_or_empty, with_token, with_status,
  update_status, fail, upsert_secret, upserted, minted, due, with_secret, with_expiration,
  with_request, reconcile,
}

module _ {F J : Type 0} (r : Reconciler F J) (faults : Faults) (cl : Cluster F J)
    (name : String) where
  -- A token was due for the request and was signed from its claims; then its text stands in the
  -- request's Secret, with its type and the time of minting, and the rest of every Secret is as it was.
  pub record Wrote (secrets : Dict Secret) : Type 0 where
    pub request : JwtRequest F J
    pub expiration : Duration
    pub text : String
    pub token : Token F
    pub found : lookup name cl.requests ≡ some request
    pub named : is_blank request.spec.secret_name ≡ false
    pub resolved :
        resolve_expiration r.tools request.spec.expires_in r.default_expiration ≡ ok expiration
    pub was_due :
        evaluate_refresh r.host r.tools r.now
          (lookup request.spec.secret_name cl.secrets)
          expiration
          (threshold_of r.tools request.spec.refresh_threshold)
        ≡ none
    pub signed :
        r.signer r.context (mint_claims r.unmarshal r.host r.now request.spec expiration).claims []
        ≡ ok (text, token)
    pub written :
        (secret : String)
        → lookup secret secrets ≡ (
            if request.spec.secret_name == secret
            then some (
                let old = secret_or_empty (lookup request.spec.secret_name cl.secrets) in
                record old {
                  annotations = insert "jwtmint.io/mintedAt" (r.rfc3339 r.now) old.annotations;
                  data_map = insert secret_data_key text old.data_map;
                  kind = "Opaque";
                })
            else lookup secret cl.secrets)

  -- The Secrets are as they were, or a token was written.
  abbrev pub Kept : Dict Secret → Type 0
  Kept secrets = (secrets ≡ cl.secrets) ⊎ Wrote secrets

  with_status-secrets :
      (v : Verdict) (c : Cluster F J) (jr : JwtRequest F J) (d : Duration)
      → (with_status r faults v c name jr d).0.secrets ≡ c.secrets
  with_status-secrets none c jr d = refl
  with_status-secrets (some e) c jr d = refl

  update_status-secrets :
      (c : Cluster F J) (jr : JwtRequest F J) (d : Duration)
      → (update_status r faults c name jr d).0.secrets ≡ c.secrets
  unfolding update_status
  update_status-secrets c jr d = with_status-secrets faults.update c jr d

  -- What is known of a request when its Secret is looked at.
  abbrev Due : JwtRequest F J → Duration → Type 0
  Due jr expiration =
      (lookup name cl.requests ≡ some jr)
      × (is_blank jr.spec.secret_name ≡ false)
      × (resolve_expiration r.tools jr.spec.expires_in r.default_expiration ≡ ok expiration)
      × (evaluate_refresh r.host r.tools r.now (lookup jr.spec.secret_name cl.secrets) expiration
            (threshold_of r.tools jr.spec.refresh_threshold)
          ≡ none)

  lookup-upsert_secret :
      (target text secret : String)
      → lookup secret (upsert_secret r faults cl target text).secrets ≡ (
          if target == secret
          then some (with_token r faults text (secret_or_empty (lookup target cl.secrets)))
          else lookup secret cl.secrets)
  unfolding upsert_secret
  lookup-upsert_secret target text secret = lookup-insert target secret _ cl.secrets

  minted-Kept :
      (jr : JwtRequest F J) (fresh : Bool) (expiration : Duration) (threshold : F)
      (o : Result (String × Token F)) (m : Minted F)
      → Due jr expiration
      → r.signer r.context (mint_claims r.unmarshal r.host r.now jr.spec expiration).claims [] ≡ o
      → Kept (minted r faults cl name jr fresh expiration threshold (o, m)).0.secrets
  minted-Kept jr fresh expiration threshold (err e) m known h = inl (update_status-secrets cl _ _)
  minted-Kept jr fresh expiration threshold (ok (text, tok)) m (found, named, resolved, is_due) h =
      go (upsert_error faults)
    where
      go :
          (v : Verdict)
          → Kept (upserted r faults v cl name jr fresh expiration threshold text tok m).0.secrets
      go (some e) = inl (update_status-secrets cl _ _)
      go none = inr (record {
        request = jr;
        expiration = expiration;
        text = text;
        token = tok;
        found = found;
        named = named;
        resolved = resolved;
        was_due = is_due;
        signed = h;
        written = λ secret.
            ap (lookup secret) (update_status-secrets _ _ _)
            ∙ lookup-upsert_secret jr.spec.secret_name text secret;
      })

  due-Kept :
      (jr : JwtRequest F J) (fresh : Bool) (expiration : Duration) (wait : Wait)
      → (lookup name cl.requests ≡ some jr)
      → (is_blank jr.spec.secret_name ≡ false)
      → (resolve_expiration r.tools jr.spec.expires_in r.default_expiration ≡ ok expiration)
      → (evaluate_refresh r.host r.tools r.now
            (lookup jr.spec.secret_name cl.secrets)
            expiration
            (threshold_of r.tools jr.spec.refresh_threshold)
          ≡ wait)
      → Kept
          (due r faults cl name jr fresh expiration
            (threshold_of r.tools jr.spec.refresh_threshold)
            wait).0.secrets
  unfolding mint
  due-Kept jr fresh expiration (some d) found named resolved is_wait =
      inl (update_status-secrets cl _ _)
  due-Kept jr fresh expiration none found named resolved is_wait =
      minted-Kept jr fresh expiration (threshold_of r.tools jr.spec.refresh_threshold) _ _
        (found, named, resolved, is_wait) refl

  with_expiration-Kept :
      (jr : JwtRequest F J) (o : Result Duration)
      → (lookup name cl.requests ≡ some jr)
      → (is_blank jr.spec.secret_name ≡ false)
      → (resolve_expiration r.tools jr.spec.expires_in r.default_expiration ≡ o)
      → Kept (with_expiration r faults cl name jr o).0.secrets
  with_expiration-Kept jr (err e) found named h = inl (update_status-secrets cl _ _)
  with_expiration-Kept jr (ok expiration) found named h = go faults.get_secret
    where
      go :
          (v : Verdict)
          → Kept
              (with_secret r faults v cl name jr
                (lookup jr.spec.secret_name cl.secrets)
                expiration).0.secrets
      go (some e) = inl refl
      go none =
          due-Kept jr (not (is_some (lookup jr.spec.secret_name cl.secrets))) expiration _ found
            named h refl

  with_request-Kept :
      (v : Verdict) (o : Option (JwtRequest F J))
      → lookup name cl.requests ≡ o
      → Kept (with_request r faults v cl name o).0.secrets
  with_request-Kept (some e) o found = inl refl
  with_request-Kept none none found = inl refl
  with_request-Kept none (some jr) found = go (is_blank jr.spec.secret_name) refl
    where
      go :
          (b : Bool)
          → is_blank jr.spec.secret_name ≡ b
          → Kept
              (if b
                then fail r faults cl name jr
                else with_expiration r faults cl name jr
                    (resolve_expiration r.tools jr.spec.expires_in r.default_expiration)).0.secrets
      go true h = inl (update_status-secrets cl _ _)
      go false h = with_expiration-Kept jr _ found h refl

  -- A Reconcile leaves all Secrets as they were, or the request's token was due and the signer
  -- signed its claims, and then the Secret that the request names holds that text as its token,
  -- is of the type Opaque and is annotated with the time, and every other entry, every other
  -- annotation and every other Secret is as it was, whichever call to the API server fails.
  pub reconcile-Kept :
      ((reconcile r faults cl name).0.secrets ≡ cl.secrets)
      ⊎ Wrote (reconcile r faults cl name).0.secrets
  unfolding reconcile
  reconcile-Kept = with_request-Kept faults.get_request (lookup name cl.requests) refl
