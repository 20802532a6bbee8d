-- ===== src/Admission/Webhook.antt =====
-- k8s/admission/webhook.go: the validating webhook. A panic is `none`. The body is what the decoder makes
-- of it, none if it does not decode; so is the object of a request. Message texts are left out.
use jwtmint.Prelude.{
  ℕ, String, ◌≡◌, ◌↔◌, ◌⊎◌, inl, inr, refl, Bool, true, false, Option, none, some,
}
use mathlib.Core.Option.{some-injective}
use jwtmint.Errors.{Verdict}
use jwtmint.Admission.{UserInfo, Spec, SelfOnlyPolicy, allow}
use jwtmint.Admission.Laws.{Administrator, SelfOnly, allow_iff}

-- admission.Policy
abbrev pub Policy : Type 0 → Type 0
Policy J = UserInfo → Option (Spec J) → Verdict

-- The fields of an admissionv1.AdmissionRequest that the handler reads.
pub record Request (J : Type 0) : Type 0 where
  pub uid : String
  pub user_info : UserInfo
  pub object : Option (Spec J)

-- What is written: the status code, and the response of the review.
pub record Response : Type 0 where
  pub code : ℕ
  pub uid : String
  pub allowed : Bool

-- admission.allowedReview
abbrev pub allowed_review : {J : Type 0} → Request J → Response
allowed_review req = record { code = 200; uid = req.uid; allowed = true }

-- admission.deniedReview
abbrev pub uid_of : {J : Type 0} → Option (Request J) → String
uid_of none = ""
uid_of (some req) = req.uid

abbrev pub denied_review : {J : Type 0} → ℕ → Option (Request J) → Response
denied_review code req = record { code = code; uid = uid_of req; allowed = false }

module _ {J : Type 0} where
  -- What is made of Allow's error.
  abbrev pub decided : Request J → Verdict → Response
  decided req none = allowed_review req
  decided req (some e) = denied_review 200 (some req)

  -- The branch on the object.
  abbrev pub decide : Policy J → Request J → Option (Spec J) → Response
  decide policy req none = denied_review 200 (some req)
  decide policy req (some spec) = decided req (policy req.user_info (some spec))

  -- The function that Handler returns.
  unfoldable pub validate : Policy J → Option (Option (Request J)) → Response
  validate policy none = denied_review {J = J} 400 none
  validate policy (some none) = denied_review {J = J} 400 none
  validate policy (some (some req)) = decide policy req req.object

  -- admission.Handler
  unfoldable pub handler : Option (Policy J) → Option (Option (Option (Request J)) → Response)
  unfolding validate
  handler none = none
  handler (some policy) = some (validate policy)

  decided_iff : (req : Request J) (v : Verdict) → ((decided req v).allowed ≡ true) ↔ (v ≡ none)
  decided_iff req none = (λ _. refl, λ _. refl)
  decided_iff req (some e) = (λ h. cc, λ h. cc)

  -- An object that decodes to what the policy admits.
  abbrev pub Admits : SelfOnlyPolicy → Request J → Option (Spec J) → Type 0
  Admits p req object =
      (spec : Spec J) × (object ≡ some spec)
      × (Administrator p req.user_info ⊎ SelfOnly p req.user_info spec)

  decide_iff :
      (p : SelfOnlyPolicy) (req : Request J) (object : Option (Spec J))
      → ((decide (allow p) req object).allowed ≡ true) ↔ Admits p req object
  decide_iff p req none = (λ h. cc, λ (spec, h, rest). cc)
  decide_iff p req (some spec) =
      let verdict = decided_iff req (allow p req.user_info (some spec)) in
      let policy = allow_iff p req.user_info spec in
      (
        λ h. (spec, refl, policy.0 (verdict.0 h)),
        λ (other, same, rest).
            let e : other ≡ spec = cc in
            verdict.1
              (policy.1 (elim rest [ inl admin ↦ inl admin | inr own ↦ inr (rw (← e) own) ])),
      )

  decide-uid :
      (policy : Policy J) (req : Request J) (object : Option (Spec J))
      → (decide policy req object).uid ≡ req.uid
  decide-uid policy req none = refl
  decide-uid policy req (some spec) = go (policy req.user_info (some spec))
    where
      go : (v : Verdict) → (decided req v).uid ≡ req.uid
      go none = refl
      go (some e) = refl

  -- With SelfOnlyPolicy the webhook allows a request exactly if its object decodes and the policy
  -- admits it; it echoes the request's uid, and a body that does not decode or has no request is
  -- denied.
  pub handler_iff :
      (p : SelfOnlyPolicy) (handle : Option (Option (Request J)) → Response) (req : Request J)
      → handler (some (allow p)) ≡ some handle
      → (((handle (some (some req))).allowed ≡ true) ↔ Admits p req req.object)
        × ((handle (some (some req))).uid ≡ req.uid)
        × ((handle none).allowed ≡ false)
        × ((handle (some none)).allowed ≡ false)
  unfolding handler
  handler_iff p handle req made =
      let same = some-injective _ _ made in
      rw (← same) (decide_iff p req req.object, decide-uid (allow p) req req.object, refl, refl)
