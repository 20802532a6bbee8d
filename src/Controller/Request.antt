-- ===== src/Controller/Request.antt =====
-- k8s/api/v1alpha1/types.go: a JWTRequest as the controller reads and writes it, and its conditions. Message
-- texts are left out. `F` stands for float64, `J` for the raw JSON of an extra claim.
use jwtmint.Prelude.{ℤ, String, Bool, Option, List}
use jwtmint.Dict.{Dict}
use jwtmint.Time.{Time}

-- v1alpha1.JWTRequestSpec
pub record Spec (F J : Type 0) : Type 0 where
  pub secret_name : String
  pub subject : String
  pub issuer : String
  pub audience : List String
  pub groups : List String
  pub roles : List String
  pub entitlements : List String
  pub extra_claims : Dict J
  pub expires_in : String
  pub refresh_threshold : Option F

-- metav1.Condition; the status is true for ConditionTrue and false for ConditionFalse, the only two
-- that the controller sets.
pub record Condition : Type 0 where
  pub kind : String
  pub status : Bool
  pub reason : String
  pub last_transition : Time
  pub observed_generation : ℤ

-- v1alpha1.JWTRequestStatus
pub record Status : Type 0 where
  pub secret_name : String
  pub last_minted_at : Option Time
  pub expires_at : Option Time
  pub jti : String
  pub observed_generation : ℤ
  pub conditions : List Condition

-- v1alpha1.JWTRequest, its generation from the metadata.
pub record JwtRequest (F J : Type 0) : Type 0 where
  pub generation : ℤ
  pub spec : Spec F J
  pub status : Status

-- v1alpha1.ConditionReady, v1alpha1.ConditionMinted, v1alpha1.ConditionClaimsAccepted
abbrev pub condition_ready : String
condition_ready = "Ready"

abbrev pub condition_minted : String
condition_minted = "Minted"

abbrev pub condition_claims_accepted : String
condition_claims_accepted = "ClaimsAccepted"

-- The reasons.
abbrev pub reason_minted : String
reason_minted = "Minted"

abbrev pub reason_refreshed : String
reason_refreshed = "Refreshed"

abbrev pub reason_mint_failed : String
reason_mint_failed = "MintFailed"

abbrev pub reason_all_claims_accepted : String
reason_all_claims_accepted = "AllClaimsAccepted"

abbrev pub reason_reserved_claims_dropped : String
reason_reserved_claims_dropped = "ReservedClaimsDropped"

abbrev pub reason_invalid_claim_values : String
reason_invalid_claim_values = "InvalidClaimValues"
