-- ===== src/Controller/Conditions.antt =====
-- setCondition of k8s/controller/reconciler.go and what calls it. `now` is the clock's reading.
pub mod Laws
use jwtmint.Prelude.{
  ℤ, String, Bool, true, false, Option, none, some, List, [], ◌∷◌, ◌==◌, ◌&&◌, is_empty,
  if◌then◌else◌,
}
use jwtmint.Time.{Time}
use jwtmint.Controller.Request.{
  Condition, Status, JwtRequest, condition_ready, condition_minted, condition_claims_accepted,
  reason_minted, reason_refreshed, reason_mint_failed, reason_all_claims_accepted,
  reason_reserved_claims_dropped, reason_invalid_claim_values,
}

-- `c.Status != status`
abbrev pub same_status : Bool → Bool → Bool
same_status true s = s
same_status false true = false
same_status false false = true

-- A condition of the wanted type, updated.
abbrev pub updated : Time → Condition → Condition → Condition
updated now new c = record c {
  status = new.status;
  reason = new.reason;
  last_transition = if same_status c.status new.status then c.last_transition else now;
  observed_generation = new.observed_generation;
}

-- The loop of setCondition, and the append behind it.
unfoldable pub set_in : Time → Condition → List Condition → List Condition
set_in now new [] = new ∷ []
set_in now new (c ∷ cs) =
    let rest = set_in now new cs in if c.kind == new.kind then updated now new c ∷ cs else c ∷ rest

module _ {F J : Type 0} (now : Time) where
  -- controller.setCondition
  unfoldable pub set_condition : JwtRequest F J → String → Bool → String → JwtRequest F J
  unfolding set_in
  set_condition jr kind status reason = record jr {
    status = record (jr.status) {
      conditions =
          set_in now
            (record {
              kind = kind;
              status = status;
              reason = reason;
              last_transition = now;
              observed_generation = jr.generation;
            })
            jr.status.conditions;
    };
  }

  -- (*JWTRequestReconciler).setMinted
  unfoldable pub set_minted : JwtRequest F J → Bool → JwtRequest F J
  unfolding set_condition
  set_minted jr fresh =
      let reason = if fresh then reason_minted else reason_refreshed in
      set_condition (set_condition jr condition_ready true reason) condition_minted true reason

  -- (*JWTRequestReconciler).setFailed
  unfoldable pub set_failed : JwtRequest F J → JwtRequest F J
  unfolding set_condition
  set_failed jr =
      set_condition (set_condition jr condition_ready false reason_mint_failed) condition_minted
        false reason_mint_failed

  -- (*JWTRequestReconciler).setClaimsAccepted, on the keys that were dropped.
  unfoldable pub set_claims_accepted : JwtRequest F J → List String → List String → JwtRequest F J
  unfolding set_condition
  set_claims_accepted jr reserved invalid =
      if is_empty reserved && is_empty invalid
      then set_condition jr condition_claims_accepted true reason_all_claims_accepted
      else set_condition jr condition_claims_accepted false (
          if is_empty reserved then reason_invalid_claim_values else reason_reserved_claims_dropped)
