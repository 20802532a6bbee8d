-- ===== src/Controller/Minting.antt =====
-- mint of k8s/controller/reconciler.go: the claims that are made of a request's spec.
pub mod Laws
use jwtmint.Prelude.{String, Bool, Option, none, some, List, [], ◌∷◌, is_empty, if◌then◌else◌}
use jwtmint.Text.{is_blank}
use jwtmint.Errors.{Result}
use jwtmint.Dict.{Dict, insert}
use jwtmint.Time.{Time, Duration, plus}
use jwtmint.Claims.Value.{Value, Claims, Host}
use jwtmint.Claims.Keys.{is_registered_claim}
use jwtmint.Claims.Registered.{set_subject, set_issuer, set_audience, set_expires_at}
use jwtmint.Claims.Profile.{set_groups, set_roles, set_entitlements}
use jwtmint.Claims.Checks.{Context}
use jwtmint.Token.{Token}
use jwtmint.Server.Handlers.{SignFunc}
use jwtmint.Controller.Request.{Spec, JwtRequest}

-- The claims so far, and controller.mintResult: the keys that were dropped, reserved and invalid. The
-- source sorts both lists at the end; here they are in the order of the map.
pub record Minted (F : Type 0) : Type 0 where
  pub claims : Claims F
  pub reserved : List String
  pub invalid : List String

abbrev pub unless_blank : {F : Type 0} → String → (Claims F → Claims F) → Claims F → Claims F
unless_blank s set c = if is_blank s then c else set c

abbrev pub unless_empty : {F : Type 0} → List String → (Claims F → Claims F) → Claims F → Claims F
unless_empty l set c = if is_empty l then c else set c

module _ {F J : Type 0} where
  -- The branches on the fields of the spec.
  unfoldable pub spec_claims : Spec F J → Claims F
  unfolding set_subject set_issuer set_audience set_groups set_roles set_entitlements
  spec_claims s =
      unless_empty s.entitlements (λ c. set_entitlements c s.entitlements)
        (unless_empty s.roles (λ c. set_roles c s.roles)
          (unless_empty s.groups (λ c. set_groups c s.groups)
            (unless_empty s.audience (λ c. set_audience c s.audience)
              (unless_blank s.issuer (λ c. set_issuer c s.issuer)
                (unless_blank s.subject (λ c. set_subject c s.subject) [])))))

module _ {F J : Type 0} (unmarshal : J → Option (Value F)) where
  -- An entry whose key is not reserved, on what json.Unmarshal makes of it.
  abbrev pub keep_value : String → Option (Value F) → Minted F → Minted F
  keep_value k none m = record m { invalid = k ∷ m.invalid }
  keep_value k (some v) m = record m { claims = insert k v m.claims }

  -- The body of the loop over the extra claims.
  unfoldable pub add_entry : String → J → Minted F → Minted F
  unfolding insert is_registered_claim
  add_entry k raw m =
      if is_registered_claim k
      then record m { reserved = k ∷ m.reserved }
      else keep_value k (unmarshal raw) m

  -- The loop, its last entry first.
  unfoldable pub add_extra : Dict J → Minted F → Minted F
  unfolding add_entry
  add_extra [] m = m
  add_extra ((k, raw) ∷ extra) m = add_entry k raw (add_extra extra m)

  -- The claims of mint, and what was dropped.
  unfoldable pub mint_claims : Host F → Time → Spec F J → Duration → Minted F
  unfolding spec_claims add_extra
  mint_claims host now spec expiration =
      let m =
        add_extra spec.extra_claims
          (record { claims = spec_claims spec; reserved = []; invalid = [] }) in
      record m { claims = set_expires_at host m.claims (plus now expiration) }

  -- (*JWTRequestReconciler).mint
  unfoldable pub mint :
      Host F
      → Time
      → SignFunc F
      → Context
      → Spec F J
      → Duration
      → Result (String × Token F) × Minted F
  unfolding mint_claims
  mint host now signer ctx spec expiration =
      let m = mint_claims host now spec expiration in (signer ctx m.claims [], m)
