-- ===== src/Revocation.antt =====
-- Package revocation (revocation/): the in-process denylist and the chain of revokers. The map is
-- guarded by a mutex in the source, so each operation is one step on the state.
pub mod Laws
pub mod History
use jwtmint.Prelude.{
  ℕ, ◌+◌, String, Bool, true, false, Option, none, some, List, [], ◌∷◌, ◌==◌, ◌&&◌, not, length,
  if◌then◌else◌,
}
use jwtmint.Text.{is_blank}
use jwtmint.Errors.{Err, Result, ok, err, check, invalid_value, ◌>>=◌}
use jwtmint.Dict.{Dict, lookup, insert, delete}
use jwtmint.Time.{Time, zero_time, is_zero, before}
use jwtmint.Claims.Value.{Host}
use jwtmint.Claims.Copy.{to_map_claims}
use jwtmint.Claims.Registered.{jti, subject}
use jwtmint.Claims.Checks.{Context}
use jwtmint.Token.{Token}

-- revocation.KeyExtractor: `none` where no key is found.
abbrev pub KeyExtractor : Type 0 → Type 0
KeyExtractor F = Token F → Option String

-- revocation.Revoker: the token may be a nil pointer.
abbrev pub Revoker : Type 0 → Type 0
Revoker F = Context → Option (Token F) → Result Bool

-- `if err != nil || key == "" { return "", false }`
abbrev pub key_found : Result String → Option String
key_found (ok key) = if is_blank key then none else some key
key_found (err e) = none

module _ {F : Type 0} (host : Host F) where
  -- revocation.JTIExtractor
  unfoldable pub jti_extractor : KeyExtractor F
  jti_extractor token = key_found (to_map_claims token.claims >>= λ mc. jti host mc)

  -- revocation.SubjectExtractor
  unfoldable pub subject_extractor : KeyExtractor F
  subject_extractor token = key_found (to_map_claims token.claims >>= λ mc. subject host mc)

-- revocation.MemRevoker: `clock` gives m.now() from the wall clock's reading.
pub record MemRevoker (F : Type 0) : Type 0 where
  pub revoked : Dict Time
  pub key_fn : KeyExtractor F
  pub clock : Time → Time

-- revocation.MemOpt: WithKeyExtractor and WithClock, each perhaps with a nil function.
pub data MemOpt (F : Type 0) : Type 0 where
  with_key_extractor : Option (KeyExtractor F) → MemOpt F
  with_clock : Option (Time → Time) → MemOpt F

module _ {F : Type 0} where
  -- The function that a MemOpt is.
  unfoldable pub apply_mem_opt : MemOpt F → MemRevoker F → Result (MemRevoker F)
  apply_mem_opt (with_key_extractor none) m = err (invalid_value ∷ [])
  apply_mem_opt (with_key_extractor (some fn)) m = ok (record m { key_fn = fn })
  apply_mem_opt (with_clock none) m = err (invalid_value ∷ [])
  apply_mem_opt (with_clock (some now)) m = ok (record m { clock = now })

  -- The loop over the options.
  unfoldable pub apply_mem_opts : List (MemOpt F) → MemRevoker F → Result (MemRevoker F)
  unfolding apply_mem_opt
  apply_mem_opts [] m = ok m
  apply_mem_opts (opt ∷ opts) m = apply_mem_opt opt m >>= apply_mem_opts opts

  -- revocation.NewMemRevoker
  unfoldable pub new_mem_revoker : Host F → List (MemOpt F) → Result (MemRevoker F)
  unfolding apply_mem_opts
  new_mem_revoker host opts =
      apply_mem_opts opts (record { revoked = []; key_fn = jti_extractor host; clock = λ t. t })

  -- (*MemRevoker).RevokeUntil
  unfoldable pub revoke_until : String → Time → MemRevoker F → MemRevoker F
  revoke_until key until m =
      if is_blank key then m else record m { revoked = insert key until m.revoked }

  -- (*MemRevoker).Revoke
  unfoldable pub revoke : String → MemRevoker F → MemRevoker F
  unfolding revoke_until
  revoke key m = revoke_until key zero_time m

  -- (*MemRevoker).Unrevoke
  unfoldable pub unrevoke : String → MemRevoker F → MemRevoker F
  unrevoke key m = record m { revoked = delete key m.revoked }

  -- (*MemRevoker).Len
  unfoldable pub len : MemRevoker F → ℕ
  len m = length m.revoked

-- The loop of Cleanup: the entries that stay, and how many it removed.
unfoldable pub sweep : Time → Dict Time → Dict Time × ℕ
sweep now [] = ([], 0)
sweep now ((k, until) ∷ m) =
    let rest = sweep now m in
    if not (is_zero until) && not (before now until)
    then (rest.0, rest.1 + 1)
    else ((k, until) ∷ rest.0, rest.1)

-- The end of Revoked, on what the map holds for the key.
abbrev pub entry_revoked : Time → Option Time → Bool
entry_revoked now none = false
entry_revoked now (some until) =
    if not (is_zero until) && not (before now until) then false else true

-- The body of the loop of Chain, on the answer of one revoker.
abbrev pub chain_step : Result Bool → Result Bool → Result Bool
chain_step (err e) rest = err (check ∷ e)
chain_step (ok true) rest = ok true
chain_step (ok false) rest = rest

module _ {F : Type 0} where
  -- (*MemRevoker).Cleanup, at the wall clock's reading `wall`
  unfoldable pub cleanup : Time → MemRevoker F → MemRevoker F × ℕ
  unfolding sweep
  cleanup wall m =
      let swept = sweep (m.clock wall) m.revoked in (record m { revoked = swept.0 }, swept.1)

  -- What Revoked answers about a key that was found.
  unfoldable pub key_revoked : MemRevoker F → Time → String → Bool
  key_revoked m wall key = entry_revoked (m.clock wall) (lookup key m.revoked)

  -- What Revoked answers, on what the extractor gives.
  abbrev pub found_revoked : MemRevoker F → Time → Option String → Bool
  found_revoked m wall none = false
  found_revoked m wall (some key) = key_revoked m wall key

  -- (*MemRevoker).Revoked
  unfoldable pub mem_revoked : MemRevoker F → Revoker F
  mem_revoked m ctx none = err (invalid_value ∷ [])
  mem_revoked m ctx (some token) = ok (found_revoked m ctx.now (m.key_fn token))

  -- revocation.Chain: nil entries are skipped.
  unfoldable pub chain : List (Option (Revoker F)) → Revoker F
  chain [] ctx token = ok false
  chain (none ∷ rs) ctx token = chain rs ctx token
  chain (some r ∷ rs) ctx token = chain_step (r ctx token) (chain rs ctx token)
