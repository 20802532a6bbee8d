-- ===== src/Keys.antt =====
-- Package keys (keys/): the key function of a verifier, and the validation of keys. The generation,
-- the PEM files and the crypto primitives are not modelled; the latter are an argument.
pub mod Laws
use jwtmint.Prelude.{
  ℕ, String, Bool, true, false, Option, none, some, List, [], ◌∷◌, ◌==◌, eqb, not, length,
  if◌then◌else◌,
}
use jwtmint.Text.{is_blank}
use jwtmint.Errors.{
  Result, ok, err, Verdict, invalid_value, invalid_type, invalid_method, invalid_size, sign,
  invalid_key_pair,
}
use jwtmint.Token.{
  Family, ecdsa, rsa, rsa_pss, ed25519, hmac, unknown, Method, PublicKey, ecdsa_public, rsa_public,
  ed25519_public, other_public, PrivateKey, ecdsa_private, rsa_private, ed25519_private,
  other_private, Token, Keyfunc,
}

-- The type switches on the public key: is it one of the three supported types?
unfoldable pub is_supported_key : PublicKey → Bool
is_supported_key other_public = false
is_supported_key _ = true

-- The type switch on a token's method.
unfoldable pub is_supported_family : Family → Bool
is_supported_family hmac = false
is_supported_family unknown = false
is_supported_family _ = true

module _ {F : Type 0} where
  -- The function that PublicKeyFunc returns.
  unfoldable pub key_func : String → PublicKey → Keyfunc F
  unfolding is_supported_family
  key_func expected public_key token =
      let got = token.method.alg in
      if is_blank got
      then err (invalid_value ∷ [])
      else if is_supported_family token.method.family
      then (if got == expected then ok public_key else err (invalid_method ∷ []))
      else err (invalid_method ∷ [])

  -- keys.PublicKeyFunc
  unfoldable pub public_key_func : Option Method → Option PublicKey → Result (Keyfunc F)
  unfolding is_supported_key
  public_key_func none public_key = err (invalid_value ∷ [])
  public_key_func (some method) none = err (invalid_value ∷ [])
  public_key_func (some method) (some public_key) =
      if is_blank method.alg
      then err (invalid_value ∷ [])
      else if is_supported_key public_key
      then ok (key_func method.alg public_key)
      else err (invalid_type ∷ [])

-- The crypto primitives on a fixed message: the signature of a private key (none on an error), and
-- whether a public key accepts it.
pub record Crypto : Type 0 where
  pub ecdsa_sign : ℕ × ℕ → Option ℕ
  pub ecdsa_verify : ℕ → ℕ → Bool
  pub rsa_sign : ℕ → Option ℕ
  pub rsa_verify : ℕ → ℕ → Bool
  pub ed25519_sign : List ℕ → ℕ
  pub ed25519_verify : List ℕ → ℕ → Bool

module _ (crypto : Crypto) where
  -- The end of the validation: the signature, and the public key's word on it.
  abbrev pub accepts : (ℕ → Bool) → Option ℕ → Verdict
  accepts verify none = some (sign ∷ [])
  accepts verify (some sig) = if verify sig then none else some (invalid_key_pair ∷ [])

  -- keys.ValidateECDSAPair
  unfoldable pub validate_ecdsa_pair : Option ℕ → Option (ℕ × ℕ) → Verdict
  validate_ecdsa_pair none priv = some (invalid_value ∷ [])
  validate_ecdsa_pair (some pub_key) none = some (invalid_value ∷ [])
  validate_ecdsa_pair (some pub_key) (some priv) =
      accepts (crypto.ecdsa_verify pub_key) (crypto.ecdsa_sign priv)

  -- keys.ValidateRSAPair
  unfoldable pub validate_rsa_pair : Option ℕ → Option ℕ → Verdict
  validate_rsa_pair none priv = some (invalid_value ∷ [])
  validate_rsa_pair (some pub_key) none = some (invalid_value ∷ [])
  validate_rsa_pair (some pub_key) (some priv) =
      accepts (crypto.rsa_verify pub_key) (crypto.rsa_sign priv)

  -- keys.ValidateEd25519Pair: the public key has 32 bytes, the private key 64.
  unfoldable pub validate_ed25519_pair : List ℕ → List ℕ → Verdict
  validate_ed25519_pair pub_key priv =
      if not (eqb (length pub_key) 32)
      then some (invalid_size ∷ [])
      else if not (eqb (length priv) 64)
      then some (invalid_size ∷ [])
      else if crypto.ed25519_verify pub_key (crypto.ed25519_sign priv)
      then none
      else some (invalid_key_pair ∷ [])

  -- keys.ValidatePair
  unfoldable pub validate_pair : Option PublicKey → Option PrivateKey → Verdict
  unfolding validate_ecdsa_pair validate_rsa_pair validate_ed25519_pair
  validate_pair (some (ecdsa_public p)) (some (ecdsa_private k)) = validate_ecdsa_pair p k
  validate_pair (some (rsa_public p)) (some (rsa_private k)) = validate_rsa_pair p k
  validate_pair (some (ed25519_public p)) (some (ed25519_private k)) = validate_ed25519_pair p k
  validate_pair _ _ = some (invalid_type ∷ [])

-- keys.ValidateECDSAMethodAndKey
unfoldable pub validate_ecdsa_method_and_key : Option Method → Option (ℕ × ℕ) → Verdict
validate_ecdsa_method_and_key none key = some (invalid_value ∷ [])
validate_ecdsa_method_and_key (some method) none = some (invalid_value ∷ [])
validate_ecdsa_method_and_key (some method) (some key) = elim (method.family) [
  | ecdsa ↦ if eqb method.curve_bits key.0 then none else some (invalid_size ∷ [])
  | _ ↦ some (invalid_method ∷ [])
]
