-- ===== src/Token.antt =====
-- The types of golang-jwt and of Go's crypto packages that the source handles, as far as it looks
-- into them. A nil interface is `none`.
use jwtmint.Prelude.{ℕ, String, Option, List}
use jwtmint.Errors.{Result}
use jwtmint.Dict.{Dict}
use jwtmint.Claims.Value.{Value}
use jwtmint.Claims.Copy.{Source}

-- The dynamic type of a jwt.SigningMethod.
pub data Family : Type 0 where
  ecdsa rsa rsa_pss ed25519 hmac unknown : Family

-- A jwt.SigningMethod: `alg` is its Alg(), `curve_bits` is the field of *jwt.SigningMethodECDSA.
pub record Method : Type 0 where
  pub family : Family
  pub alg : String
  pub curve_bits : ℕ

-- A public key in an `any`: *ecdsa.PublicKey, *rsa.PublicKey (each perhaps a nil pointer),
-- ed25519.PublicKey by its bytes, or a value of another type. The key's numbers are one number.
pub data PublicKey : Type 0 where
  ecdsa_public : Option ℕ → PublicKey
  rsa_public : Option ℕ → PublicKey
  ed25519_public : List ℕ → PublicKey
  other_public : PublicKey

-- A private key in an `any`. An ECDSA key has its curve's bit size and its number.
pub data PrivateKey : Type 0 where
  ecdsa_private : Option (ℕ × ℕ) → PrivateKey
  rsa_private : Option ℕ → PrivateKey
  ed25519_private : List ℕ → PrivateKey
  other_private : PrivateKey

-- A *jwt.Token
pub record Token (F : Type 0) : Type 0 where
  pub method : Method
  pub header : Dict (Value F)
  pub claims : Source F

-- jwt.Keyfunc
abbrev pub Keyfunc : Type 0 → Type 0
Keyfunc F = Token F → Result PublicKey
