-- ===== src/Signing/Method.antt =====
-- signing/method.go: the methods by name, and the check of a key against a method.
pub mod Laws
use jwtmint.Prelude.{
  ℕ, String, Bool, Option, none, some, List, [], ◌∷◌, ◌==◌, if◌then◌else◌, contains,
}
use jwtmint.Text.{is_blank}
use jwtmint.Errors.{Result, ok, err, Verdict, invalid_value, invalid_type, invalid_method}
use jwtmint.Token.{
  Family, ecdsa, rsa, rsa_pss, ed25519, hmac, unknown, Method, PrivateKey, ecdsa_private,
  rsa_private, ed25519_private, other_private,
}
use jwtmint.Keys.{validate_ecdsa_method_and_key}

-- A method of golang-jwt by its family, its name, and the size of its curve.
abbrev pub method_of : Family → String → ℕ → Method
method_of family alg curve_bits = record { family = family; alg = alg; curve_bits = curve_bits }

-- jwt.SigningMethodES256 and the others of golang-jwt that the package names.
abbrev pub es256 : Method
es256 = method_of ecdsa "ES256" 256

abbrev pub es384 : Method
es384 = method_of ecdsa "ES384" 384

abbrev pub es512 : Method
es512 = method_of ecdsa "ES512" 521

abbrev pub rs256 : Method
rs256 = method_of rsa "RS256" 0

abbrev pub rs384 : Method
rs384 = method_of rsa "RS384" 0

abbrev pub rs512 : Method
rs512 = method_of rsa "RS512" 0

abbrev pub ps256 : Method
ps256 = method_of rsa_pss "PS256" 0

abbrev pub ps384 : Method
ps384 = method_of rsa_pss "PS384" 0

abbrev pub ps512 : Method
ps512 = method_of rsa_pss "PS512" 0

abbrev pub ed_dsa : Method
ed_dsa = method_of ed25519 "EdDSA" 0

-- signing.SigningMethod: the switch, whose case for HMAC and whose default fail alike.
unfoldable pub signing_method : String → Result Method
signing_method alg =
    if is_blank alg
    then err (invalid_method ∷ [])
    else if alg == es256.alg
    then ok es256
    else if alg == es384.alg
    then ok es384
    else if alg == es512.alg
    then ok es512
    else if alg == rs256.alg
    then ok rs256
    else if alg == rs384.alg
    then ok rs384
    else if alg == rs512.alg
    then ok rs512
    else if alg == ps256.alg
    then ok ps256
    else if alg == ps384.alg
    then ok ps384
    else if alg == ps512.alg
    then ok ps512
    else if alg == ed_dsa.alg
    then ok ed_dsa
    else err (invalid_method ∷ [])

-- The type switch of validateMethodAndKey.
unfoldable pub key_fits : Family → Method → PrivateKey → Verdict
key_fits ecdsa method (ecdsa_private key) = validate_ecdsa_method_and_key (some method) key
key_fits rsa method (rsa_private key) = none
key_fits rsa_pss method (rsa_private key) = none
key_fits ed25519 method (ed25519_private key) = none
key_fits hmac method key = some (invalid_method ∷ [])
key_fits unknown method key = some (invalid_method ∷ [])
key_fits _ method key = some (invalid_type ∷ [])

-- signing.validateMethodAndKey
unfoldable pub validate_method_and_key : Option Method → Option PrivateKey → Verdict
unfolding key_fits
validate_method_and_key none key = some (invalid_value ∷ [])
validate_method_and_key (some method) none = some (invalid_value ∷ [])
validate_method_and_key (some method) (some key) =
    if is_blank method.alg then some (invalid_value ∷ []) else key_fits method.family method key
