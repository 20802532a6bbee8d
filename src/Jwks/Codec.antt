-- ===== src/Jwks/Codec.antt =====
-- jwks/jwk.go: JSON Web Keys and the public keys that they carry. Base64, big.Int and the encoding of a
-- point are Go's and enter as arguments.
pub mod Laws
use jwtmint.Prelude.{
  ℕ, ℤ, pos, negsuc, suc, ◌+◌, ◌/◌, String, Bool, true, false, Option, none, some, List, [], ◌∷◌,
  ◌==◌, ◌||◌, eqb, length, take, drop, is_empty, if◌then◌else◌,
}
use jwtmint.Errors.{
  Result, ok, err, ◌>>=◌, map_err, decode, invalid_value, invalid_type, invalid_size,
}
use jwtmint.Jwks.KeySet.{Jwk}

-- jwks.KeyTypeRSA, jwks.KeyTypeEC, jwks.KeyTypeOKP
abbrev pub key_type_rsa : String
key_type_rsa = "RSA"

abbrev pub key_type_ec : String
key_type_ec = "EC"

abbrev pub key_type_okp : String
key_type_okp = "OKP"

-- jwks.CurveP256, jwks.CurveP384, jwks.CurveP521, jwks.CurveEd25519
abbrev pub curve_p256 : String
curve_p256 = "P-256"

abbrev pub curve_p384 : String
curve_p384 = "P-384"

abbrev pub curve_p521 : String
curve_p521 = "P-521"

abbrev pub curve_ed25519 : String
curve_ed25519 = "Ed25519"

-- jwks.UseSig
abbrev pub use_sig : String
use_sig = "sig"

-- The fields of jwks.JWK besides its kid.
pub record Material : Type 0 where
  pub kty : String
  pub key_use : String
  pub alg : String
  pub n : String
  pub e : String
  pub crv : String
  pub x : String
  pub y : String

-- An elliptic.Curve: the three that the package knows, by what P256() and the like return.
pub data Curve : Type 0 where
  p256 p384 p521 other_curve : Curve

-- *rsa.PublicKey, *ecdsa.PublicKey
pub record RsaKey : Type 0 where
  pub modulus : ℕ
  pub exponent : ℤ

pub record EcKey : Type 0 where
  pub curve : Curve
  pub x : ℕ
  pub y : ℕ

-- A public key in an `any`, with its numbers. An RSA or ECDSA key is a pointer, perhaps nil; an
-- ed25519.PublicKey is its bytes.
pub data CryptoKey : Type 0 where
  rsa_key : Option RsaKey → CryptoKey
  ec_key : Option EcKey → CryptoKey
  ed25519_key : List ℕ → CryptoKey
  other_key : CryptoKey

-- A result that may also be a panic, which is `none`.
abbrev pub Panicking : Type 0 → Type 0
Panicking A = Option (Result A)

-- What the package calls of Go's standard library.
pub record Encoding : Type 0 where
  -- base64.RawURLEncoding: EncodeToString, DecodeString
  pub encode64 : List ℕ → String
  pub decode64 : String → Result (List ℕ)
  -- (*big.Int).Bytes of a number that is not negative, new(big.Int).SetBytes
  pub bytes_of : ℕ → List ℕ
  pub number_of : List ℕ → ℕ
  -- (*big.Int).Int64 of a number that is not negative
  pub int64_of : ℕ → ℤ
  -- (*ecdsa.PublicKey).Bytes
  pub point_of : EcKey → Result (List ℕ)

-- jwks.curveFromName
unfoldable pub curve_from_name : String → Result Curve
curve_from_name name =
    if name == curve_p256
    then ok p256
    else if name == curve_p384
    then ok p384
    else if name == curve_p521
    then ok p521
    else err (invalid_value ∷ [])

-- jwks.nameFromCurve
unfoldable pub name_from_curve : Curve → Result String
name_from_curve p256 = ok curve_p256
name_from_curve p384 = ok curve_p384
name_from_curve p521 = ok curve_p521
name_from_curve other_curve = err (invalid_value ∷ [])

-- `k.Curve.Params().BitSize` of the curves that nameFromCurve accepts.
abbrev pub bit_size : Curve → ℕ
bit_size p256 = 256
bit_size p384 = 384
bit_size p521 = 521
bit_size other_curve = 0

abbrev pub byte_len : Curve → ℕ
byte_len c = (bit_size c + 7) / 8

-- The size of an integer without its sign, which (*big.Int).Bytes encodes.
abbrev pub magnitude : ℤ → ℕ
magnitude (pos n) = n
magnitude (negsuc n) = suc n

module _ (std : Encoding) where
  abbrev pub decoded : String → Result (List ℕ)
  decoded s = map_err (λ e. decode ∷ e) (std.decode64 s)

  -- jwks.rsaPublicFromJWK
  unfoldable pub rsa_public_from_jwk : Material → Result RsaKey
  rsa_public_from_jwk j = decoded j.n >>= λ n_bytes. decoded j.e >>= λ e_bytes.
      if is_empty n_bytes || is_empty e_bytes
      then err (invalid_value ∷ [])
      else ok (record {
        modulus = std.number_of n_bytes;
        exponent = std.int64_of (std.number_of e_bytes);
      })

  -- jwks.ecPublicFromJWK
  unfoldable pub ec_public_from_jwk : Material → Result EcKey
  unfolding curve_from_name
  ec_public_from_jwk j = curve_from_name j.crv >>= λ curve. decoded j.x >>= λ x.
      decoded j.y >>= λ y.
      if is_empty x || is_empty y
      then err (invalid_value ∷ [])
      else ok (record { curve = curve; x = std.number_of x; y = std.number_of y })

  -- jwks.okpPublicFromJWK
  unfoldable pub okp_public_from_jwk : Material → Result (List ℕ)
  okp_public_from_jwk j =
      if j.crv == curve_ed25519
      then (decoded j.x >>= λ x. if eqb (length x) 32 then ok x else err (invalid_size ∷ []))
      else err (invalid_value ∷ [])

  -- jwks.PublicKeyFromJWK
  unfoldable pub public_key_from_jwk : Jwk Material → Result CryptoKey
  unfolding rsa_public_from_jwk ec_public_from_jwk okp_public_from_jwk
  public_key_from_jwk j =
      if j.material.kty == key_type_rsa
      then (rsa_public_from_jwk j.material >>= λ k. ok (rsa_key (some k)))
      else if j.material.kty == key_type_ec
      then (ec_public_from_jwk j.material >>= λ k. ok (ec_key (some k)))
      else if j.material.kty == key_type_okp
      then (okp_public_from_jwk j.material >>= λ k. ok (ed25519_key k))
      else err (invalid_value ∷ [])

  -- jwks.jwkFromRSA
  unfoldable pub jwk_from_rsa : RsaKey → String → Jwk Material
  jwk_from_rsa k kid = record {
    kid = kid;
    material = record {
      kty = key_type_rsa;
      key_use = use_sig;
      alg = "";
      n = std.encode64 (std.bytes_of k.modulus);
      e = std.encode64 (std.bytes_of (magnitude k.exponent));
      crv = "";
      x = "";
      y = "";
    };
  }

  -- jwks.jwkFromECDSA. A point that is shorter than its two coordinates would panic in the source;
  -- here the slices end with it.
  unfoldable pub jwk_from_ecdsa : EcKey → String → Result (Jwk Material)
  unfolding name_from_curve
  jwk_from_ecdsa k kid = name_from_curve k.curve >>= λ crv. std.point_of k >>= λ point. ok (record {
    kid = kid;
    material = record {
      kty = key_type_ec;
      key_use = use_sig;
      alg = "";
      n = "";
      e = "";
      crv = crv;
      x = std.encode64 (take (drop point 1) (byte_len k.curve));
      y = std.encode64 (drop (drop point 1) (byte_len k.curve));
    };
  })

  -- jwks.jwkFromEd25519
  unfoldable pub jwk_from_ed25519 : List ℕ → String → Jwk Material
  jwk_from_ed25519 k kid = record {
    kid = kid;
    material = record {
      kty = key_type_okp;
      key_use = use_sig;
      alg = "EdDSA";
      n = "";
      e = "";
      crv = curve_ed25519;
      x = std.encode64 k;
      y = "";
    };
  }

  -- jwks.JWKFromPublicKey; a nil pointer passes its type switch and panics behind it.
  unfoldable pub jwk_from_public_key : CryptoKey → String → Panicking (Jwk Material)
  unfolding jwk_from_rsa jwk_from_ecdsa jwk_from_ed25519
  jwk_from_public_key (rsa_key none) kid = none
  jwk_from_public_key (rsa_key (some k)) kid = some (ok (jwk_from_rsa k kid))
  jwk_from_public_key (ec_key none) kid = none
  jwk_from_public_key (ec_key (some k)) kid = some (jwk_from_ecdsa k kid)
  jwk_from_public_key (ed25519_key k) kid = some (ok (jwk_from_ed25519 k kid))
  jwk_from_public_key other_key kid = some (err (invalid_type ∷ []))
