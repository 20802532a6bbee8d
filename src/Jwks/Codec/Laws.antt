-- ===== src/Jwks/Codec/Laws.antt =====
-- A public key that is published as a JWK is read back.
use mathlib.Core.Path.{subst}
use mathlib.Core.Option.{some-injective}
use jwtmint.Prelude.{
  none, some, ℕ, pos, ◌<◌, String, ◌≡◌, refl, ap, sym, false, List, [], ◌∷◌, ◌++◌, length, take,
  drop, drop-zero, take-append, drop-append, is_empty, arith,
}
use jwtmint.Errors.{ok, ◌>>=◌, >>=-eq-ok, ok-injective}
use jwtmint.Jwks.KeySet.{Jwk}
use jwtmint.Jwks.Codec.{
  Material, Curve, p256, p384, p521, other_curve, RsaKey, EcKey, CryptoKey, key_type_ec, use_sig,
  rsa_key, ec_key, ed25519_key, other_key, Encoding, byte_len, curve_from_name, name_from_curve,
  magnitude, rsa_public_from_jwk, ec_public_from_jwk, okp_public_from_jwk, public_key_from_jwk,
  jwk_from_rsa, jwk_from_ecdsa, jwk_from_ed25519, jwk_from_public_key,
}

-- What Go documents of these functions: decoding undoes encoding, SetBytes undoes Bytes, which is not
-- empty for a positive number, Int64 is the number where it fits, and an encoded point is the byte 4
-- and the coordinates, each of the curve's size.
pub record EncodingLaws (std : Encoding) : Type 0 where
  pub decode-encode : (b : List ℕ) → std.decode64 (std.encode64 b) ≡ ok b
  pub number-bytes : (n : ℕ) → std.number_of (std.bytes_of n) ≡ n
  pub bytes_some : (n : ℕ) → 0 < n → is_empty (std.bytes_of n) ≡ false
  pub int64_fits : (n : ℕ) → n < 9223372036854775808 → std.int64_of n ≡ pos n
  pub point_parts :
      (k : EcKey) (p : List ℕ)
      → std.point_of k ≡ ok p
      → (xs : List ℕ) × (ys : List ℕ) × (p ≡ 4 ∷ (xs ++ ys))
        × (length xs ≡ byte_len k.curve)
        × (length ys ≡ byte_len k.curve)
        × (std.number_of xs ≡ k.x)
        × (std.number_of ys ≡ k.y)

-- A key whose numbers a JWK can carry: positive for RSA, with an exponent of 63 bits, and of 32 bytes
-- for Ed25519. An ECDSA key is encoded only if it is valid.
abbrev pub Encodable : CryptoKey → Type 0
Encodable (rsa_key none) = Unit
Encodable (rsa_key (some k)) =
    (0 < k.modulus)
    × (0 < magnitude k.exponent)
    × (k.exponent ≡ pos (magnitude k.exponent))
    × (magnitude k.exponent < 9223372036854775808)
Encodable (ec_key o) = Unit
Encodable (ed25519_key b) = length b ≡ 32
Encodable other_key = Unit

curve_from_name-name_from_curve :
    (c : Curve) (name : String) → name_from_curve c ≡ ok name → curve_from_name name ≡ ok c
unfolding name_from_curve curve_from_name
curve_from_name-name_from_curve p256 name h = rw (← ok-injective h) refl
curve_from_name-name_from_curve p384 name h = rw (← ok-injective h) refl
curve_from_name-name_from_curve p521 name h = rw (← ok-injective h) refl
curve_from_name-name_from_curve other_curve name h = cc

byte_len_pos : (c : Curve) (name : String) → name_from_curve c ≡ ok name → 0 < byte_len c
unfolding name_from_curve
byte_len_pos p256 name h = omega arith
byte_len_pos p384 name h = omega arith
byte_len_pos p521 name h = omega arith
byte_len_pos other_curve name h = cc

is_empty-length : (l : List ℕ) → 0 < length l → is_empty l ≡ false
is_empty-length [] h = absurd (omega arith)
is_empty-length (x ∷ l) h = refl

module _ (std : Encoding) (laws : EncodingLaws std) where
  rsa_round :
      (k : RsaKey) (kid : String)
      → Encodable (rsa_key (some k))
      → rsa_public_from_jwk std (jwk_from_rsa std k kid).material ≡ ok k
  unfolding rsa_public_from_jwk jwk_from_rsa
  rsa_round k kid (n_pos, e_pos, e_val, fits) =
      let size = magnitude k.exponent in
      rw
        (
          laws.decode-encode (std.bytes_of k.modulus),
          laws.decode-encode (std.bytes_of size),
          laws.bytes_some k.modulus n_pos,
          laws.bytes_some size e_pos,
          laws.number-bytes k.modulus,
          laws.number-bytes size,
          laws.int64_fits size fits,
        )
        (ap (λ e. ok (record { modulus = k.modulus; exponent = e })) (sym e_val))

  ed25519_round :
      (b : List ℕ) (kid : String)
      → length b ≡ 32
      → okp_public_from_jwk std (jwk_from_ed25519 std b kid).material ≡ ok b
  unfolding okp_public_from_jwk jwk_from_ed25519
  ed25519_round b kid h = rw (laws.decode-encode b, h) refl

  ec_decoded :
      (k : EcKey) (name : String) (xs ys : List ℕ)
      → name_from_curve k.curve ≡ ok name
      → is_empty xs ≡ false
      → is_empty ys ≡ false
      → std.number_of xs ≡ k.x
      → std.number_of ys ≡ k.y
      → ec_public_from_jwk std (record {
        kty = key_type_ec;
        key_use = use_sig;
        alg = "";
        n = "";
        e = "";
        crv = name;
        x = std.encode64 xs;
        y = std.encode64 ys;
      })
        ≡ ok k
  unfolding ec_public_from_jwk
  ec_decoded k name xs ys named some_x some_y is_x is_y =
      rw
        (
          curve_from_name-name_from_curve k.curve name named,
          laws.decode-encode xs,
          laws.decode-encode ys,
          some_x,
          some_y,
          is_x,
          is_y,
        )
        refl

  ec_round :
      (k : EcKey) (kid : String) (j : Jwk Material)
      → jwk_from_ecdsa std k kid ≡ ok j
      → (j.kid ≡ kid) × (j.material.kty ≡ key_type_ec) × (ec_public_from_jwk std j.material ≡ ok k)
  unfolding jwk_from_ecdsa
  ec_round k kid j h =
      let (name, named, rest) = >>=-eq-ok (name_from_curve k.curve) _ h in
      let (point, pointed, made) = >>=-eq-ok (std.point_of k) _ rest in
      let (xs, ys, split, size_x, size_y, is_x, is_y) = laws.point_parts k point pointed in
      let len = byte_len k.curve in
      let size = byte_len_pos k.curve name named in
      let front : take (drop point 1) len ≡ xs =
        rw (split, drop-zero (xs ++ ys)) (take-append xs ys len size_x) in
      let back : drop (drop point 1) len ≡ ys =
        rw (split, drop-zero (xs ++ ys)) (drop-append xs ys len size_x) in
      let some_x = is_empty-length xs (omega arith) in
      let some_y = is_empty-length ys (omega arith) in
      let back_again = ec_decoded k name xs ys named some_x some_y is_x is_y in
      subst
        (λ i.
          (i.kid ≡ kid)
          × (i.material.kty ≡ key_type_ec)
          × (ec_public_from_jwk std i.material ≡ ok k))
        (ok-injective made) (refl, refl, rw (front, back) back_again)

  -- If Go's encodings are undone by their decodings, then PublicKeyFromJWK reads back the key
  -- that JWKFromPublicKey encoded under a kid, and the JWK has that kid, for an RSA key with a
  -- positive modulus and a positive exponent of 63 bits, an Ed25519 key of 32 bytes, and every
  -- ECDSA key that is encoded.
  pub public_key_from_jwk-jwk_from_public_key :
      (k : CryptoKey) (kid : String) (j : Jwk Material)
      → Encodable k
      → jwk_from_public_key std k kid ≡ some (ok j)
      → (j.kid ≡ kid) × (public_key_from_jwk std j ≡ ok k)
  unfolding jwk_from_public_key public_key_from_jwk jwk_from_rsa jwk_from_ed25519
  public_key_from_jwk-jwk_from_public_key (rsa_key none) kid j fits h = cc
  public_key_from_jwk-jwk_from_public_key (rsa_key (some k)) kid j fits h =
      subst (λ i. (i.kid ≡ kid) × (public_key_from_jwk std i ≡ ok (rsa_key (some k))))
        (ok-injective (some-injective _ _ h))
        (refl, ap (λ r. r >>= λ out. ok (rsa_key (some out))) (rsa_round k kid fits))
  public_key_from_jwk-jwk_from_public_key (ec_key none) kid j fits h = cc
  public_key_from_jwk-jwk_from_public_key (ec_key (some k)) kid j fits h =
      let (same, kty, read) = ec_round k kid j (some-injective _ _ h) in (same, rw (kty, read) refl)
  public_key_from_jwk-jwk_from_public_key (ed25519_key b) kid j fits h =
      subst (λ i. (i.kid ≡ kid) × (public_key_from_jwk std i ≡ ok (ed25519_key b)))
        (ok-injective (some-injective _ _ h))
        (refl, ap (λ r. r >>= λ out. ok (ed25519_key out)) (ed25519_round b kid fits))
  public_key_from_jwk-jwk_from_public_key other_key kid j fits h = cc
