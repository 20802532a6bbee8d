-- ===== src/Examples/Issuing.antt =====
-- A signer and a refresher on concrete claims.
use jwtmint.Prelude.{ℕ, ℤ, pos, eqb, ◌≡◌, ◌↔◌, refl, true, false, none, some, List, [], ◌∷◌}
use jwtmint.Errors.{Result, ok, err, sign as errors_sign}
use jwtmint.Dict.{Dict, lookup, has, insert, overlay}
use jwtmint.Time.{Time, seconds, plus, minus}
use jwtmint.Claims.Value.{Value, str, strs, date_ptr, Claims}
use jwtmint.Claims.Copy.{map_claims, deep_copy, json_claims, json_value}
use jwtmint.Claims.Read.{read_string, read_time}
use jwtmint.Claims.Registered.{
  id, set_id, issuer, set_issuer, issued_at, set_issued_at, expires_at, set_expires_at, not_before,
  set_not_before,
}
use jwtmint.Token.{Token}
use jwtmint.Keys.{Crypto, key_func, validate_ecdsa_method_and_key}
use jwtmint.Signing.Method.{signing_method, key_fits, validate_method_and_key}
use jwtmint.Signing.Method.Laws.{Asymmetric, signing_method_iff}
use jwtmint.Signing.Mint.{World, set_headers, fill_claims, sign_with, default_expiration}
use jwtmint.Signing.Signer.{
  Signer, Opt, with_default_issuer, apply_opt, apply_opts, new_signer, merge_headers, merged_claims,
  sign,
}
use jwtmint.Signing.Signer.Laws.{Issued, new_signer-Issued}
use jwtmint.Refresh.{MapParser, Refresher, Config, refresher}
use jwtmint.Refresh
use jwtmint.Verification.Base.{ParserConfig}
use jwtmint.Examples.{host, es256, public_key, private_key, now, ctx, claims, parser}

abbrev pub world : World ℤ
world = record {
  now = now;
  fresh_uuid = "u-1";
  new_with_claims = λ m c. record {
    method = m;
    header = ("typ", str "JWT") ∷ ("alg", str m.alg) ∷ [];
    claims = map_claims c;
  };
  signed_string = λ key t. some "x.y.z";
}

abbrev signer_opts : List (Opt ℤ)
signer_opts = with_default_issuer "mint" ∷ []

abbrev signer : Signer ℤ
signer = record {
  method = es256;
  signing_key = private_key;
  static_headers = [];
  static_claims = [];
  expiration = default_expiration;
  issuer = "mint";
  typ = "JWT";
}

signer_made : new_signer (some es256) (some private_key) signer_opts ≡ ok signer
unfolding new_signer validate_method_and_key key_fits validate_ecdsa_method_and_key apply_opts
    apply_opt
signer_made = refl

abbrev given : Claims ℤ
given = ("sub", str "alice") ∷ []

abbrev headers : Dict (Value ℤ)
headers = ("kid", str "k1") ∷ []

abbrev issued : Token ℤ
issued = record {
  method = es256;
  header = ("typ", str "JWT") ∷ ("alg", str "ES256") ∷ ("kid", str "k1") ∷ [];
  claims = map_claims (
      ("sub", str "alice")
      ∷ ("exp", date_ptr (some (plus now default_expiration)))
      ∷ ("iat", date_ptr (some (seconds 1000)))
      ∷ ("nbf", date_ptr (some (seconds 1000)))
      ∷ ("iss", str "mint")
      ∷ ("jti", str "u-1")
      ∷ []);
}

signer_signs : sign host world signer ctx given headers ≡ ok ("x.y.z", issued)
unfolding sign merge_headers merged_claims sign_with fill_claims set_headers deep_copy json_claims
    json_value has lookup insert overlay expires_at issued_at not_before issuer id read_time
    read_string set_expires_at set_issued_at set_not_before set_issuer set_id
signer_signs = refl

new_signer-Issued_example : Issued host world es256 private_key signer given headers "x.y.z" issued
new_signer-Issued_example =
    new_signer-Issued host world es256 private_key signer_opts signer ctx given headers "x.y.z"
      issued signer_made signer_signs

signing_method_iff_example : (signing_method "ES256" ≡ ok es256) ↔ Asymmetric "ES256" es256
signing_method_iff_example = signing_method_iff "ES256" es256

-- Signatures that name the key.
abbrev pub crypto : Crypto
crypto = record {
  ecdsa_sign = λ k. some k.1;
  ecdsa_verify = λ p s. eqb p s;
  rsa_sign = λ k. some k;
  rsa_verify = λ p s. eqb p s;
  ed25519_sign = λ k. 0;
  ed25519_verify = λ p s. true;
}

abbrev with_claims : Result (Token ℤ) → Result (Token ℤ × Claims ℤ)
with_claims (err e) = err e
with_claims (ok t) = ok (t, claims)

abbrev bare : ParserConfig
bare = record { valid_methods = []; leeway = none; claims_validation = false }

abbrev pub map_parser : MapParser ℤ
map_parser t kf = with_claims (parser bare now t kf)

abbrev cfg : Config ℤ
cfg = record { default_exp = seconds 3600; max_age = seconds 500; resolver = none }

abbrev rotate : Refresher ℤ
rotate = refresher host world es256 map_parser (key_func "ES256" public_key) private_key cfg

-- A time by its seconds.
abbrev at : ℕ → Time
at n = host.unix (pos n) (pos 0)

abbrev rotated : Token ℤ
rotated = record {
  method = es256;
  header = ("typ", str "JWT") ∷ ("alg", str "ES256") ∷ [];
  claims = map_claims (
      ("sub", str "alice")
      ∷ ("jti", str "t-1")
      ∷ ("aud", strs ("api" ∷ "web" ∷ []))
      ∷ ("exp", date_ptr (some (plus now (minus (at 2000) (at 900)))))
      ∷ ("iat", date_ptr (some now))
      ∷ ("nbf", date_ptr (some now))
      ∷ []);
}
