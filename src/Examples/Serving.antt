-- ===== src/Examples/Serving.antt =====
-- A server on a concrete configuration, and the encoding of its keys.
use Prim.Native.Char.{code}
use mathlib.Core.Path.{subst}
use mathlib.Core.Option.{some-injective}
use jwtmint.Prelude.{
  All, ◌+ℤ◌, ℕ, zero, suc, ◌+◌, ℤ, pos, String, ◌≡◌, ◌≢◌, refl, ap, ◌∙◌, true, false, Option, none,
  some, List, [], ◌∷◌, ◌++◌, inl, eqb, arith, length, if◌then◌else◌,
}
use jwtmint.Text.{trim_space, trim_left, trim_right, strip_prefix, is_blank}
use jwtmint.Errors.{Result, ok, err}
use jwtmint.Dict.{lookup, has, insert, overlay}
use jwtmint.Dict.Laws.{or_else}
use jwtmint.Time.{seconds}
use jwtmint.Claims.Value.{str, Claims}
use jwtmint.Claims.Copy.{to_map_claims}
use jwtmint.Token.{
  Token, Method, PublicKey, ecdsa_public, rsa_public, ed25519_public, other_public, PrivateKey,
}
use jwtmint.Jwks.Codec.{
  Material, Curve, p256, p384, p521, other_curve, CryptoKey, rsa_key, ec_key, other_key, Encoding,
  byte_len, jwk_from_public_key, public_key_from_jwk,
}
use jwtmint.Jwks.Codec.Laws.{EncodingLaws, Encodable, public_key_from_jwk-jwk_from_public_key}
use jwtmint.Jwks.KeySet.{Jwk, KeySet, from_jwks, lookup_key}
use jwtmint.Auth.HttpAuth.{Request}
use jwtmint.Claims.Copy.{deep_copy, json_claims, json_value}
use jwtmint.Claims.Read.{read_string, read_time, time_of}
use jwtmint.Claims.Timestamp.{timestamp}
use jwtmint.Claims.Registered.{
  id, set_id, issuer, set_issuer, issued_at, set_issued_at, expires_at, set_expires_at, not_before,
  set_not_before,
}
use jwtmint.Keys.{
  validate_pair, validate_ecdsa_pair, public_key_func, key_func, is_supported_key,
  is_supported_family, validate_ecdsa_method_and_key,
}
use jwtmint.Verification.Base.{verify, build_parser, run_checks, run_list}
use jwtmint.Verification.Options.{apply_opts, apply_all}
use jwtmint.Verification.Single.{new_verifier}
use jwtmint.Signing.Method.{validate_method_and_key, key_fits}
use jwtmint.Signing.Mint.{sign_with, fill_claims, set_headers}
use jwtmint.Signing.Signer
use jwtmint.Signing.Signer.{Signer, new_signer, merge_headers, merged_claims, sign}
use jwtmint.Signing.Signer.Laws.{Issued}
use jwtmint.Refresh
use jwtmint.Refresh.{new_refresher, refresher}
use jwtmint.Auth.HttpAuth.{get_header}
use jwtmint.Server.Reply.{SignRequest, sign_response, verify_response, Reply, write}
use jwtmint.Server.Callers.{static_bearer_authenticator}
use jwtmint.Server.Handlers.{Clock}
use jwtmint.Server.Build.{
  entries, Config, with_defaults, signer_opts, refresher_opts, build_verifier, primary_entry,
  build_jwks, authenticator,
}
use jwtmint.Server.Build.Laws.{Verified}
use jwtmint.Server.Start.{
  Server, Libraries, build_parts, prepare, new, post_verify, post_sign, routes,
}
use jwtmint.Server.Start.Verifying.{post_verify_sound}
use jwtmint.Server.Handlers.Laws.{Lasting, ReportedExpiry}
use jwtmint.Server.Start.Issuing.{AuthorizedBy, post_sign_sound}
use jwtmint.Server.Start.Publishing.{Publishes, jwks_set_sound}
use jwtmint.Server.Start.Panics.{NotNil, KeyNotNil, new-total}
use jwtmint.Examples.Guarding.{verifier}
use jwtmint.Examples.{
  host, es256, public_key, private_key, ctx, claims, text, token, Signed, parser, parser-ParserLaws,
}
use jwtmint.Examples.Issuing.{world, crypto, map_parser}

-- A number as so many a's and a b, and back.
unary : ℕ → String → String
unary zero rest = String.◌∷◌ "b" rest
unary (suc n) rest = String.◌∷◌ "a" (unary n rest)

encoded : List ℕ → String
unfolding unary
encoded [] = ""
encoded (n ∷ l) = unary n (encoded l)

read_on : ℕ → String → List ℕ
read_on acc String.[] = []
read_on acc (String.◌∷◌ c s) =
    let more = read_on (suc acc) s in
    let rest = acc ∷ read_on 0 s in if eqb (code c) b'a' then more else rest

read_on-unary :
    (acc n : ℕ) (rest : String) → read_on acc (unary n rest) ≡ (acc + n) ∷ read_on 0 rest
unfolding read_on unary
read_on-unary acc zero rest = ap (λ m. m ∷ read_on 0 rest) (omega arith)
read_on-unary acc (suc n) rest =
    read_on-unary (suc acc) n rest ∙ ap (λ m. m ∷ read_on 0 rest) (omega arith)

read_on-encoded : (l : List ℕ) → read_on 0 (encoded l) ≡ l
unfolding encoded read_on
read_on-encoded [] = refl
read_on-encoded (n ∷ l) =
    read_on-unary 0 n (encoded l)
    ∙ ap (λ r. (0 + n) ∷ r) (read_on-encoded l)
    ∙ ap (λ m. m ∷ l) (omega arith)

abbrev first_of : List ℕ → ℕ
first_of [] = 0
first_of (n ∷ l) = n

abbrev zeros : ℕ → List ℕ
zeros zero = []
zeros (suc n) = 0 ∷ zeros n

-- A coordinate with the bytes of the curve.
abbrev padded : Curve → ℕ → List ℕ
padded p256 n = n ∷ zeros 31
padded p384 n = n ∷ zeros 47
padded p521 n = n ∷ zeros 65
padded other_curve n = []

abbrev point : Curve → ℕ → ℕ → Result (List ℕ)
point other_curve x y = err []
point c x y = ok (4 ∷ (padded c x ++ padded c y))

abbrev std : Encoding
std = record {
  encode64 = encoded;
  decode64 = λ s. ok (read_on 0 s);
  bytes_of = λ n. n ∷ [];
  number_of = first_of;
  int64_of = pos;
  point_of = λ k. point k.curve k.x k.y;
}

point_parts :
    (c : Curve) (x y : ℕ) (p : List ℕ)
    → point c x y ≡ ok p
    → (xs : List ℕ) × (ys : List ℕ) × (p ≡ 4 ∷ (xs ++ ys))
      × (length xs ≡ byte_len c)
      × (length ys ≡ byte_len c)
      × (first_of xs ≡ x)
      × (first_of ys ≡ y)
point_parts p256 x y p h = (padded p256 x, padded p256 y, cc, refl, refl, refl, refl)
point_parts p384 x y p h = (padded p384 x, padded p384 y, cc, refl, refl, refl, refl)
point_parts p521 x y p h = (padded p521 x, padded p521 y, cc, refl, refl, refl, refl)
point_parts other_curve x y p h = cc

std-EncodingLaws : EncodingLaws std
std-EncodingLaws = record {
  decode-encode = λ b. ap ok (read_on-encoded b);
  number-bytes = λ n. refl;
  bytes_some = λ n h. refl;
  int64_fits = λ n h. refl;
  point_parts = λ k p h. point_parts k.curve k.x k.y p h;
}

abbrev small_rsa : CryptoKey
small_rsa = rsa_key (some (record { modulus = 3233; exponent = pos 17 }))

abbrev rsa_jwk : Jwk Material
rsa_jwk = record {
  kid = "r1";
  material = record {
    kty = "RSA";
    key_use = "sig";
    alg = "";
    n = encoded (3233 ∷ []);
    e = encoded (17 ∷ []);
    crv = "";
    x = "";
    y = "";
  };
}

rsa_encoded : jwk_from_public_key std small_rsa "r1" ≡ some (ok rsa_jwk)
unfolding jwk_from_public_key
rsa_encoded = refl

public_key_from_jwk-jwk_from_public_key_example :
    (rsa_jwk.kid ≡ "r1") × (public_key_from_jwk std rsa_jwk ≡ ok small_rsa)
public_key_from_jwk-jwk_from_public_key_example =
    public_key_from_jwk-jwk_from_public_key std std-EncodingLaws small_rsa "r1" rsa_jwk
      (omega arith, omega arith, refl, omega arith) rsa_encoded

abbrev detail_of : Option ℕ → CryptoKey
detail_of none = ec_key none
detail_of (some n) = ec_key (some (record { curve = p256; x = n; y = n }))

abbrev detail : PublicKey → CryptoKey
detail (ecdsa_public o) = detail_of o
detail _ = other_key

detail-Encodable : (key : PublicKey) → Encodable (detail key)
detail-Encodable (ecdsa_public none) = tt
detail-Encodable (ecdsa_public (some n)) = tt
detail-Encodable (rsa_public o) = tt
detail-Encodable (ed25519_public b) = tt
detail-Encodable other_public = tt

abbrev lib : Libraries ℤ
lib = record {
  host = host;
  world = world;
  crypto = crypto;
  parser = parser;
  map_parser = map_parser;
  encoding = std;
  detail = detail;
}

abbrev clock : Clock
clock = record { now = seconds 1000; parse_duration = λ s. none; unix_seconds = λ t. t }

abbrev cfg : Config ℤ
cfg = record {
  has_logger = true;
  method = some es256;
  private_key = some private_key;
  public_key = some public_key;
  kid = "k1";
  default_issuer = "mint";
  default_expiration = seconds 600;
  auth_token = "secret";
  authenticator = none;
  refresh_max_age = none;
  refresh_claims_resolver = none;
  revoker = none;
  additional_keys = [];
  issuer = "";
  enable_token_review = false;
  cert_file = "";
  key_file = "";
  addr = ":8080";
  read_timeout = seconds 1;
  write_timeout = seconds 1;
  shutdown_timeout = seconds 1;
}

abbrev signer : Signer ℤ
signer = record {
  method = es256;
  signing_key = private_key;
  static_headers = ("kid", str "k1") ∷ [];
  static_claims = [];
  expiration = seconds 600;
  issuer = "mint";
  typ = "JWT";
}

abbrev published : List (Jwk Material)
published =
    record {
      kid = "k1";
      material = record {
        kty = "EC";
        key_use = "sig";
        alg = "ES256";
        n = "";
        e = "";
        crv = "P-256";
        x = encoded (padded p256 7);
        y = encoded (padded p256 7);
      };
    }
    ∷ []

abbrev srv : Server ℤ
srv = record {
  cfg = cfg;
  signer = signer;
  verify = verifier;
  refresh =
      refresher host world es256 map_parser (key_func "ES256" public_key) private_key
        (record { default_exp = seconds 600; max_age = seconds 86400; resolver = none });
  jwks_set = published;
}

srv_made : new lib cfg ≡ some (ok srv)
unfolding new build_parts with_defaults signer_opts refresher_opts build_verifier build_jwks
    new_signer validate_method_and_key key_fits validate_ecdsa_method_and_key Signer.apply_opts
    Signer.apply_opt has lookup new_refresher validate_pair validate_ecdsa_pair public_key_func
    is_supported_key Refresh.apply_opts Refresh.apply_opt new_verifier apply_opts apply_all
    jwk_from_public_key prepare
srv_made = refl

abbrev shown : Reply ℤ
shown = write 200 (verify_response true claims token.header)

verifies : routes lib clock srv ctx (post_verify (some text)) ≡ some shown
unfolding routes verify build_parser run_checks run_list key_func is_supported_family trim_space
    trim_left trim_right to_map_claims
verifies = refl

post_verify_sound_example :
    (tok : Token ℤ) × Verified Signed cfg ctx text tok
    × (to_map_claims tok.claims ≡ ok claims)
    × (token.header ≡ tok.header)
post_verify_sound_example =
    post_verify_sound lib clock Signed parser-ParserLaws cfg srv ctx text shown claims token.header
      srv_made verifies refl

abbrev loaded_set : KeySet Material
loaded_set =
    (
      "k1",
      record {
        kid = "k1";
        material = record {
          kty = "EC";
          key_use = "sig";
          alg = "ES256";
          n = "";
          e = "";
          crv = "P-256";
          x = encoded (padded p256 7);
          y = encoded (padded p256 7);
        };
      },
    )
    ∷ []

loads : from_jwks srv.jwks_set ≡ ok loaded_set
unfolding from_jwks has lookup insert
loads = refl

jwks_set_sound_example :
    (j : Jwk Material) × (lookup_key "k1" loaded_set ≡ ok j)
    × Publishes std detail (primary_entry cfg) j
jwks_set_sound_example =
    jwks_set_sound lib std-EncodingLaws cfg srv loaded_set (primary_entry cfg) srv_made loads
      (λ k h. detail-Encodable k) (inl refl)

cfg_whole : All (KeyNotNil lib) (entries cfg)
cfg_whole = ((λ k h. subst (λ x. NotNil (detail x)) (some-injective _ _ h) tt), tt)

new-total_example : new lib cfg ≢ none
new-total_example = new-total lib cfg cfg_whole

abbrev caller : Request
caller = record { header = ("Authorization", "Bearer secret") ∷ [] }

abbrev wanted : SignRequest ℤ
wanted = record { claims = ("sub", str "alice") ∷ []; headers = []; expires_in = "" }

abbrev signed_reply : Reply ℤ
signed_reply = write 200 (sign_response "x.y.z" (seconds 1600))

signs : routes lib clock srv ctx (post_sign caller (some wanted)) ≡ some signed_reply
unfolding routes authenticator static_bearer_authenticator strip_prefix get_header sign
    merge_headers merged_claims sign_with fill_claims set_headers deep_copy json_claims json_value
    has lookup insert overlay expires_at issued_at not_before issuer id read_time read_string
    set_expires_at set_issued_at set_not_before set_issuer set_id to_map_claims time_of timestamp
    ◌+ℤ◌
signs = refl

kid_named : is_blank cfg.kid ≡ false
kid_named = refl

post_sign_sound_example :
    (m : Method) × (key : PrivateKey) × (c : Claims ℤ) × (tok : Token ℤ) × (cfg.method ≡ some m)
    × (cfg.private_key ≡ some key)
    × AuthorizedBy cfg.authenticator cfg.auth_token caller
    × Lasting host clock wanted c
    × Issued host world m key signer c wanted.headers "x.y.z" tok
    × (lookup "kid" tok.header ≡ or_else (lookup "kid" wanted.headers) (some (str "k1")))
    × ReportedExpiry host clock tok (seconds 1600)
post_sign_sound_example =
    post_sign_sound lib clock cfg srv ctx caller wanted signed_reply "x.y.z" (seconds 1600)
      kid_named srv_made signs refl
