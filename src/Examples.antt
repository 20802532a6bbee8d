-- ===== src/Examples.antt =====
-- Concrete inputs for the tests: a host, a parser, a clock, keys and tokens.
pub mod Verifying
pub mod Revoking
pub mod Claiming
pub mod Issuing
pub mod Admitting
pub mod Caching
pub mod Sending
pub mod Guarding
pub mod Reviewing
pub mod Serving
pub mod Reconciling
use jwtmint.Prelude.{
  eqb, ℕ, ℤ, pos, ltb_ℤ, ◌+ℤ◌, ◌*ℤ◌, String, ◌≡◌, refl, Bool, true, false, Option, none, some, List,
  [], ◌∷◌, ◌==◌, if◌then◌else◌, eq_iff, Bool-cases, inl, inr, arith,
}
use jwtmint.Errors.{Result, ok, err, parse, verify}
use jwtmint.Time.{Time, seconds}
use jwtmint.Claims.Value.{Value, str, int, strs, date_ptr, Claims, Host}
use jwtmint.Claims.Copy.{map_claims}
use jwtmint.Claims.Checks.{Context}
use jwtmint.Token.{
  Family, ecdsa, Method, PublicKey, ecdsa_public, PrivateKey, ecdsa_private, Token, Keyfunc,
}
use jwtmint.Verification.Base.{Parser, ParserConfig}
use jwtmint.Verification.Single.Laws.{ParserLaws}

-- A host whose floats are whole numbers of seconds.
abbrev pub host : Host ℤ
host = record {
  below_one = λ f. ltb_ℤ f (pos 1);
  whole = λ f. f;
  frac_nanos = λ f. pos 0;
  float_of_int = λ i. i;
  is_finite = λ f. true;
  int_of_number = λ s. none;
  float_of_text = λ s. none;
  parse_time = λ s. none;
  show_time = λ t. "";
  text_of_bytes = λ b. "";
  base64 = λ b. "";
  numeric_date = λ t. t;
  float_of_date = λ t. t;
  unix = λ s n. s *ℤ pos 1000000000 +ℤ n;
}

abbrev pub es256 : Method
es256 = record { family = ecdsa; alg = "ES256"; curve_bits = 256 }

abbrev pub public_key : PublicKey
public_key = ecdsa_public (some 7)

abbrev pub private_key : PrivateKey
private_key = ecdsa_private (some (256, 7))

abbrev pub now : Time
now = seconds 1000

abbrev pub ctx : Context
ctx = record { failed = none; now = now }

abbrev pub claims : Claims ℤ
claims =
    ("sub", str "alice")
    ∷ ("jti", str "t-1")
    ∷ ("aud", strs ("api" ∷ "web" ∷ []))
    ∷ ("exp", int (pos 2000))
    ∷ ("iat", int (pos 900))
    ∷ ("nbf", int (pos 900))
    ∷ []

abbrev pub token : Token ℤ
token = record {
  method = es256;
  header = ("alg", str "ES256") ∷ ("kid", str "k1") ∷ [];
  claims = map_claims claims;
}

abbrev pub text : String
text = "a.b.c"

-- The keys that verify the text.
abbrev pub opens : PublicKey → Bool
opens (ecdsa_public (some n)) = eqb n 7
opens _ = false

abbrev pub Signed : PublicKey → String → Token ℤ → Type 0
Signed key t tok = (opens key ≡ true) × (t ≡ text) × (tok ≡ token)

abbrev pub keyed : Result PublicKey → Result (Token ℤ)
keyed (err e) = err e
keyed (ok key) = if opens key then ok token else err (verify ∷ [])

-- A parser that knows one text.
abbrev pub parser : Parser ℤ
parser config time t kf = if t == text then keyed (kf token) else err (parse ∷ [])

keyed-verified :
    (o : Result PublicKey) (tok : Token ℤ)
    → keyed o ≡ ok tok
    → (key : PublicKey) × (o ≡ ok key) × (opens key ≡ true) × (tok ≡ token)
keyed-verified (err e) tok h = cc
keyed-verified (ok key) tok h = elim (Bool-cases (opens key)) [
  | inl t ↦ let q : ok token ≡ ok tok = rw t at h in (key, refl, t, cc)
  | inr f ↦ let q : (let r : Result (Token ℤ) = err (verify ∷ []) in r) ≡ ok tok = rw f at h in cc
]

pub parser-ParserLaws : ParserLaws parser Signed
parser-ParserLaws = record {
  verified = λ config time t kf tok h. elim (Bool-cases (t == text)) [
    | inl same ↦
        let (key, chosen, good, is_tok) = keyed-verified (kf token) tok (rw same at h) in
        let is_text : t ≡ text = (eq_iff t text).0 same in
        let is_token : tok ≡ token = is_tok in (key, rw is_token chosen, (good, is_text, is_token))
    | inr f ↦ let q : (let r : Result (Token ℤ) = err (parse ∷ []) in r) ≡ ok tok = rw f at h in cc
  ];
}
