-- ===== src/Signing/Mint/Laws.antt =====
-- The claims and the headers of a minted token.
use jwtmint.Prelude.{
  String, ◌≡◌, ◌≢◌, ◌⊎◌, inl, inr, refl, ◌∙◌, true, false, Option, some, List, [], ◌∷◌, arith,
  Option-cases, Bool-cases, if◌then◌else◌, ◌≤ℤ◌, ◌==◌, eq_refl, contains,
}
use jwtmint.Errors.{Err, Result, ok, err, >>=-eq-ok, ok-injective, is, not_found}
use jwtmint.Dict.{lookup, has, insert}
use jwtmint.Dict.Laws.{lookup-insert}
use jwtmint.Time.{Time, Duration, plus}
use jwtmint.Claims.Value.{Value, str, date_ptr, Claims, Host}
use jwtmint.Claims.Keys.{key_expires_at, key_issued_at, key_not_before, key_id, key_issuer}
use jwtmint.Claims.Read.{read_string, read_time}
use jwtmint.Claims.Registered.{
  id, set_id, issuer, set_issuer, expires_at, set_expires_at, issued_at, set_issued_at, not_before,
  set_not_before,
}
use jwtmint.Signing.Mint.{
  default_exp, default_iat, default_nbf, default_iss, default_jti, fill_claims,
}

-- The expiry that signWith sets: the one it was given, which is not in the past, or the default one.
abbrev pub ExpiryFrom : Time → Duration → Result Time → Time → Type 0
ExpiryFrom now d (ok given) t = (t ≡ given) × (now ≤ℤ t)
ExpiryFrom now d (err e) t = t ≡ plus now d

-- The time of issue that it sets: the one it was given, which is not in the future, or now.
abbrev pub IssueFrom : Time → Result Time → Time → Type 0
IssueFrom now (ok given) t = (t ≡ given) × (t ≤ℤ now)
IssueFrom now (err e) t = t ≡ now

-- The nbf that it sets: the one it was given, or now.
abbrev pub ReadyFrom : Time → Result Time → Time → Type 0
ReadyFrom now (ok given) t = t ≡ given
ReadyFrom now (err e) t = t ≡ now

-- A date as a setter writes it.
abbrev pub dated : {F : Type 0} → Host F → Time → Option (Value F)
dated host t = some (date_ptr (some (host.numeric_date t)))

-- An error that does not say that a claim is missing is not the one that says so.
not_missing :
    (e : Err) → is e not_found ≡ false → ◌≢◌ {A = Result String} (err e) (err (not_found ∷ []))
not_missing e f q =
    let same : e ≡ not_found ∷ [] = cc in
    let clash : is (not_found ∷ []) not_found ≡ false = rw same at f in cc

module _ {F : Type 0} (host : Host F) where
  default_exp_lem :
      (now : Time) (d : Duration) (c c' : Claims F) (r : Result Time)
      → default_exp host now d c r ≡ ok c'
      → (t : Time) × ExpiryFrom now d r t × (c' ≡ set_expires_at host c t)
  default_exp_lem now d c c' (ok given) h = (given, (refl, ground arith), ground arith)
  default_exp_lem now d c c' (err e) h = (plus now d, refl, ground arith)

  default_iat_lem :
      (now : Time) (c c' : Claims F) (r : Result Time)
      → default_iat host now c r ≡ ok c'
      → (t : Time) × IssueFrom now r t × (c' ≡ set_issued_at host c t)
  default_iat_lem now c c' (ok given) h = (given, (refl, ground arith), ground arith)
  default_iat_lem now c c' (err e) h = (now, refl, ground arith)

  pub default_nbf_lem :
      (now : Time) (c : Claims F) (r : Result Time)
      → (t : Time) × ReadyFrom now r t × (default_nbf host now c r ≡ set_not_before host c t)
  default_nbf_lem now c (ok given) = (given, refl, refl)
  default_nbf_lem now c (err e) = (now, refl, refl)

  -- The last two branches leave the map alone or set one key, and they set it if it was missing.
  abbrev pub SetsIfMissing : String → Claims F → Claims F → Type 0
  SetsIfMissing key c c' =
      ((k : String) → (key == k) ≡ false → lookup k c' ≡ lookup k c) × (has key c' ≡ true)

  insert-SetsIfMissing :
      (key : String) (v : Value F) (c c' : Claims F) → c' ≡ insert key v c → SetsIfMissing key c c'
  unfolding has
  insert-SetsIfMissing key v c c' same =
      (λ k ne. rw (same, lookup-insert, ne) refl, rw (same, lookup-insert, eq_refl key) refl)

  same-SetsIfMissing :
      (key : String) (c c' : Claims F)
      → c' ≡ c
      → read_string host c key ≢ err (not_found ∷ [])
      → SetsIfMissing key c c'
  unfolding has read_string
  same-SetsIfMissing key c c' same there = (
    λ k ne. rw same refl,
    elim (Option-cases (lookup key c)) [
      | inl gone ↦ absurd (there (rw gone refl))
      | inr (v, found) ↦ rw (same, found) refl
    ],
  )

  default_iss_cases :
      (iss : String) (c c' : Claims F) (r : Result String)
      → default_iss host iss c r ≡ ok c'
      → (c' ≡ set_issuer c iss) ⊎ ((c' ≡ c) × (r ≢ err (not_found ∷ [])))
  default_iss_cases iss c c' (ok s) h = inr (ground arith, λ q. cc)
  default_iss_cases iss c c' (err e) h = elim (Bool-cases (is e not_found)) [
    | inl t ↦ inl (ground arith)
    | inr f ↦ inr (ground arith, λ q. not_missing e f q)
  ]

  default_iss_lem :
      (iss : String) (c c' : Claims F)
      → default_iss host iss c (issuer host c) ≡ ok c'
      → SetsIfMissing key_issuer c c'
  unfolding issuer set_issuer
  default_iss_lem iss c c' h = elim (default_iss_cases iss c c' (issuer host c) h) [
    | inl set ↦ insert-SetsIfMissing key_issuer (str iss) c c' set
    | inr (same, there) ↦ same-SetsIfMissing key_issuer c c' same there
  ]

  default_jti_cases :
      (uuid : String) (c : Claims F) (r : Result String)
      → (default_jti host uuid c r ≡ set_id host c (str uuid))
        ⊎ ((default_jti host uuid c r ≡ c) × (r ≢ err (not_found ∷ [])))
  default_jti_cases uuid c (ok s) = inr (refl, λ q. cc)
  default_jti_cases uuid c (err e) = elim (Bool-cases (is e not_found)) [
    | inl t ↦ inl (rw t refl)
    | inr f ↦ inr (rw f refl, λ q. not_missing e f q)
  ]

  default_jti_lem :
      (uuid : String) (c : Claims F) → SetsIfMissing key_id c (default_jti host uuid c (id host c))
  unfolding id set_id
  default_jti_lem uuid c = elim (default_jti_cases uuid c (id host c)) [
    | inl set ↦ insert-SetsIfMissing key_id (str uuid) c _ set
    | inr (same, there) ↦ same-SetsIfMissing key_id c _ same there
  ]

-- The claims that signWith fills in.
abbrev pub filled_keys : List String
filled_keys = key_expires_at ∷ key_issued_at ∷ key_not_before ∷ key_issuer ∷ key_id ∷ []

-- What the claims of a minted token are, from the claims `c` that were given: the three times, an
-- issuer and an id are there, and every other claim is as it was.
pub record Minted {F : Type 0} (host : Host F) (now : Time) (d : Duration) (c c' : Claims F)
    : Type 0 where
  pub exp : Time
  pub exp_from : ExpiryFrom now d (expires_at host c) exp
  pub exp_held : lookup key_expires_at c' ≡ dated host exp
  pub iat : Time
  pub iat_from : IssueFrom now (issued_at host c) iat
  pub iat_held : lookup key_issued_at c' ≡ dated host iat
  pub nbf : Time
  pub nbf_from : ReadyFrom now (not_before host c) nbf
  pub nbf_held : lookup key_not_before c' ≡ dated host nbf
  pub has_issuer : has key_issuer c' ≡ true
  pub has_id : has key_id c' ≡ true
  pub others : (k : String) → (contains filled_keys k ≡ true) ⊎ (lookup k c' ≡ lookup k c)

-- The five steps of fill_claims, each as the map that it makes.
module _ {F : Type 0} (host : Host F) (now : Time) (d : Duration) (c c1 c2 c3 c4 c5 : Claims F)
    (exp iat nbf : Time) (same1 : c1 ≡ set_expires_at host c exp)
    (same2 : c2 ≡ set_issued_at host c1 iat) (same3 : c3 ≡ set_not_before host c2 nbf)
    (sets4 : SetsIfMissing host key_issuer c3 c4) (sets5 : SetsIfMissing host key_id c4 c5) where
  lookup-step1 :
      (k : String) → lookup k c1 ≡ (if key_expires_at == k then dated host exp else lookup k c)
  unfolding set_expires_at
  lookup-step1 k = rw (same1, lookup-insert) refl

  lookup-step2 :
      (k : String) → lookup k c2 ≡ (if key_issued_at == k then dated host iat else lookup k c1)
  unfolding set_issued_at
  lookup-step2 k = rw (same2, lookup-insert) refl

  lookup-step3 :
      (k : String) → lookup k c3 ≡ (if key_not_before == k then dated host nbf else lookup k c2)
  unfolding set_not_before
  lookup-step3 k = rw (same3, lookup-insert) refl

  issued_at-step : issued_at host c1 ≡ issued_at host c
  unfolding issued_at read_time
  issued_at-step = rw (lookup-step1 key_issued_at) refl

  not_before-step : not_before host c2 ≡ not_before host c
  unfolding not_before read_time
  not_before-step = rw (lookup-step2 key_not_before, lookup-step1 key_not_before) refl

  lookup-last :
      (k : String) → (key_issuer == k) ≡ false → (key_id == k) ≡ false → lookup k c5 ≡ lookup k c3
  lookup-last k ne4 ne5 = sets5.0 k ne5 ∙ sets4.0 k ne4

  lookup-others : (k : String) → contains filled_keys k ≡ false → lookup k c5 ≡ lookup k c
  lookup-others k out =
      ground (arith, lookup-last k, lookup-step3 k, lookup-step2 k, lookup-step1 k)

  steps-Minted :
      ExpiryFrom now d (expires_at host c) exp
      → IssueFrom now (issued_at host c1) iat
      → ReadyFrom now (not_before host c2) nbf
      → Minted host now d c c5
  steps-Minted e i n = record {
    exp = exp;
    exp_from = e;
    exp_held =
        lookup-last key_expires_at refl refl
        ∙ lookup-step3 key_expires_at
        ∙ lookup-step2 key_expires_at
        ∙ lookup-step1 key_expires_at;
    iat = iat;
    iat_from = rw (← issued_at-step) i;
    iat_held =
        lookup-last key_issued_at refl refl
        ∙ lookup-step3 key_issued_at
        ∙ lookup-step2 key_issued_at;
    nbf = nbf;
    nbf_from = rw (← not_before-step) n;
    nbf_held = lookup-last key_not_before refl refl ∙ lookup-step3 key_not_before;
    has_issuer = unfold has in rw (sets5.0 key_issuer refl) sets4.1;
    has_id = sets5.1;
    others = λ k. elim (Bool-cases (contains filled_keys k)) [
      | inl filled ↦ inl filled
      | inr out ↦ inr (lookup-others k out)
    ];
  }

module _ {F : Type 0} (host : Host F) where
  pub fill_claims-Minted :
      (now : Time) (uuid : String) (d : Duration) (iss : String) (c c' : Claims F)
      → fill_claims host now uuid d iss c ≡ ok c'
      → Minted host now d c c'
  unfolding fill_claims
  fill_claims-Minted now uuid d iss c c' h =
      let (c1, step1, h1) = >>=-eq-ok (default_exp host now d c (expires_at host c)) _ h in
      let (c2, step2, h2) = >>=-eq-ok (default_iat host now c1 (issued_at host c1)) _ h1 in
      let c3 = default_nbf host now c2 (not_before host c2) in
      let (c4, step4, h4) = >>=-eq-ok (default_iss host iss c3 (issuer host c3)) _ h2 in
      let (exp, exp_from, same1) = default_exp_lem host now d c c1 (expires_at host c) step1 in
      let (iat, iat_from, same2) = default_iat_lem host now c1 c2 (issued_at host c1) step2 in
      let (nbf, nbf_from, same3) = default_nbf_lem host now c2 (not_before host c2) in
      let sets5 = default_jti_lem host uuid c4 in
      rw (← ok-injective h4) (
        steps-Minted host now d c c1 c2 c3 c4 (default_jti host uuid c4 (id host c4)) exp iat nbf
          same1 same2 same3 (default_iss_lem host iss c3 c4 step4) sets5 exp_from iat_from nbf_from)
