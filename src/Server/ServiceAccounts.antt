-- ===== src/Server/ServiceAccounts.antt =====
-- httpserver/k8sauth/k8sauth.go: callers that the Kubernetes API server vouches for. What it makes of a
-- TokenReview is an argument: an error, or the status.
use Prim.Native.String
use jwtmint.Prelude.{
  String, ◌≡◌, ◌↔◌, ◌⊎◌, inl, inr, refl, sym, ap, ◌∙◌, Bool, true, false, Option, none, some, List,
  [], ◌∷◌, ◌++◌, is_empty, contains, not, arith, if◌then◌else◌, Bool-cases,
}
use jwtmint.Text.{is_blank, trim_space, strip_prefix}
use jwtmint.Text.Laws.{strip_prefix-to, strip_prefix-append}
use jwtmint.Errors.{Result, ok, err, Verdict, invalid_value}
use jwtmint.Auth.HttpAuth.{Request, get_header}

-- The fields of an authnv1.TokenReviewStatus that Authenticate reads.
pub record Status : Type 0 where
  pub authenticated : Bool
  pub username : String

-- kubernetes.Interface: `TokenReviews().Create` of a token and its audiences.
abbrev pub Client : Type 0
Client = String → List String → Result Status

-- k8sauth.SAAuthenticator
pub record SaAuthenticator : Type 0 where
  pub client : Client
  pub allowed : List String
  pub audiences : List String

-- k8sauth.Opt
pub data Opt : Type 0 where
  with_allowed_sas : List String → Opt
  with_audiences : List String → Opt

-- The loop over the usernames.
unfoldable pub add_allowed : List String → List String → List String
add_allowed [] allowed = allowed
add_allowed (u ∷ usernames) allowed =
    add_allowed usernames (if is_blank u then allowed else u ∷ allowed)

-- The function that an Opt is.
unfoldable pub apply_opt : Opt → SaAuthenticator → SaAuthenticator
unfolding add_allowed
apply_opt (with_allowed_sas usernames) a = record a { allowed = add_allowed usernames a.allowed }
apply_opt (with_audiences audiences) a = record a { audiences = a.audiences ++ audiences }

-- The loop over the options.
unfoldable pub apply_opts : List Opt → SaAuthenticator → SaAuthenticator
apply_opts [] a = a
apply_opts (opt ∷ opts) a = apply_opts opts (apply_opt opt a)

-- k8sauth.New
unfoldable pub new : Option Client → List Opt → Result SaAuthenticator
unfolding apply_opt apply_opts
new none opts = err (invalid_value ∷ [])
new (some client) opts =
    ok (apply_opts opts (record { client = client; allowed = []; audiences = [] }))

-- The end of Authenticate, on the review.
abbrev pub vouched : SaAuthenticator → Result Status → Verdict
vouched a (err e) = some e
vouched a (ok status) =
    if not status.authenticated
    then some []
    else if is_empty a.allowed
    then none
    else if contains a.allowed status.username
    then none
    else some []

-- Authenticate behind the prefix.
abbrev pub review_token : SaAuthenticator → String → Verdict
review_token a token = if is_blank token then some [] else vouched a (a.client token a.audiences)

abbrev pub bearer : SaAuthenticator → Option String → Verdict
bearer a none = some []
bearer a (some rest) = review_token a (trim_space rest)

-- (*SAAuthenticator).Authenticate
unfoldable pub authenticate : SaAuthenticator → Request → Verdict
unfolding get_header strip_prefix trim_space
authenticate a r =
    let authz = get_header "Authorization" r in
    if is_blank authz then some [] else bearer a (strip_prefix "Bearer " authz)

-- The server vouches for the token, and the account is allowed.
abbrev pub Vouched : SaAuthenticator → String → Type 0
Vouched a token =
    (is_blank token ≡ false)
    × ((status : Status) × (a.client token a.audiences ≡ ok status)
        × (status.authenticated ≡ true)
        × ((is_empty a.allowed ≡ true) ⊎ (contains a.allowed status.username ≡ true)))

gate_iff :
    (authenticated anyone listed : Bool)
    → (◌≡◌ {A = Verdict}
        (if not authenticated
          then some []
          else if anyone
          then none
          else if listed
          then none
          else some [])
        none)
      ↔ ((authenticated ≡ true) × ((anyone ≡ true) ⊎ (listed ≡ true)))
gate_iff authenticated anyone listed = ground arith

vouched_iff :
    (a : SaAuthenticator) (o : Result Status)
    → (vouched a o ≡ none) ↔ (
        (status : Status) × (o ≡ ok status)
        × (status.authenticated ≡ true)
        × ((is_empty a.allowed ≡ true) ⊎ (contains a.allowed status.username ≡ true)))
vouched_iff a (err e) = (λ h. cc, λ (s, h, x, y). cc)
vouched_iff a (ok status) =
    let gate =
      gate_iff status.authenticated (is_empty a.allowed) (contains a.allowed status.username) in
    (
      λ h. let (x, y) = gate.0 h in (status, refl, x, y),
      λ (s, same, x, y). let e : status ≡ s = cc in gate.1 (rw e (x, y)),
    )

review_token_iff :
    (a : SaAuthenticator) (token : String) → (review_token a token ≡ none) ↔ Vouched a token
review_token_iff a token = elim (Bool-cases (is_blank token)) [
  | inl blank ↦ (
    λ h. let bad : some [] ≡ none = rw blank at h in cc,
    λ (given, rest). let bad : true ≡ false = sym blank ∙ given in cc,
  )
  | inr given ↦
      let inner = vouched_iff a (a.client token a.audiences) in
      (λ h. (given, inner.0 (rw given at h)), λ (_, rest). rw given (inner.1 rest))
]

bearer_iff :
    (a : SaAuthenticator) (o : Option String)
    → (bearer a o ≡ none) ↔ ((rest : String) × (o ≡ some rest) × Vouched a (trim_space rest))
bearer_iff a none = (λ h. cc, λ (rest, h, v). cc)
bearer_iff a (some s) =
    let inner = review_token_iff a (trim_space s) in
    (λ h. (s, refl, inner.0 h), λ (rest, same, v). let e : s ≡ rest = cc in inner.1 (rw e v))

-- An empty header has no prefix.
guard_iff :
    (authz : String) (a : SaAuthenticator)
    → ((if is_blank authz then some [] else bearer a (strip_prefix "Bearer " authz)) ≡ none)
      ↔ (bearer a (strip_prefix "Bearer " authz) ≡ none)
unfolding strip_prefix
guard_iff String.[] a = (λ h. cc, λ h. cc)
guard_iff (String.◌∷◌ c s) a = (λ h. h, λ h. h)

-- Authenticate accepts a request exactly if its Authorization header is "Bearer " and a text
-- that, trimmed, is not blank and that the API server authenticates for the configured audiences,
-- as an account on the allow-list unless that is empty.
pub authenticate_iff :
    (a : SaAuthenticator) (r : Request)
    → (authenticate a r ≡ none) ↔ (
        (rest : String) × (get_header "Authorization" r ≡ String.◌++◌ "Bearer " rest)
        × Vouched a (trim_space rest))
unfolding authenticate
authenticate_iff a r =
    let authz = get_header "Authorization" r in
    let inner = bearer_iff a (strip_prefix "Bearer " authz) in
    let outer = guard_iff authz a in
    (
      λ h.
          let (rest, found, v) = inner.0 (outer.0 h) in
          (rest, strip_prefix-to "Bearer " authz rest found, v),
      λ (rest, held, v). outer.1 (
          inner.1 (rest, ap (strip_prefix "Bearer ") held ∙ strip_prefix-append "Bearer " rest, v)),
    )
