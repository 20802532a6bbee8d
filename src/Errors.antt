-- ===== src/Errors.antt =====
-- pkgerr/pkgerr.go, and the sentinels of claims/errors.go and signing/signing.go. An error is the
-- list of the sentinels that it wraps, outermost first: `fmt.Errorf("%w: …", root)` is a list of one,
-- `fmt.Errorf("%w: …: %w", root, err)` puts `root` in front, `errors.Join` appends. Message texts are
-- not modelled. Errors of other code are `foreign`.
use jwtmint.Prelude.{
  ℕ, ◌+◌, Bool, true, false, List, [], ◌∷◌, ◌||◌, eqb, Option, none, some, ◌≡◌, refl, if◌then◌else◌,
}

pub data Root : Type 0 where
  parse encode decode sign verify check read write : Root
  invalid_value invalid_type invalid_method invalid_size invalid_key_pair : Root
  invalid_token invalid_claims invalid_param : Root
  not_found empty_value expired not_ready revoked : Root
  no_groups no_audience no_roles reserved_header : Root
  foreign : ℕ → Root

-- A number for each sentinel: two are the same pointer exactly if the numbers agree.
abbrev rank : Root → ℕ
rank parse = 0
rank encode = 1
rank decode = 2
rank sign = 3
rank verify = 4
rank check = 5
rank read = 6
rank write = 7
rank invalid_value = 8
rank invalid_type = 9
rank invalid_method = 10
rank invalid_size = 11
rank invalid_key_pair = 12
rank invalid_token = 13
rank invalid_claims = 14
rank invalid_param = 15
rank not_found = 16
rank empty_value = 17
rank expired = 18
rank not_ready = 19
rank revoked = 20
rank no_groups = 21
rank no_audience = 22
rank no_roles = 23
rank reserved_header = 24
rank (foreign n) = n + 25

abbrev pub Err : Type 0
Err = List Root

-- `errors.Is(err, root)`.
abbrev pub is : Err → Root → Bool
is [] r = false
is (x ∷ e) r = eqb (rank x) (rank r) || is e r

pub data Result {ℓ} (A : Type ℓ) : Type ℓ where
  ok : A → Result A
  err : Err → Result A

infixl 5 ◌>>=◌
abbrev pub ◌>>=◌ {ℓ κ} : {A : Type ℓ} {B : Type κ} → Result A → (A → Result B) → Result B
err failure >>= next = err failure
ok value >>= next = next value

-- A function that returns only an `error` returns `none` for nil.
abbrev pub Verdict : Type 0
Verdict = Option Err

-- `if err := …; err != nil { return …, wrap(err) }`, and then the rest.
abbrev pub unless_err {ℓ} : {A : Type ℓ} → Verdict → (Err → Err) → Result A → Result A
unless_err none wrap rest = rest
unless_err (some e) wrap rest = err (wrap e)

-- The error of a result, nil on success.
abbrev pub verdict_of {ℓ} : {A : Type ℓ} → Result A → Verdict
verdict_of (ok a) = none
verdict_of (err e) = some e

abbrev pub map_err {ℓ} : {A : Type ℓ} → (Err → Err) → Result A → Result A
map_err f (ok a) = ok a
map_err f (err e) = err (f e)

-- Inversion of a chain of steps that succeeded.
pub >>=-eq-ok {ℓ κ} :
    {A : Type ℓ} {B : Type κ} (step : Result A) (next : A → Result B) {out : B}
    → (step >>= next) ≡ ok out
    → (mid : A) × (step ≡ ok mid) × (next mid ≡ ok out)
>>=-eq-ok (err failure) next h = cc
>>=-eq-ok (ok mid) next h = (mid, refl, h)

pub map_err-eq-ok {ℓ} :
    {A : Type ℓ} (wrap : Err → Err) (m : Result A) {a : A} → map_err wrap m ≡ ok a → m ≡ ok a
map_err-eq-ok wrap (ok a) h = h
map_err-eq-ok wrap (err e) h = cc

pub if-eq-ok {ℓ} :
    {A : Type ℓ} (b : Bool) (e : Err) (m : Result A) {a : A}
    → (if b then err e else m) ≡ ok a
    → (b ≡ false) × (m ≡ ok a)
if-eq-ok true e m h = cc
if-eq-ok false e m h = (refl, h)

pub ok-injective {ℓ} : {A : Type ℓ} {a b : A} → ok a ≡ ok b → a ≡ b
ok-injective h = cc

pub unless_err-eq-ok {ℓ} :
    {A : Type ℓ} (v : Verdict) (r : Result A) (a : A)
    → unless_err v (λ e. e) r ≡ ok a
    → (v ≡ none) × (r ≡ ok a)
unless_err-eq-ok none r a h = (refl, h)
unless_err-eq-ok (some e) r a h = cc
