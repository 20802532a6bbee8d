-- ===== src/Server/Start/Panics.antt =====
-- When New does not panic: buildVerifier has rejected a nil method before the JWKS is built and the routes
-- are made.
use jwtmint.Prelude.{
  Bool, true, false, if◌then◌else◌, String, ◌≡◌, ◌≢◌, refl, Option, none, some, List, [], ◌∷◌, All,
}
use jwtmint.Text.{is_blank}
use jwtmint.Errors.{Result, ok, err, if-eq-ok, >>=-eq-ok, invalid_value}
use jwtmint.Dict.{Dict, insert}
use jwtmint.Token.{Method, PublicKey}
use jwtmint.Verification.Base.{Verifier}
use jwtmint.Verification.MultiKey.{
  KeyEntry, Registered, check_present, register, new_multi_key_verifier,
}
use jwtmint.Signing.Signer.{Signer}
use jwtmint.Refresh.{Refresher}
use jwtmint.Jwks.KeySet.{Jwk}
use jwtmint.Jwks.Codec.{
  Panicking, Material, CryptoKey, rsa_key, ec_key, ed25519_key, other_key, Encoding,
  jwk_from_public_key,
}
use jwtmint.Server.Build.{
  Config, with_defaults, primary_entry, entries, verifier_opts, verifier_for, build_verifier,
  in_front, published, jwk_of, publish_all, build_jwks, add_alg, add_algs, supported_algs,
}
use jwtmint.Server.Start.{
  Libraries, Server, prepare, discovery_algs, routed, assembled, finish, new,
}
use jwtmint.Server.Start.Inversion.{present-inv, prepare-inv, build_parts-inv}

abbrev HasMethod : KeyEntry → Type 0
HasMethod e = (m : Method) × (e.method ≡ some m)

check_present-method :
    (kid : String) (method : Option Method) (key : Option PublicKey) (by_kid : Dict Registered)
    (r : Registered)
    → check_present kid method key by_kid ≡ ok r
    → (m : Method) × (method ≡ some m)
unfolding check_present
check_present-method kid none key by_kid r h = cc
check_present-method kid (some m) key by_kid r h = (m, refl)

register-HasMethod :
    (es : List KeyEntry) (by_kid : Dict Registered) (algs : List String)
    (out : Dict Registered × List String)
    → register es by_kid algs ≡ ok out
    → All HasMethod es
unfolding register
register-HasMethod [] by_kid algs out h = tt
register-HasMethod (e ∷ es) by_kid algs out h =
    let (named, rest) = if-eq-ok (is_blank e.kid) (invalid_value ∷ []) _ h in
    let (r, checked, more) = >>=-eq-ok (check_present e.kid e.method e.public_key by_kid) _ rest in
    (
      check_present-method e.kid e.method e.public_key by_kid r checked,
      register-HasMethod es (insert e.kid r by_kid) _ out more,
    )

in_front-total :
    {A : Type 0} (j : A) (rest : Panicking (List A)) → rest ≢ none → in_front j rest ≢ none
in_front-total j none h = h
in_front-total j (some (err e)) h = λ k. cc
in_front-total j (some (ok js)) h = λ k. cc

-- The key is no nil pointer.
abbrev pub NotNil : CryptoKey → Type 0
NotNil (rsa_key none) = ⊥
NotNil (ec_key none) = ⊥
NotNil _ = Unit

jwk_from_public_key-total :
    (std : Encoding) (k : CryptoKey) (kid : String)
    → NotNil k
    → jwk_from_public_key std k kid ≢ none
unfolding jwk_from_public_key
jwk_from_public_key-total std (rsa_key none) kid h = absurd h
jwk_from_public_key-total std (rsa_key (some k)) kid h = λ p. cc
jwk_from_public_key-total std (ec_key none) kid h = absurd h
jwk_from_public_key-total std (ec_key (some k)) kid h = λ p. cc
jwk_from_public_key-total std (ed25519_key b) kid h = λ p. cc
jwk_from_public_key-total std other_key kid h = λ p. cc

published-total :
    (method : Option Method) (o : Panicking (Jwk Material)) (rest : Panicking (List (Jwk Material)))
    (m : Method)
    → method ≡ some m
    → o ≢ none
    → rest ≢ none
    → published method o rest ≢ none
published-total method none rest m h whole fine = absurd (whole refl)
published-total method (some (err e)) rest m h whole fine = λ k. cc
published-total none (some (ok j)) rest m h whole fine = λ k. cc
published-total (some n) (some (ok j)) rest m h whole fine = in_front-total _ rest fine

add_algs-total :
    (es : List KeyEntry) (out : List String) → All HasMethod es → add_algs es out ≢ none
unfolding add_algs
add_algs-total [] out h = λ k. cc
add_algs-total (e ∷ es) out ((m, is_m), h) = rw is_m (add_algs-total es (add_alg m.alg out) h)

module _ {F : Type 0} (lib : Libraries F) where
  -- The public key of the entry, if it has one, is no nil pointer.
  abbrev pub KeyNotNil : KeyEntry → Type 0
  KeyNotNil e = (k : PublicKey) → e.public_key ≡ some k → NotNil (lib.detail k)

  jwk_of-total :
      (key : Option PublicKey) (kid : String)
      → ((k : PublicKey) → key ≡ some k → NotNil (lib.detail k))
      → jwk_of lib.encoding lib.detail key kid ≢ none
  jwk_of-total none kid h = λ p. cc
  jwk_of-total (some k) kid h = jwk_from_public_key-total lib.encoding (lib.detail k) kid (h k refl)

  publish_all-total :
      (es : List KeyEntry)
      → All HasMethod es
      → All KeyNotNil es
      → publish_all lib.encoding lib.detail es ≢ none
  unfolding publish_all
  publish_all-total [] h n = λ k. cc
  publish_all-total (e ∷ es) ((m, is_m), h) (whole, n) =
      published-total e.method (jwk_of lib.encoding lib.detail e.public_key e.kid)
        (publish_all lib.encoding lib.detail es) m is_m (jwk_of-total e.public_key e.kid whole)
        (publish_all-total es h n)

  several-HasMethod :
      (es : List KeyEntry) (c : Config F) (v : Verifier F)
      → new_multi_key_verifier lib.parser es (verifier_opts c.revoker) ≡ ok v
      → All HasMethod es
  unfolding new_multi_key_verifier
  several-HasMethod [] c v h = tt
  several-HasMethod (e ∷ es) c v h =
      let (registered, made, rest) = >>=-eq-ok (register (e ∷ es) [] []) _ h in
      register-HasMethod (e ∷ es) [] [] registered made

  entries-HasMethod :
      (c : Config F) (m : Method) (es : List KeyEntry) (v : Verifier F)
      → c.method ≡ some m
      → verifier_for lib.parser c es ≡ ok v
      → All HasMethod (primary_entry c ∷ es)
  entries-HasMethod c m [] v is_m h = ((m, is_m), tt)
  entries-HasMethod c m (e ∷ es) v is_m h =
      let (named, several) = if-eq-ok (is_blank c.kid) (invalid_value ∷ []) _ h in
      several-HasMethod (primary_entry c ∷ e ∷ es) c v several

  routed-total : (o : Option (List String)) (srv : Server F) → o ≢ none → routed lib o srv ≢ none
  routed-total none srv h = λ k. h refl
  routed-total (some algs) srv h = λ k. cc

  discovery_algs-total : (c : Config F) → All HasMethod (entries c) → discovery_algs lib c ≢ none
  unfolding supported_algs
  discovery_algs-total c h = go (is_blank c.issuer)
    where
      go : (b : Bool) → (if b then some [] else add_algs (entries c) []) ≢ none
      go true = λ k. cc
      go false = add_algs-total (entries c) [] h

  assembled-total :
      (c : Config F) (parts : Signer F × Verifier F × Refresher F)
      (o : Panicking (List (Jwk Material)))
      → All HasMethod (entries c)
      → o ≢ none
      → assembled lib c parts o ≢ none
  assembled-total c parts none methods h = λ k. h refl
  assembled-total c parts (some (err e)) methods h = λ k. cc
  assembled-total c (s, v, r) (some (ok keys)) methods h =
      routed-total (discovery_algs lib c)
        (record { cfg = c; signer = s; verify = v; refresh = r; jwks_set = keys })
        (discovery_algs-total c methods)

  finish-total :
      (c : Config F) (o : Result (Signer F × Verifier F × Refresher F))
      → All KeyNotNil (entries c)
      → prepare lib c ≡ o
      → finish lib (with_defaults c) o ≢ none
  unfolding with_defaults build_jwks build_verifier
  finish-total c (err e) whole made = λ k. cc
  finish-total c (ok (s, v, r)) whole made =
      let (given, paired, parts) = prepare-inv lib c s v r made in
      let (m, key, p, is_m, is_k, is_p) =
        present-inv lib c c.method c.private_key c.public_key given in
      let (signer, verifier, refresher) = build_parts-inv lib (with_defaults c) s v r parts in
      let methods = entries-HasMethod (with_defaults c) m c.additional_keys v is_m verifier in
      assembled-total (with_defaults c) (s, v, r) _ methods
        (publish_all-total (entries (with_defaults c)) methods whole)

  -- Of the panics that are modelled, those of buildJWKS and supportedAlgs at a nil method and of
  -- JWKFromPublicKey at a nil pointer, New has none on a configuration whose public keys are no
  -- nil pointers: nil methods are refused before.
  pub new-total : (c : Config F) → All KeyNotNil (entries c) → new lib c ≢ none
  unfolding new
  new-total c whole = finish-total c (prepare lib c) whole refl
