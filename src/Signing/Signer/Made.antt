-- ===== src/Signing/Signer/Made.antt =====
-- What NewSigner makes of its options.
use jwtmint.Prelude.{◌≡◌, refl, false, some, List, [], ◌∷◌, arith}
use jwtmint.Errors.{ok, unless_err-eq-ok, >>=-eq-ok, ok-injective}
use jwtmint.Dict.{lookup, has}
use jwtmint.Token.{Method, PrivateKey}
use jwtmint.Signing.Method.{validate_method_and_key}
use jwtmint.Signing.Mint.{header_key_alg}
use jwtmint.Signing.Signer.{
  Signer, Opt, with_static_headers, with_static_claims, with_default_expiration,
  with_default_issuer, with_default_typ, apply_opt, apply_opts, signer_from, new_signer,
}

-- The signer was made for this method and key, and its static headers leave "alg" alone.
abbrev pub SignerFor : {F : Type 0} → Method → PrivateKey → Signer F → Type 0
SignerFor method key s =
    (s.method ≡ method) × (s.signing_key ≡ key) × (has header_key_alg s.static_headers ≡ false)

module _ {F : Type 0} (method : Method) (key : PrivateKey) where
  apply_opt-SignerFor :
      (opt : Opt F) (s s' : Signer F)
      → SignerFor method key s
      → apply_opt opt s ≡ ok s'
      → SignerFor method key s'
  unfolding apply_opt
  apply_opt-SignerFor (with_static_headers h) s s' (m, k, free) e = ground arith
  apply_opt-SignerFor (with_static_claims c) s s' (m, k, free) e = ground arith
  apply_opt-SignerFor (with_default_expiration d) s s' (m, k, free) e = ground arith
  apply_opt-SignerFor (with_default_issuer iss) s s' (m, k, free) e = ground arith
  apply_opt-SignerFor (with_default_typ typ) s s' (m, k, free) e = ground arith

  apply_opts-SignerFor :
      (opts : List (Opt F)) (s s' : Signer F)
      → SignerFor method key s
      → apply_opts opts s ≡ ok s'
      → SignerFor method key s'
  unfolding apply_opts
  apply_opts-SignerFor [] s s' w e = rw (← ok-injective e) w
  apply_opts-SignerFor (opt ∷ opts) s s' w e =
      let (s1, step, rest) = >>=-eq-ok (apply_opt opt s) _ e in
      apply_opts-SignerFor opts s1 s' (apply_opt-SignerFor opt s s1 w step) rest

  pub new_signer-SignerFor :
      (opts : List (Opt F)) (s : Signer F)
      → new_signer (some method) (some key) opts ≡ ok s
      → SignerFor method key s
  unfolding new_signer has lookup
  new_signer-SignerFor opts s h =
      let (valid, made) =
        unless_err-eq-ok (validate_method_and_key (some method) (some key))
          (signer_from (some method) (some key) opts) s h in
      apply_opts-SignerFor opts _ s (refl, refl, refl) made
