-- ===== src/Signing/Signer/Laws.antt =====
-- What a signer's token holds: the header of its algorithm, the headers that were given, the claims.
use jwtmint.Prelude.{
  String, ◌≡◌, refl, sym, false, Option, none, some, List, [], ◌∷◌, arith, ◌==◌, if◌then◌else◌,
  is_empty,
}
use jwtmint.Errors.{ok, unless_err-eq-ok, >>=-eq-ok, if-eq-ok, reserved_header}
use jwtmint.Dict.{Dict, lookup, has, overlay}
use jwtmint.Dict.Laws.{lookup-overlay, or_else}
use jwtmint.Claims.Copy.Laws.{or_else-none}
use jwtmint.Time.{Duration}
use jwtmint.Claims.Value.{Value, str, Claims, Host}
use jwtmint.Claims.Copy.{deep_copy}
use jwtmint.Claims.Checks.{Context}
use jwtmint.Token.{Method, PrivateKey, Token}
use jwtmint.Signing.Mint.{
  World, header_key_alg, header_key_typ, set_headers, with_signature, sign_with, fill_claims,
}
use jwtmint.Signing.Mint.Laws.{Minted, fill_claims-Minted}
use jwtmint.Signing.Signer.{Signer, Opt, new_signer, merge_headers, merged_claims, sign}
use jwtmint.Signing.Signer.Made.{new_signer-SignerFor}
use jwtmint.Signing.Signer.Headers.{lookup-merge_headers, lookup-set_headers, alg-set_headers}

module _ {F : Type 0} (host : Host F) (world : World F) where
  lookup-merged :
      (k : String) (static_claims c : Claims F)
      → lookup k (if is_empty static_claims then c else overlay (deep_copy host static_claims) c)
        ≡ or_else (lookup k c) (lookup k (deep_copy host static_claims))
  unfolding lookup deep_copy
  lookup-merged k [] c = sym (or_else-none (lookup k c))
  lookup-merged k (s ∷ ss) c = lookup-overlay k (deep_copy host (s ∷ ss)) c

  -- Under each key the merged claims hold the call's claim, or else a copy of the static one.
  pub lookup-merged_claims :
      (k : String) (s : Signer F) (c : Claims F)
      → lookup k (merged_claims host world s c)
        ≡ or_else (lookup k c) (lookup k (deep_copy host s.static_claims))
  unfolding merged_claims
  lookup-merged_claims k s c = lookup-merged k s.static_claims c

  with_signature-eq-ok :
      (token : Token F) (o : Option String) (text : String) (made : Token F)
      → with_signature token o ≡ ok (text, made)
      → (made ≡ token) × (o ≡ some text)
  with_signature-eq-ok token (some signed) text made h = ground arith
  with_signature-eq-ok token none text made h = cc

  -- What sign_with returns when it does not fail.
  sign_with-eq-ok :
      (method : Method) (key : PrivateKey) (headers : Dict (Value F)) (c : Claims F) (d : Duration)
      (iss typ text : String) (token : Token F)
      → sign_with host world method key headers c d iss typ ≡ ok (text, token)
      → (c' : Claims F) × Minted host world.now d (deep_copy host c) c'
        × (token ≡ set_headers typ headers (world.new_with_claims method c'))
        × (world.signed_string key token ≡ some text)
  unfolding sign_with
  sign_with-eq-ok method key headers c d iss typ text token h =
      let (c', filled, rest) =
        >>=-eq-ok (fill_claims host world.now world.fresh_uuid d iss (deep_copy host c)) _ h in
      let made = set_headers typ headers (world.new_with_claims method c') in
      let (same, signed) =
        with_signature-eq-ok made (world.signed_string key made) text token rest in
      let minted =
        fill_claims-Minted host world.now world.fresh_uuid d iss (deep_copy host c) c' filled in
      (c', minted, same, rw same signed)

  sign-eq-ok :
      (s : Signer F) (ctx : Context) (c : Claims F) (headers : Dict (Value F)) (text : String)
      (token : Token F)
      → sign host world s ctx c headers ≡ ok (text, token)
      → (ctx.failed ≡ none)
        × (has header_key_alg headers ≡ false)
        × (sign_with host world s.method s.signing_key
              (merge_headers s.static_headers headers)
              (merged_claims host world s c)
              s.expiration
              s.issuer
              s.typ
            ≡ ok (text, token))
  unfolding sign
  sign-eq-ok s ctx c headers text token h =
      let (fine, rest) = unless_err-eq-ok ctx.failed _ (text, token) h in
      let (free, made) = if-eq-ok (has header_key_alg headers) (reserved_header ∷ []) _ rest in
      (fine, free, made)

  merged-free :
      (s : Signer F) (headers : Dict (Value F))
      → has header_key_alg s.static_headers ≡ false
      → has header_key_alg headers ≡ false
      → has header_key_alg (merge_headers s.static_headers headers) ≡ false
  unfolding has
  merged-free s headers f g =
      ground (arith, lookup-merge_headers header_key_alg s.static_headers headers)

-- A token that a signer of NewSigner makes: its claims are minted from the merged ones, its algorithm
-- is the one golang-jwt writes for the method, its typ is the given one or else the signer's, and
-- it is the token whose signature under the key is returned.
pub record Issued {F : Type 0} (host : Host F) (world : World F) (method : Method)
    (key : PrivateKey) (s : Signer F) (c : Claims F) (headers : Dict (Value F)) (text : String)
    (token : Token F) : Type 0 where
  pub c' : Claims F
  pub minted : Minted host world.now s.expiration (deep_copy host (merged_claims host world s c)) c'
  pub claims_held : token.claims ≡ (world.new_with_claims method c').claims
  pub alg_held :
      lookup header_key_alg token.header
      ≡ lookup header_key_alg (world.new_with_claims method c').header
  pub header_held :
      (k : String)
      → lookup k token.header
        ≡ or_else (lookup k headers) (
            or_else (lookup k s.static_headers) (
              if header_key_typ == k
              then some (str s.typ)
              else lookup k (world.new_with_claims method c').header))
  pub signature : world.signed_string key token ≡ some text

module _ {F : Type 0} (host : Host F) (world : World F) where
  set_headers-claims :
      (typ : String) (headers : Dict (Value F)) (token : Token F)
      → (set_headers typ headers token).claims ≡ token.claims
  unfolding set_headers
  set_headers-claims typ headers token = refl

  or_else_assoc :
      {A : Type 0} (a b c : Option A) → or_else (or_else a b) c ≡ or_else a (or_else b c)
  or_else_assoc none b c = refl
  or_else_assoc (some a) b c = refl

  sign-Issued :
      (s : Signer F) (ctx : Context) (c : Claims F) (headers : Dict (Value F)) (text : String)
      (token : Token F)
      → has header_key_alg s.static_headers ≡ false
      → sign host world s ctx c headers ≡ ok (text, token)
      → Issued host world s.method s.signing_key s c headers text token
  sign-Issued s ctx c headers text token safe h =
      let (fine, free, made) = sign-eq-ok host world s ctx c headers text token h in
      let all_headers = merge_headers s.static_headers headers in
      let (c', minted, same, signature) =
        sign_with-eq-ok host world s.method s.signing_key all_headers (merged_claims host world s c)
          s.expiration s.issuer s.typ text token made in
      let base = world.new_with_claims s.method c' in
      record {
        c' = c';
        minted = minted;
        claims_held = rw same (set_headers-claims s.typ all_headers base);
        alg_held =
            rw same
              (alg-set_headers s.typ all_headers base (merged-free host world s headers safe free));
        header_held = λ k.
            rw
              (
                same,
                lookup-set_headers k s.typ all_headers base,
                lookup-merge_headers k s.static_headers headers,
              )
              (or_else_assoc (lookup k headers) (lookup k s.static_headers) _);
        signature = signature;
      }

  -- A token that a signer of NewSigner signs has claims filled in from the merged claims (exp not
  -- past and else the default, iat not ahead and else now, nbf, an issuer and an id, and every
  -- other claim as it was), the "alg" header of a new token for the method, each other header
  -- from the call, else from the static headers, else the default, and the returned text is its
  -- signature under the signer's key.
  pub new_signer-Issued :
      (method : Method) (key : PrivateKey) (opts : List (Opt F)) (s : Signer F) (ctx : Context)
      (c : Claims F) (headers : Dict (Value F)) (text : String) (token : Token F)
      → new_signer (some method) (some key) opts ≡ ok s
      → sign host world s ctx c headers ≡ ok (text, token)
      → Issued host world method key s c headers text token
  new_signer-Issued method key opts s ctx c headers text token made h =
      let (same_method, same_key, safe) = new_signer-SignerFor method key opts s made in
      rw (← same_method, ← same_key) (sign-Issued s ctx c headers text token safe h)
