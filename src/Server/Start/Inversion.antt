-- ===== src/Server/Start/Inversion.antt =====
-- What a server that New returns was built from.
use mathlib.Core.Option.{some-injective}
use jwtmint.Prelude.{String, ◌≡◌, refl, sym, ap, ◌∙◌, false, not, Option, none, some, List, [], ◌∷◌}
use jwtmint.Errors.{
  Result, ok, err, >>=-eq-ok, if-eq-ok, unless_err-eq-ok, ok-injective, invalid_value,
}
use jwtmint.Token.{Method, PublicKey, PrivateKey}
use jwtmint.Keys.{validate_pair}
use jwtmint.Verification.Base.{Verifier}
use jwtmint.Signing.Signer.{Signer, new_signer}
use jwtmint.Refresh.{Refresher, new_refresher}
use jwtmint.Jwks.KeySet.{Jwk}
use jwtmint.Jwks.Codec.{Panicking, Material}
use jwtmint.Server.Build.{
  Config, with_defaults, signer_opts, refresher_opts, build_verifier, build_jwks,
}
use jwtmint.Server.Start.{
  Server, Libraries, half_set, build_parts, present, prepare, discovery_algs, routed, assembled,
  finish, new,
}

pub record Built {F : Type 0} (lib : Libraries F) (c : Config F) (s : Server F) : Type 0 where
  pub method : Method
  pub key : PrivateKey
  pub public_key : PublicKey
  pub is_method : c.method ≡ some method
  pub is_key : c.private_key ≡ some key
  pub is_public : c.public_key ≡ some public_key
  pub paired : validate_pair lib.crypto (some public_key) (some key) ≡ none
  pub is_cfg : s.cfg ≡ with_defaults c
  pub signer_built :
      new_signer (some method) (some key) (signer_opts (with_defaults c)) ≡ ok s.signer
  pub verifier_built : build_verifier lib.parser (with_defaults c) ≡ ok s.verify
  pub refresher_built :
      new_refresher lib.host lib.world lib.crypto lib.map_parser
        (some method)
        (some public_key)
        (some key)
        (refresher_opts (with_defaults c))
      ≡ ok s.refresh
  pub published : build_jwks lib.encoding lib.detail (with_defaults c) ≡ some (ok s.jwks_set)

module _ {F : Type 0} (lib : Libraries F) where
  routed-inv :
      (o : Option (List String)) (made srv : Server F)
      → routed lib o made ≡ some (ok srv)
      → made ≡ srv
  routed-inv none made srv h = cc
  routed-inv (some algs) made srv h = ok-injective (some-injective _ _ h)

  assembled-inv :
      (c : Config F) (s : Signer F) (v : Verifier F) (r : Refresher F)
      (o : Panicking (List (Jwk Material))) (srv : Server F)
      → assembled lib c (s, v, r) o ≡ some (ok srv)
      → (o ≡ some (ok srv.jwks_set))
        × (srv.cfg ≡ c)
        × (s ≡ srv.signer)
        × (v ≡ srv.verify)
        × (r ≡ srv.refresh)
  assembled-inv c s v r none srv h = cc
  assembled-inv c s v r (some (err e)) srv h = cc
  assembled-inv c s v r (some (ok keys)) srv h =
      let same =
        routed-inv (discovery_algs lib c)
          (record { cfg = c; signer = s; verify = v; refresh = r; jwks_set = keys }) srv h in
      (
        ap (λ x. some (ok x.jwks_set)) same,
        sym (ap (λ x. x.cfg) same),
        ap (λ x. x.signer) same,
        ap (λ x. x.verify) same,
        ap (λ x. x.refresh) same,
      )

  finish-inv :
      (c : Config F) (parts : Result (Signer F × Verifier F × Refresher F)) (srv : Server F)
      → finish lib c parts ≡ some (ok srv)
      → (parts ≡ ok (srv.signer, srv.verify, srv.refresh))
        × (srv.cfg ≡ c)
        × (build_jwks lib.encoding lib.detail c ≡ some (ok srv.jwks_set))
  finish-inv c (err e) srv h = cc
  finish-inv c (ok (s, v, r)) srv h =
      let (keys, cfg, is_s, is_v, is_r) =
        assembled-inv c s v r (build_jwks lib.encoding lib.detail c) srv h in
      (rw (is_s, is_v, is_r) refl, cfg, keys)

  pub present-inv :
      (c : Config F) (m : Option Method) (k : Option PrivateKey) (p : Option PublicKey)
      → not (present lib c m k p) ≡ false
      → (method : Method) × (key : PrivateKey) × (public_key : PublicKey) × (m ≡ some method)
        × (k ≡ some key)
        × (p ≡ some public_key)
  present-inv c none k p h = cc
  present-inv c (some m) none p h = cc
  present-inv c (some m) (some k) none h = cc
  present-inv c (some m) (some k) (some p) h = (m, k, p, refl, refl, refl)

  pub build_parts-inv :
      (c : Config F) (s : Signer F) (v : Verifier F) (r : Refresher F)
      → build_parts lib c ≡ ok (s, v, r)
      → (new_signer c.method c.private_key (signer_opts c) ≡ ok s)
        × (build_verifier lib.parser c ≡ ok v)
        × (new_refresher lib.host lib.world lib.crypto lib.map_parser c.method c.public_key
              c.private_key
              (refresher_opts c)
            ≡ ok r)
  unfolding build_parts
  build_parts-inv c s v r h =
      let (s', is_s, rest) = >>=-eq-ok (new_signer c.method c.private_key (signer_opts c)) _ h in
      let (v', is_v, last) = >>=-eq-ok (build_verifier lib.parser c) _ rest in
      let (r', is_r, made) = >>=-eq-ok _ _ last in
      let same = ok-injective made in
      (is_s ∙ ap (λ x. ok x.0) same, is_v ∙ ap (λ x. ok x.1) same, is_r ∙ ap (λ x. ok x.2) same)

  pub prepare-inv :
      (c : Config F) (s : Signer F) (v : Verifier F) (r : Refresher F)
      → prepare lib c ≡ ok (s, v, r)
      → (not (present lib c c.method c.private_key c.public_key) ≡ false)
        × (validate_pair lib.crypto c.public_key c.private_key ≡ none)
        × (build_parts lib (with_defaults c) ≡ ok (s, v, r))
  unfolding prepare
  prepare-inv c s v r h =
      let (given, rest) =
        if-eq-ok (not (present lib c c.method c.private_key c.public_key)) (invalid_value ∷ []) _
          h in
      let (paired, last) =
        unless_err-eq-ok (validate_pair lib.crypto c.public_key c.private_key) _ (s, v, r) rest in
      let (whole, built) = if-eq-ok (half_set lib c) (invalid_value ∷ []) _ last in
      (given, paired, built)

  pub new-Built : (c : Config F) (srv : Server F) → new lib c ≡ some (ok srv) → Built lib c srv
  unfolding new with_defaults
  new-Built c srv h =
      let (prepared, cfg, keys) = finish-inv (with_defaults c) (prepare lib c) srv h in
      let (given, paired, parts) = prepare-inv c srv.signer srv.verify srv.refresh prepared in
      let (m, k, p, is_m, is_k, is_p) = present-inv c c.method c.private_key c.public_key given in
      let (signer, verifier, refresher) =
        build_parts-inv (with_defaults c) srv.signer srv.verify srv.refresh parts in
      record {
        method = m;
        key = k;
        public_key = p;
        is_method = is_m;
        is_key = is_k;
        is_public = is_p;
        paired = rw (← is_k, ← is_p) paired;
        is_cfg = cfg;
        signer_built = rw (← is_m, ← is_k) signer;
        verifier_built = verifier;
        refresher_built = rw (← is_m, ← is_k, ← is_p) refresher;
        published = keys;
      }
