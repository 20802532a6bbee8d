-- ===== src/Server/Start/Publishing.antt =====
-- The published key set of a server that New returns.
use mathlib.Core.Option.{some-injective}
use jwtmint.Prelude.{
  String, ◌≡◌, inl, inr, refl, sym, ap, ◌∙◌, Option, none, some, List, [], ◌∷◌, In,
}
use jwtmint.Errors.{ok, err, ok-injective}
use jwtmint.Token.{Method, PublicKey}
use jwtmint.Verification.MultiKey.{KeyEntry}
use jwtmint.Jwks.KeySet.{Jwk, KeySet, from_jwks, lookup_key}
use jwtmint.Jwks.KeySet.Laws.{lookup_key-from_jwks}
use jwtmint.Jwks.Codec.{Panicking, Material, CryptoKey, Encoding, public_key_from_jwk}
use jwtmint.Jwks.Codec.Laws.{EncodingLaws, Encodable, public_key_from_jwk-jwk_from_public_key}
use jwtmint.Server.Build.{
  Config, with_defaults, entries, tagged, in_front, published, jwk_of, publish_all, build_jwks,
}
use jwtmint.Server.Start.{Server, Libraries, new}
use jwtmint.Server.Start.Inversion.{new-Built}

in_front-inv :
    {A : Type 0} (j : A) (rest : Panicking (List A)) (js : List A)
    → in_front j rest ≡ some (ok js)
    → (tail : List A) × (rest ≡ some (ok tail)) × (js ≡ j ∷ tail)
in_front-inv j none js h = cc
in_front-inv j (some (err e)) js h = cc
in_front-inv j (some (ok tail)) js h = (tail, refl, sym (ok-injective (some-injective _ _ h)))

published-inv :
    (method : Option Method) (o : Panicking (Jwk Material)) (rest : Panicking (List (Jwk Material)))
    (js : List (Jwk Material))
    → published method o rest ≡ some (ok js)
    → (m : Method) × (j : Jwk Material) × (tail : List (Jwk Material)) × (method ≡ some m)
      × (o ≡ some (ok j))
      × (rest ≡ some (ok tail))
      × (js ≡ tagged m.alg j ∷ tail)
published-inv method none rest js h = cc
published-inv method (some (err e)) rest js h = cc
published-inv none (some (ok j)) rest js h = cc
published-inv (some m) (some (ok j)) rest js h =
    let (tail, is_rest, same) = in_front-inv (tagged m.alg j) rest js h in
    (m, j, tail, refl, refl, is_rest, same)

public_key_from_jwk-tagged :
    (std : Encoding) (alg : String) (j : Jwk Material)
    → public_key_from_jwk std (tagged alg j) ≡ public_key_from_jwk std j
unfolding public_key_from_jwk
public_key_from_jwk-tagged std alg j = refl

-- The JWK of an entry: its kid, its method's algorithm, and a material that reads as its key.
pub record Publishes (std : Encoding) (detail : PublicKey → CryptoKey) (e : KeyEntry)
    (j : Jwk Material) : Type 0 where
  pub method : Method
  pub key : PublicKey
  pub is_method : e.method ≡ some method
  pub is_key : e.public_key ≡ some key
  pub kid_same : j.kid ≡ e.kid
  pub alg_same : j.material.alg ≡ method.alg
  pub read_back : public_key_from_jwk std j ≡ ok (detail key)

module _ (std : Encoding) (laws : EncodingLaws std) (detail : PublicKey → CryptoKey) where
  tagged-Publishes :
      (e : KeyEntry) (m : Method) (key : Option PublicKey) (j : Jwk Material)
      → e.method ≡ some m
      → e.public_key ≡ key
      → ((k : PublicKey) → key ≡ some k → Encodable (detail k))
      → jwk_of std detail key e.kid ≡ some (ok j)
      → Publishes std detail e (tagged m.alg j)
  tagged-Publishes e m none j is_m is_k fits made = cc
  tagged-Publishes e m (some key) j is_m is_k fits made =
      let (kid, read) =
        public_key_from_jwk-jwk_from_public_key std laws (detail key) e.kid j (fits key refl)
          made in
      record {
        method = m;
        key = key;
        is_method = is_m;
        is_key = is_k;
        kid_same = kid;
        alg_same = refl;
        read_back = public_key_from_jwk-tagged std m.alg j ∙ read;
      }

  publish_all-Publishes :
      (es : List KeyEntry) (js : List (Jwk Material)) (e : KeyEntry)
      → publish_all std detail es ≡ some (ok js)
      → ((k : PublicKey) → e.public_key ≡ some k → Encodable (detail k))
      → In e es
      → (j : Jwk Material) × In j js × Publishes std detail e j
  unfolding publish_all
  publish_all-Publishes [] js e h fits member = absurd member
  publish_all-Publishes (x ∷ es) js e h fits (inl same) =
      let (m, j, tail, is_m, made, more, is_js) =
        published-inv x.method (jwk_of std detail x.public_key x.kid) (publish_all std detail es) js
          h in
      let shown = tagged-Publishes x m x.public_key j is_m refl (rw same fits) made in
      (tagged m.alg j, rw is_js (inl refl), rw (← same) shown)
  publish_all-Publishes (x ∷ es) js e h fits (inr member) =
      let (m, j, tail, is_m, made, more, is_js) =
        published-inv x.method (jwk_of std detail x.public_key x.kid) (publish_all std detail es) js
          h in
      let (i, found, shown) = publish_all-Publishes es tail e more fits member in
      (i, rw is_js (inr found), shown)

module _ {F : Type 0} (lib : Libraries F) (laws : EncodingLaws lib.encoding) where
  -- If Go's encodings are undone by their decodings, then a client that loads the key set that a
  -- server of New publishes finds under the kid of the primary key and of every additional one a
  -- JWK with that kid and the algorithm of the key's method, and reads back that key, provided
  -- that its numbers can be encoded.
  pub jwks_set_sound :
      (cfg : Config F) (srv : Server F) (ks : KeySet Material) (e : KeyEntry)
      → new lib cfg ≡ some (ok srv)
      → from_jwks srv.jwks_set ≡ ok ks
      → ((k : PublicKey) → e.public_key ≡ some k → Encodable (lib.detail k))
      → In e (entries cfg)
      → (j : Jwk Material) × (lookup_key e.kid ks ≡ ok j) × Publishes lib.encoding lib.detail e j
  unfolding build_jwks with_defaults
  jwks_set_sound cfg srv ks e built loaded fits member =
      let b = new-Built lib cfg srv built in
      let (j, found, shown) =
        publish_all-Publishes lib.encoding laws lib.detail (entries (with_defaults cfg))
          srv.jwks_set e b.published fits member in
      (
        j,
        ap (λ kid. lookup_key kid ks) (sym shown.kid_same)
            ∙ lookup_key-from_jwks srv.jwks_set ks j loaded found,
        shown,
      )
