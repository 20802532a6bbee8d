-- ===== src/Signing/Signer/Headers.antt =====
-- The headers of a minted token.
use jwtmint.Prelude.{String, ◌≡◌, refl, false, some, [], ◌∷◌, arith, ◌==◌, eq_iff, if◌then◌else◌}
use jwtmint.Dict.{Dict, lookup, has, insert, overlay}
use jwtmint.Dict.Laws.{lookup-insert, lookup-overlay, or_else}
use jwtmint.Claims.Value.{Value, str}
use jwtmint.Token.{Token}
use jwtmint.Signing.Mint.{header_key_alg, header_key_typ, set_headers}
use jwtmint.Signing.Signer.{merge_headers}

module _ {F : Type 0} where
  pub lookup-merge_headers :
      (k : String) (static_headers per_call : Dict (Value F))
      → lookup k (merge_headers static_headers per_call)
        ≡ or_else (lookup k per_call) (lookup k static_headers)
  unfolding merge_headers lookup overlay
  lookup-merge_headers k [] [] = refl
  lookup-merge_headers k (h ∷ hs) [] = ground (arith, lookup-overlay k [] (h ∷ hs))
  lookup-merge_headers k hs (p ∷ ps) =
      ground (arith, lookup-overlay k (overlay [] hs) (p ∷ ps), lookup-overlay k [] hs)

  -- What stands under a name in the headers of a token that set_headers makes.
  pub lookup-set_headers :
      (k typ : String) (headers : Dict (Value F)) (token : Token F)
      → lookup k (set_headers typ headers token).header
        ≡ or_else
            (lookup k headers)
            (if header_key_typ == k then some (str typ) else lookup k token.header)
  unfolding set_headers has
  lookup-set_headers k typ headers token = ground (
    arith,
    eq_iff header_key_typ k,
    lookup-overlay k token.header headers,
    lookup-overlay k (insert header_key_typ (str typ) token.header) headers,
    lookup-insert header_key_typ k (str typ) token.header,
  )

  pub alg-set_headers :
      (typ : String) (headers : Dict (Value F)) (token : Token F)
      → has header_key_alg headers ≡ false
      → lookup header_key_alg (set_headers typ headers token).header
        ≡ lookup header_key_alg token.header
  unfolding has
  alg-set_headers typ headers token free =
      ground (arith, lookup-set_headers header_key_alg typ headers token)
