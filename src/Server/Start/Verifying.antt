-- ===== src/Server/Start/Verifying.antt =====
-- POST /verify of a server that New returns.
use mathlib.Core.Option.{some-injective}
use jwtmint.Prelude.{String, ◌≡◌, refl, ap, ◌∙◌, Bool, true, false, some, [], if◌then◌else◌}
use jwtmint.Text.{is_blank}
use jwtmint.Errors.{Result, ok, err}
use jwtmint.Dict.{Dict}
use jwtmint.Claims.Value.{Value, Claims}
use jwtmint.Claims.Copy.{to_map_claims}
use jwtmint.Claims.Checks.{Context}
use jwtmint.Token.{Token, PublicKey}
use jwtmint.Verification.Base.{Verifier}
use jwtmint.Verification.Single.Laws.{ParserLaws}
use jwtmint.Server.Reply.{verify_response, Reply, write_error}
use jwtmint.Server.Handlers.{Clock, valid_reply, verify_reply, verify_handler}
use jwtmint.Server.Build.{Config, with_defaults}
use jwtmint.Server.Build.Laws.{Verified, build_verifier-Verified}
use jwtmint.Server.Start.{Server, Libraries, new, post_verify, routes}
use jwtmint.Server.Start.Inversion.{new-Built}

module _ {F : Type 0} where
  valid_reply-inv :
      (tok : Token F) (r : Result (Claims F)) (c : Claims F) (h : Dict (Value F))
      → (valid_reply tok r).body ≡ verify_response true c h
      → (r ≡ ok c) × (h ≡ tok.header)
  valid_reply-inv tok (err e) c h eq = cc
  valid_reply-inv tok (ok d) c h eq = (cc, cc)

  verify_reply-inv :
      (r : Result (Token F)) (c : Claims F) (h : Dict (Value F))
      → (verify_reply r).body ≡ verify_response true c h
      → (tok : Token F) × (r ≡ ok tok) × (to_map_claims tok.claims ≡ ok c) × (h ≡ tok.header)
  verify_reply-inv (err e) c h eq = cc
  verify_reply-inv (ok tok) c h eq =
      let (converted, same) = valid_reply-inv tok (to_map_claims tok.claims) c h eq in
      (tok, refl, converted, same)

  verify_handler-inv :
      (v : Verifier F) (ctx : Context) (text : String) (c : Claims F) (h : Dict (Value F))
      → (verify_handler v ctx (some text)).body ≡ verify_response true c h
      → (tok : Token F) × (v ctx text [] ≡ ok tok)
        × (to_map_claims tok.claims ≡ ok c)
        × (h ≡ tok.header)
  unfolding verify_handler
  verify_handler-inv v ctx text c h eq = go (is_blank text) eq
    where
      go :
          (b : Bool)
          → (if b then write_error 400 "missing_token" else verify_reply (v ctx text [])).body
            ≡ verify_response true c h
          → (tok : Token F) × (v ctx text [] ≡ ok tok)
            × (to_map_claims tok.claims ≡ ok c)
            × (h ≡ tok.header)
      go true eq = cc
      go false eq = verify_reply-inv (v ctx text []) c h eq

module _ {F : Type 0} (lib : Libraries F) (clock : Clock)
    (Signed : PublicKey → String → Token F → Type 0) (laws : ParserLaws lib.parser Signed) where
  -- If golang-jwt verifies signatures with the key that the key function gives, then what POST
  -- /verify of a server of New reports as valid is a token that one of the server's keys
  -- verifies, the primary or an additional one, with the algorithm of that key's method, that is
  -- not revoked if there is a revoker, and the reported claims and header are the token's.
  pub post_verify_sound :
      (cfg : Config F) (srv : Server F) (ctx : Context) (text : String) (reply : Reply F)
      (c : Claims F) (header : Dict (Value F))
      → new lib cfg ≡ some (ok srv)
      → routes lib clock srv ctx (post_verify (some text)) ≡ some reply
      → reply.body ≡ verify_response true c header
      → (tok : Token F) × Verified Signed cfg ctx text tok
        × (to_map_claims tok.claims ≡ ok c)
        × (header ≡ tok.header)
  unfolding routes with_defaults
  post_verify_sound cfg srv ctx text reply c header built routed shown =
      let b = new-Built lib cfg srv built in
      let body = ap (λ r. r.body) (some-injective _ _ routed) ∙ shown in
      let (tok, accepted, converted, same) = verify_handler-inv srv.verify ctx text c header body in
      let v =
        build_verifier-Verified lib.parser Signed laws (with_defaults cfg) b.method b.public_key
          srv.verify ctx text tok b.is_method b.is_public b.verifier_built accepted in
      (
        tok,
        record {
          entry = v.entry;
          method = v.method;
          key = v.key;
          member = v.member;
          is_method = v.is_method;
          is_key = v.is_key;
          same_alg = v.same_alg;
          signed = v.signed;
          unrevoked = v.unrevoked;
        },
        converted,
        same,
      )
