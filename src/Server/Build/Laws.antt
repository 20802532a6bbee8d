-- ===== src/Server/Build/Laws.antt =====
-- Which tokens the server's verifier accepts.
use mathlib.Core.Path.{subst}
use jwtmint.Prelude.{String, ◌≡◌, refl, inl, false, Option, none, some, List, [], ◌∷◌, In}
use jwtmint.Text.{is_blank}
use jwtmint.Errors.{ok, if-eq-ok, invalid_value}
use jwtmint.Claims.Checks.{Context}
use jwtmint.Token.{Token, Method, PublicKey}
use jwtmint.Revocation.{Revoker}
use jwtmint.Verification.Base.{Parser, Verifier}
use jwtmint.Verification.Base.Laws.{Passed}
use jwtmint.Verification.Options.Laws.{all_added, revoker_check-none}
use jwtmint.Verification.Single.{new_verifier}
use jwtmint.Verification.Single.Laws.{ParserLaws, new_verifier_sound}
use jwtmint.Verification.MultiKey.{KeyEntry, new_multi_key_verifier}
use jwtmint.Verification.MultiKey.Laws.{new_multi_key_verifier_sound}
use jwtmint.Server.Build.{
  Config, verifier_opts, primary_entry, entries, verifier_for, build_verifier,
}

-- The revoker, if there is one, reports the token as not revoked.
abbrev pub Unrevoked : {F : Type 0} → Context → Token F → Option (Revoker F) → Type 0
Unrevoked ctx tok none = Unit
Unrevoked ctx tok (some r) = r ctx (some tok) ≡ ok false

-- What a token has that the server's verifier accepts: one of the server's keys verifies it.
pub record Verified {F : Type 0} (Signed : PublicKey → String → Token F → Type 0) (c : Config F)
    (ctx : Context) (text : String) (tok : Token F) : Type 0 where
  pub entry : KeyEntry
  pub method : Method
  pub key : PublicKey
  pub member : In entry (entries c)
  pub is_method : entry.method ≡ some method
  pub is_key : entry.public_key ≡ some key
  pub same_alg : tok.method.alg ≡ method.alg
  pub signed : Signed key text tok
  pub unrevoked : Unrevoked ctx tok c.revoker

Passed-Unrevoked :
    {F : Type 0} (ctx : Context) (tok : Token F) (r : Option (Revoker F))
    → Passed ctx tok (all_added (verifier_opts r))
    → Unrevoked ctx tok r
Passed-Unrevoked ctx tok none h = tt
Passed-Unrevoked ctx tok (some r) h = revoker_check-none r ctx tok h.0

module _ {F : Type 0} (parser : Parser F) (Signed : PublicKey → String → Token F → Type 0)
    (laws : ParserLaws parser Signed) where
  single_key :
      (c : Config F) (m : Method) (p : PublicKey) (v : Verifier F) (ctx : Context) (text : String)
      (tok : Token F)
      → c.method ≡ some m
      → c.public_key ≡ some p
      → new_verifier parser c.method c.public_key (verifier_opts c.revoker) ≡ ok v
      → v ctx text [] ≡ ok tok
      → Verified Signed c ctx text tok
  single_key c m p v ctx text tok is_m is_p built accepted =
      let (live, alg, family, signed, passed, rest) =
        new_verifier_sound parser Signed laws m p (verifier_opts c.revoker) v ctx text [] tok
          (rw (← is_m, ← is_p) built) accepted in
      record {
        entry = primary_entry c;
        method = m;
        key = p;
        member = inl refl;
        is_method = is_m;
        is_key = is_p;
        same_alg = alg;
        signed = signed;
        unrevoked = Passed-Unrevoked ctx tok c.revoker passed;
      }

  several_keys :
      (c : Config F) (v : Verifier F) (ctx : Context) (text : String) (tok : Token F)
      → new_multi_key_verifier parser (entries c) (verifier_opts c.revoker) ≡ ok v
      → v ctx text [] ≡ ok tok
      → Verified Signed c ctx text tok
  several_keys c v ctx text tok built accepted =
      let (e, r, kid, member, gives, header, alg, signed, passed, rest) =
        new_multi_key_verifier_sound parser Signed laws (entries c) (verifier_opts c.revoker) v ctx
          text [] tok built accepted in
      record {
        entry = e;
        method = r.method;
        key = r.public_key;
        member = member;
        is_method = gives.method_same;
        is_key = gives.key_same;
        same_alg = alg;
        signed = signed;
        unrevoked = Passed-Unrevoked ctx tok c.revoker passed;
      }

  by_keys :
      (c : Config F) (m : Method) (p : PublicKey) (es : List KeyEntry) (v : Verifier F)
      (ctx : Context) (text : String) (tok : Token F)
      → c.method ≡ some m
      → c.public_key ≡ some p
      → es ≡ c.additional_keys
      → verifier_for parser c es ≡ ok v
      → v ctx text [] ≡ ok tok
      → Verified Signed c ctx text tok
  by_keys c m p [] v ctx text tok is_m is_p same built accepted =
      single_key c m p v ctx text tok is_m is_p built accepted
  by_keys c m p (e ∷ es) v ctx text tok is_m is_p same built accepted =
      let (named, several) = if-eq-ok (is_blank c.kid) (invalid_value ∷ []) _ built in
      let whole =
        subst
          (λ l.
            new_multi_key_verifier parser (primary_entry c ∷ l) (verifier_opts c.revoker) ≡ ok v)
          same several in
      several_keys c v ctx text tok whole accepted

  pub build_verifier-Verified :
      (c : Config F) (m : Method) (p : PublicKey) (v : Verifier F) (ctx : Context) (text : String)
      (tok : Token F)
      → c.method ≡ some m
      → c.public_key ≡ some p
      → build_verifier parser c ≡ ok v
      → v ctx text [] ≡ ok tok
      → Verified Signed c ctx text tok
  unfolding build_verifier
  build_verifier-Verified c m p v ctx text tok is_m is_p built accepted =
      by_keys c m p c.additional_keys v ctx text tok is_m is_p refl built accepted
