-- ===== src/Controller/Minting/Laws.antt =====
-- What the claims of a minted token hold.
use jwtmint.Prelude.{
  String, ◌≡◌, refl, sym, ap, ◌∙◌, Bool, true, false, Option, none, some, List, [], ◌∷◌, ◌==◌,
  eq_iff, eq_refl, arith, Bool-cases, inl, inr, if◌then◌else◌,
}
use jwtmint.Dict.{Dict, lookup, insert}
use jwtmint.Dict.Laws.{or_else, lookup-insert, Distinct}
use jwtmint.Time.{Time, Duration, plus}
use jwtmint.Claims.Value.{Value, str, strs, date_ptr, Claims, Host}
use jwtmint.Claims.Keys.{is_registered_claim, key_expires_at}
use jwtmint.Claims.Registered.{set_subject, set_issuer, set_audience, set_expires_at}
use jwtmint.Claims.Profile.{set_groups, set_roles, set_entitlements}
use jwtmint.Controller.Request.{Spec}
use jwtmint.Controller.Minting.{
  Minted, unless_blank, unless_empty, keep_value, spec_claims, add_entry, add_extra, mint_claims,
}

-- A list that has entries, a text that is not blank.
abbrev pub listed : {F : Type 0} → List String → Option (Value F)
listed [] = none
listed (s ∷ ss) = some (strs (s ∷ ss))

abbrev pub named : {F : Type 0} → String → Option (Value F)
named String.[] = none
named (String.◌∷◌ c s) = some (str (String.◌∷◌ c s))

-- What a field gives under a key: its value under its own.
abbrev pub at_key : {F : Type 0} → String → Option (Value F) → String → Option (Value F)
at_key field v k = if field == k then v else none

-- What the fields of a spec give under each key.
abbrev pub field_given : {F J : Type 0} → Spec F J → String → Option (Value F)
field_given s k = or_else (at_key "entitlements" (listed s.entitlements) k) (
    or_else (at_key "roles" (listed s.roles) k) (
      or_else (at_key "groups" (listed s.groups) k) (
        or_else (at_key "aud" (listed s.audience) k) (
          or_else (at_key "iss" (named s.issuer) k)
            (or_else (at_key "sub" (named s.subject) k) none)))))

lookup-unless_empty :
    {F : Type 0} (field k : String) (l : List String) (c : Claims F)
    → lookup k (unless_empty l (insert field (strs l)) c)
      ≡ or_else (at_key field (listed l) k) (lookup k c)
lookup-unless_empty field k [] c = ground arith
lookup-unless_empty field k (s ∷ ss) c = ground (arith, lookup-insert field k (strs (s ∷ ss)) c)

lookup-unless_blank :
    {F : Type 0} (field k s : String) (c : Claims F)
    → lookup k (unless_blank s (insert field (str s)) c)
      ≡ or_else (at_key field (named s) k) (lookup k c)
lookup-unless_blank field k String.[] c = ground arith
lookup-unless_blank field k (String.◌∷◌ d s) c =
    ground (arith, lookup-insert field k (str (String.◌∷◌ d s)) c)

lookup-spec_claims :
    {F J : Type 0} (s : Spec F J) (k : String) → lookup k (spec_claims s) ≡ field_given s k
unfolding spec_claims set_subject set_issuer set_audience set_groups set_roles set_entitlements
    lookup
lookup-spec_claims s k =
    lookup-unless_empty "entitlements" k s.entitlements _
    ∙ ap (or_else (at_key "entitlements" (listed s.entitlements) k)) (
        lookup-unless_empty "roles" k s.roles _
        ∙ ap (or_else (at_key "roles" (listed s.roles) k)) (
            lookup-unless_empty "groups" k s.groups _
            ∙ ap (or_else (at_key "groups" (listed s.groups) k)) (
                lookup-unless_empty "aud" k s.audience _
                ∙ ap (or_else (at_key "aud" (listed s.audience) k)) (
                    lookup-unless_blank "iss" k s.issuer _
                    ∙ ap (or_else (at_key "iss" (named s.issuer) k))
                        (lookup-unless_blank "sub" k s.subject [])))))

-- The value, unless its key is reserved.
abbrev pub given_or_none : {A : Type 0} → Bool → Option A → Option A
given_or_none true o = none
given_or_none false o = o

module _ {F J : Type 0} (unmarshal : J → Option (Value F)) where
  -- What the extra claims give under a key: nothing if it is reserved, else the value that is read.
  abbrev pub read_json : Option J → Option (Value F)
  read_json none = none
  read_json (some raw) = unmarshal raw

  abbrev pub extra_given : Dict J → String → Option (Value F)
  extra_given extra k = given_or_none (is_registered_claim k) (read_json (lookup k extra))

  -- The entry at the head of the map, at its own key and at another.
  here :
      (k : String) (raw : J) (extra : Dict J) (base : Option (Value F)) {rest : Option (Value F)}
      → lookup k extra ≡ none
      → rest ≡ or_else (extra_given extra k) base
      → or_else (given_or_none (is_registered_claim k) (unmarshal raw)) rest
        ≡ or_else (extra_given ((k, raw) ∷ extra) k) base
  unfolding lookup
  here k raw extra base absent h = rw (eq_refl k) (go (is_registered_claim k) (rw absent at h))
    where
      go :
          (b : Bool) {rest : Option (Value F)}
          → rest ≡ or_else (given_or_none b none) base
          → or_else (given_or_none b (unmarshal raw)) rest
            ≡ or_else (given_or_none b (unmarshal raw)) base
      go true h = h
      go false h = ap (or_else (unmarshal raw)) h

  there :
      (j k : String) (raw : J) (extra : Dict J) (base : Option (Value F))
      → (j == k) ≡ false
      → or_else (extra_given extra k) base ≡ or_else (extra_given ((j, raw) ∷ extra) k) base
  unfolding lookup
  there j k raw extra base other = rw other refl

  lookup-keep_value :
      (j k : String) (o : Option (Value F)) (m : Minted F)
      → lookup k (keep_value unmarshal j o m).claims
        ≡ (if j == k then or_else o (lookup k m.claims) else lookup k m.claims)
  lookup-keep_value j k none m = ground arith
  lookup-keep_value j k (some v) m = ground (arith, lookup-insert j k v m.claims)

  -- One entry of the loop.
  lookup-entry :
      (j k : String) (raw : J) (rest : Minted F)
      → lookup k (add_entry unmarshal j raw rest).claims ≡ (
          if j == k
          then or_else
              (given_or_none (is_registered_claim j) (unmarshal raw))
              (lookup k rest.claims)
          else lookup k rest.claims)
  unfolding add_entry
  lookup-entry j k raw rest = go (is_registered_claim j)
    where
      go :
          (b : Bool)
          → lookup k
              (if b
                then record rest { reserved = j ∷ rest.reserved }
                else keep_value unmarshal j (unmarshal raw) rest).claims
            ≡ (if j == k
                then or_else (given_or_none b (unmarshal raw)) (lookup k rest.claims)
                else lookup k rest.claims)
      go true = ground arith
      go false = lookup-keep_value j k (unmarshal raw) rest

  lookup-add_extra :
      (k : String) (extra : Dict J) (m : Minted F)
      → Distinct extra
      → lookup k (add_extra unmarshal extra m).claims
        ≡ or_else (extra_given extra k) (lookup k m.claims)
  unfolding add_extra
  lookup-add_extra k [] m d = unfold lookup in nothing (is_registered_claim k)
    where
      nothing : (b : Bool) → lookup k m.claims ≡ or_else (given_or_none b none) (lookup k m.claims)
      nothing true = refl
      nothing false = refl
  lookup-add_extra k ((j, raw) ∷ extra) m (fresh, d) =
      let tail = lookup-add_extra k extra m d in
      lookup-entry j k raw (add_extra unmarshal extra m) ∙ elim (Bool-cases (j == k)) [
        | inl same ↦
            let e : j ≡ k = (eq_iff j k).0 same in
            rw same (
              ap
                (λ i.
                  or_else (given_or_none (is_registered_claim i) (unmarshal raw))
                    (lookup k (add_extra unmarshal extra m).claims))
                e
              ∙ here k raw extra (lookup k m.claims) (rw (← e) fresh) tail
              ∙ ap (λ i. or_else (extra_given ((i, raw) ∷ extra) k) (lookup k m.claims)) (sym e))
        | inr other ↦ rw other (tail ∙ there j k raw extra (lookup k m.claims) other)
      ]

  -- Under each key the claims of a minted token hold the expiry for exp, else what an extra claim
  -- gives whose key is not reserved and whose value is valid JSON, and else, under sub, iss, aud,
  -- groups, roles and entitlements, the field of the spec of that meaning if it is not empty,
  -- provided that no key of the extra claims stands twice.
  pub lookup-mint_claims :
      (host : Host F) (now : Time) (spec : Spec F J) (expiration : Duration) (k : String)
      → Distinct spec.extra_claims
      → lookup k (mint_claims unmarshal host now spec expiration).claims ≡ (
          if key_expires_at == k
          then some (date_ptr (some (host.numeric_date (plus now expiration))))
          else or_else (extra_given spec.extra_claims k) (field_given spec k))
  unfolding mint_claims set_expires_at
  lookup-mint_claims host now spec expiration k d =
      lookup-insert key_expires_at k _ _
      ∙ ap
          (λ o.
            if key_expires_at == k
            then some (date_ptr (some (host.numeric_date (plus now expiration))))
            else o)
          (lookup-add_extra k spec.extra_claims _ d
            ∙ ap (or_else (extra_given spec.extra_claims k)) (lookup-spec_claims spec k))
