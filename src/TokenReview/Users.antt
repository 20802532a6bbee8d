-- ===== src/TokenReview/Users.antt =====
-- k8s/tokenreview/tokenreview.go: what DefaultUserInfoMapper makes of the claims of a token. A nil slice
-- is an empty one.
pub mod Laws
use Prim.Native.String
use jwtmint.Prelude.{
  String, Bool, Option, none, some, List, [], ◌∷◌, ◌==◌, ◌||◌, is_empty, if◌then◌else◌,
}
use jwtmint.Text.{is_blank}
use jwtmint.Errors.{Result, ok, err, invalid_claims}
use jwtmint.Dict.{Dict, insert}
use jwtmint.Claims.Value.{Value, str, strs, items, Items, nil, cons, Claims, Host}
use jwtmint.Claims.Keys.{key_groups, is_registered_claim}
use jwtmint.Claims.Registered.{subject, id, audience}
use jwtmint.Claims.Profile.{groups}

-- authnv1.UserInfo
pub record UserInfo : Type 0 where
  pub username : String
  pub uid : String
  pub groups : List String
  pub extra : Dict (List String)

-- tokenreview.UserInfoMapper
abbrev pub UserInfoMapper : Type 0 → Type 0
UserInfoMapper F = Claims F → Result UserInfo

abbrev pub text_of : Result String → String
text_of (ok s) = s
text_of (err e) = ""

abbrev pub texts_of : Result (List String) → List String
texts_of (ok ss) = ss
texts_of (err e) = []

abbrev pub with_audience : Result (List String) → Dict (List String)
with_audience (ok aud) = ("aud", aud) ∷ []
with_audience (err e) = []

abbrev pub non_empty : List String → Option (List String)
non_empty [] = none
non_empty (s ∷ ss) = some (s ∷ ss)

module _ {F : Type 0} where
  -- The texts of a []any.
  unfoldable pub texts_in : Items F → List String
  texts_in nil = []
  texts_in (cons (str s) vs) = s ∷ texts_in vs
  texts_in (cons _ vs) = texts_in vs

  -- The type switch on a claim: the value that is put into Extra, if any.
  unfoldable pub extra_value : Value F → Option (List String)
  unfolding texts_in
  extra_value (str s) = some (s ∷ [])
  extra_value (strs ss) = some ss
  extra_value (items vs) = non_empty (texts_in vs)
  extra_value _ = none

abbrev pub put : String → Option (List String) → Dict (List String) → Dict (List String)
put k none extra = extra
put k (some ev) extra = insert (String.◌++◌ "claim_" k) ev extra

-- `claims.IsRegisteredClaim(k) || k == claims.KeyGroups`
unfoldable pub is_mapped : String → Bool
unfolding is_registered_claim
is_mapped k = is_registered_claim k || k == key_groups

module _ {F : Type 0} where
  -- The loop over the claims.
  unfoldable pub add_claims : Claims F → Dict (List String) → Dict (List String)
  unfolding extra_value is_mapped insert
  add_claims [] extra = extra
  add_claims ((k, v) ∷ c) extra =
      add_claims c (if is_mapped k then extra else put k (extra_value v) extra)

module _ {F : Type 0} (host : Host F) where
  -- The user, before its name is looked at.
  unfoldable pub user_of : Claims F → UserInfo
  unfolding add_claims
  user_of c = record {
    username = text_of (subject host c);
    uid = text_of (id host c);
    groups = texts_of (groups c);
    extra = add_claims c (with_audience (audience c));
  }

  -- tokenreview.DefaultUserInfoMapper
  unfoldable pub default_user_info_mapper : UserInfoMapper F
  unfolding user_of
  default_user_info_mapper c =
      let user = user_of c in if is_blank user.username then err (invalid_claims ∷ []) else ok user
