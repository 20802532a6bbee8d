-- ===== src/Examples/Reviewing.antt =====
-- The webhooks and the authentication of service accounts on concrete reviews.
use Prim.Native.String
use jwtmint.Prelude.{
  ℤ, String, ◌≡◌, ◌↔◌, refl, true, false, Option, none, some, List, [], ◌∷◌, ◌++◌, if◌then◌else◌,
}
use jwtmint.Text.{trim_space, trim_left, trim_right, is_blank}
use jwtmint.Errors.{ok}
use jwtmint.Dict.{lookup}
use jwtmint.Dict.Laws.{Distinct}
use jwtmint.Claims.Value.{str, Claims}
use jwtmint.Claims.Copy.{to_map_claims}
use jwtmint.Claims.Read.{read_string, read_string_slice}
use jwtmint.Claims.Registered.{subject, id, audience}
use jwtmint.Claims.Profile.{groups}
use jwtmint.Claims.Checks.{Context, check_audience, chain}
use jwtmint.Keys.{key_func, is_supported_family}
use jwtmint.Verification.Base.{verify, build_parser, run_checks, run_list}
use jwtmint.Verification.Checks.{check_claims}
use jwtmint.Admission
use jwtmint.Admission.Webhook
use jwtmint.Admission.Webhook.{Admits, validate, handler_iff}
use jwtmint.Auth.HttpAuth.{Request, get_header}
use jwtmint.TokenReview
use jwtmint.TokenReview.{
  Review, Reply, Config, apply_to, close, serve, handler, audience_check, review_with,
}
use jwtmint.TokenReview.Users.{UserInfo, is_mapped, user_of, default_user_info_mapper}
use jwtmint.TokenReview.Users.Laws.{extra_key, Shows, default_user_info_mapper_lem}
use jwtmint.TokenReview.Asked.{asked}
use jwtmint.TokenReview.Laws.{Authenticated, handler_sound}
use jwtmint.TokenReview.Sharing.{interleaved, last_audiences, interleaved_lem}
use jwtmint.Server.ServiceAccounts.{
  Client, SaAuthenticator, Vouched, authenticate, authenticate_iff,
}
use jwtmint.Examples.{host, es256, public_key, ctx, text, Signed, parser, parser-ParserLaws}
use jwtmint.Examples.Guarding.{options, verifier, verifier_built}
use jwtmint.Examples.Admitting.{policy, alice, request}

abbrev asking : Webhook.Request String
asking = record { uid = "u-7"; user_info = alice; object = some request }

abbrev decide : Option (Option (Webhook.Request String)) → Webhook.Response
decide = validate (Admission.allow policy)

decide_made : Webhook.handler (some (Admission.allow policy)) ≡ some decide
unfolding Webhook.handler
decide_made = refl

handler_iff_example :
    (((decide (some (some asking))).allowed ≡ true) ↔ Admits policy asking asking.object)
    × ((decide (some (some asking))).uid ≡ asking.uid)
    × ((decide none).allowed ≡ false)
    × ((decide (some none)).allowed ≡ false)
handler_iff_example = handler_iff policy decide asking decide_made

abbrev opts : List (TokenReview.Opt ℤ)
opts = TokenReview.Opt.with_audiences ("api" ∷ []) ∷ []

abbrev cfg : Config ℤ
cfg = apply_to (default_user_info_mapper host) opts

abbrev review : Review
review = record { token = text; audiences = "web" ∷ [] }

abbrev reviewer : Context → Option Review → Reply
reviewer = serve verifier (close cfg)

reviewer_made : handler host (some verifier) opts ≡ some reviewer
unfolding handler
reviewer_made = refl

reviewed : (reviewer ctx (some review)).authenticated ≡ true
unfolding serve close apply_to default_user_info_mapper verify build_parser run_checks run_list
    key_func is_supported_family check_claims chain check_audience trim_space trim_left trim_right
    subject id audience groups read_string read_string_slice lookup to_map_claims
reviewed = refl

handler_sound_example :
    Authenticated Signed public_key options
      (asked (default_user_info_mapper host) opts)
      ctx
      review
      (reviewer ctx (some review))
handler_sound_example =
    handler_sound host parser Signed parser-ParserLaws es256 public_key options verifier opts
      reviewer ctx review verifier_built reviewer_made reviewed

abbrev later : List Review
later = record { token = "x"; audiences = "admin" ∷ [] } ∷ []

interleaved_lem_example :
    interleaved true verifier cfg ctx (record { token = text; audiences = "web" ∷ [] }) later []
    ≡ review_with verifier cfg ctx
        (record { token = text; audiences = "web" ∷ [] })
        (cfg.extra
          ++ audience_check (if true then last_audiences ("web" ∷ []) later else "web" ∷ []))
interleaved_lem_example = interleaved_lem true verifier cfg ctx text "web" [] later []

abbrev simple : Claims ℤ
simple = ("sub", str "alice") ∷ ("team", str "blue") ∷ []

abbrev simple_user : UserInfo
simple_user = user_of host simple

simple_mapped : default_user_info_mapper host simple ≡ ok simple_user
unfolding default_user_info_mapper subject id audience groups read_string read_string_slice lookup
simple_mapped = refl

simple-Distinct : Distinct simple
unfolding lookup
simple-Distinct = (refl, (refl, tt))

team_free : is_mapped "team" ≡ false
unfolding is_mapped
team_free = refl

team_found : lookup "team" simple ≡ some (str "blue")
unfolding lookup
team_found = refl

default_user_info_mapper_lem_example :
    (subject host simple ≡ ok simple_user.username)
    × (is_blank simple_user.username ≡ false)
    × Shows {F = ℤ} (str "blue") (lookup (extra_key "team") simple_user.extra)
default_user_info_mapper_lem_example =
    default_user_info_mapper_lem host simple simple_user "team" (str "blue") simple_mapped
      simple-Distinct team_free team_found

abbrev cluster : Client
cluster t auds = ok (record { authenticated = true; username = "system:serviceaccount:ci:runner" })

abbrev accounts : SaAuthenticator
accounts = record {
  client = cluster;
  allowed = "system:serviceaccount:ci:runner" ∷ [];
  audiences = "jwtmintd" ∷ [];
}

abbrev bearing : Request
bearing = record { header = ("Authorization", "Bearer sa-token") ∷ [] }

authenticate_iff_example : (authenticate accounts bearing ≡ none) ↔ (
    (rest : String) × (get_header "Authorization" bearing ≡ String.◌++◌ "Bearer " rest)
    × Vouched accounts (trim_space rest))
authenticate_iff_example = authenticate_iff accounts bearing
