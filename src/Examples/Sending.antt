-- ===== src/Examples/Sending.antt =====
-- A client's tokens, from a file and from a cache.
use jwtmint.Prelude.{
  pos, ◌-ℤ◌, ltb_ℤ, String, ◌≡◌, ◌⊎◌, refl, true, false, none, some, List, [], ◌∷◌, In,
}
use jwtmint.Text.{is_blank, trim_space, trim_left, trim_right}
use jwtmint.Errors.{Result, ok}
use jwtmint.Time.{minus, seconds, zero_time}
use jwtmint.Auth.Bearer.{bearer_token}
use jwtmint.Auth.HttpAuth.{Request, default_token_source}
use jwtmint.Auth.GrpcAuth.{metadata_key_authorization}
use jwtmint.Auth.Client.{FileTokenSource, interval, file_token, round_trip, with_bearer}
use jwtmint.Auth.Client.Laws.{Call, run, Holds, file_token_fresh, round_trip-default_token_source}

abbrev source : FileTokenSource
source = record { path = "/token"; refresh_interval = pos 0; cached = ""; cached_at = zero_time }

abbrev calls : List Call
calls = record { now = seconds 1; done = seconds 2; content = some " a.b.c " } ∷ []

abbrev read_source : FileTokenSource
read_source = record source { cached = "a.b.c"; cached_at = seconds 2 }

token_served :
    file_token (run calls source) (seconds 4) (seconds 5) none ≡ (read_source, ok "a.b.c")
unfolding file_token run trim_space trim_left trim_right minus ◌-ℤ◌
token_served = refl

file_token_fresh_example :
    ((c : Call) × In c calls
      × Holds c.content "a.b.c"
      × (ltb_ℤ (minus (seconds 4) c.done) (interval source) ≡ true))
    ⊎ Holds none "a.b.c"
file_token_fresh_example =
    file_token_fresh calls source read_source (seconds 4) (seconds 5) none "a.b.c" refl token_served

abbrev echo : Request → Result Request
echo req = ok req

abbrev add_metadata : List (String × String) → String → String → List (String × String)
add_metadata md key value = (key, value) ∷ md

abbrev request : Request
request = record { header = ("Accept", "text/plain") ∷ [] }

round_trip-default_token_source_example :
    (sent : Request) × (round_trip echo (ok "a.b.c") request ≡ echo sent)
    × (default_token_source sent ≡ "a.b.c")
    × ((value : String) × (with_bearer add_metadata [] (ok "a.b.c")
          ≡ ok (add_metadata [] metadata_key_authorization value))
        × (bearer_token value ≡ "a.b.c"))
    × (is_blank "a.b.c" ≡ false)
round_trip-default_token_source_example =
    round_trip-default_token_source calls source read_source (seconds 4) (seconds 5) none "a.b.c"
      echo request add_metadata [] refl token_served
