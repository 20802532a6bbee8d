-- ===== src/Examples/Caching.antt =====
-- The remote cache of keys on a concrete history.
use jwtmint.Prelude.{◌+ℤ◌, ℕ, pos, ◌≡◌, ◌⊎◌, refl, true, false, none, some, List, [], ◌∷◌, In}
use jwtmint.Errors.{Result, ok, err, read}
use jwtmint.Dict.{lookup, has, insert}
use jwtmint.Time.{seconds, plus, before}
use jwtmint.Jwks.KeySet.{Jwk, KeySet, add, add_all, from_jwks}
use jwtmint.Jwks.Remote.{Response, Remote, do_fetch, fetch_locked, key_set}
use jwtmint.Jwks.Remote.Laws.{Call, run, key_set_fresh}
use jwtmint.Jwks.Remote.Cases.{Supplies}

abbrev first : Jwk ℕ
first = record { kid = "k1"; material = 7 }

abbrev second : Jwk ℕ
second = record { kid = "k2"; material = 9 }

abbrev keys : KeySet ℕ
keys = ("k1", first) ∷ ("k2", second) ∷ []

keys_made : from_jwks (first ∷ second ∷ []) ≡ ok keys
unfolding from_jwks add_all add has lookup insert
keys_made = refl

abbrev start : Remote ℕ
start = record {
  ttl = seconds 600;
  negative_ttl = seconds 30;
  ignore_cache_control = false;
  cached = none;
  expires_at = pos 0;
  last_err = none;
  err_at = pos 0;
}

-- A forced fetch that fails, behind one that succeeds.
abbrev calls : List (Call ℕ)
calls =
    record { forced = true; now = seconds 150; done = seconds 151; response = err (read ∷ []) }
    ∷ record {
      forced = false;
      now = seconds 100;
      done = seconds 101;
      response = ok (record { keys = first ∷ second ∷ []; max_age = some (seconds 300) });
    }
    ∷ []

abbrev lost : Result (Response ℕ)
lost = err (read ∷ [])

served : key_set (run calls start) (seconds 200) (seconds 201) lost ≡ (run calls start, ok keys)
unfolding key_set run fetch_locked do_fetch from_jwks add_all add has lookup insert ◌+ℤ◌
served = refl

key_set_fresh_example :
    ((c : Call ℕ) × In c calls
      × Supplies c.response keys
      × (before (seconds 200) (plus c.done (seconds 600)) ≡ true))
    ⊎ Supplies lost keys
key_set_fresh_example =
    key_set_fresh calls start (run calls start) (seconds 200) (seconds 201) lost keys refl served
