-- ===== src/Examples/Revoking.antt =====
-- The denylist and the chain of revokers on concrete inputs.
use jwtmint.Prelude.{ℤ, ◌≤ℤ◌, ◌+◌, ◌≡◌, ◌↔◌, some, true, refl, false, List, [], ◌∷◌, arith}
use jwtmint.Errors.{ok}
use jwtmint.Dict.{lookup}
use jwtmint.Time.{seconds}
use jwtmint.Revocation.{Revoker, MemRevoker, jti_extractor, len, cleanup, key_revoked}
use jwtmint.Revocation.Laws.{Stands, InForce, key_revoked-cleanup, cleanup_lem}
use jwtmint.Revocation.History.{
  Op, revoke_until_op, revoke_op, unrevoke_op, cleanup_op, last_word, run, key_revoked-run,
}
use jwtmint.Examples.{host}

abbrev start : MemRevoker ℤ
start = record { revoked = []; key_fn = jti_extractor host; clock = λ t. t }

abbrev ops : List Op
ops =
    cleanup_op (seconds 5) ∷ unrevoke_op "b" ∷ revoke_until_op "a" (seconds 9) ∷ revoke_op "b" ∷ []

before_seven : seconds 5 ≤ℤ seconds 7
before_seven = ground arith

key_revoked-run_example :
    (key_revoked (run ops start) (seconds 7) "a" ≡ true) ↔ Stands (seconds 7) (last_word ops "a")
key_revoked-run_example = key_revoked-run start (seconds 7) "a" ops refl (before_seven, tt)

abbrev two_keys : MemRevoker ℤ
two_keys = record start { revoked = ("a", seconds 3) ∷ ("b", seconds 9) ∷ [] }

key_revoked-cleanup_example :
    key_revoked (cleanup (seconds 5) two_keys).0 (seconds 7) "a"
    ≡ key_revoked two_keys (seconds 7) "a"
unfolding lookup
key_revoked-cleanup_example =
    key_revoked-cleanup two_keys (seconds 7) "a" (seconds 5) (refl, (refl, tt)) before_seven

cleanup_lem_example :
    (len (cleanup (seconds 5) two_keys).0 + (cleanup (seconds 5) two_keys).1 ≡ len two_keys)
    × ((lookup "b" (cleanup (seconds 5) two_keys).0.revoked ≡ some (seconds 9))
        ↔ ((lookup "b" two_keys.revoked ≡ some (seconds 9)) × InForce (seconds 5) (seconds 9)))
unfolding lookup
cleanup_lem_example = cleanup_lem (seconds 5) two_keys "b" (seconds 9) (refl, (refl, tt))

abbrev clean : Revoker ℤ
clean c t = ok false
