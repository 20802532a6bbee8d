-- ===== src/Verification/Single.antt =====
-- verification/verification.go: the verifier with one key.
pub mod Laws
use jwtmint.Prelude.{Option, none, some, List, [], ◌∷◌, if◌then◌else◌}
use jwtmint.Text.{is_blank}
use jwtmint.Errors.{Result, ok, err, ◌>>=◌, map_err, invalid_value}
use jwtmint.Token.{Method, PublicKey}
use jwtmint.Keys.{public_key_func}
use jwtmint.Verification.Base.{Parser, Verifier, verify}
use jwtmint.Verification.Options.{Opt, apply_opts}

module _ {F : Type 0} (parser : Parser F) where
  -- verification.NewVerifier
  unfoldable pub new_verifier :
      Option Method → Option PublicKey → List (Opt F) → Result (Verifier F)
  new_verifier none public_key opts = err (invalid_value ∷ [])
  new_verifier (some method) public_key opts =
      if is_blank method.alg
      then err (invalid_value ∷ [])
      else (map_err (λ e. invalid_value ∷ e) (public_key_func (some method) public_key)
          >>= λ key_func.
              apply_opts (method.alg ∷ []) opts >>= λ base. ok (verify parser base key_func))
