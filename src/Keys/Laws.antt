-- ===== src/Keys/Laws.antt =====
-- What a key function that PublicKeyFunc returns hands out.
use jwtmint.Prelude.{
  String, ◌≡◌, refl, [], ◌∷◌, inl, inr, Bool-cases, true, false, Option, none, some, arith, eq_iff,
}
use jwtmint.Text.{is_blank}
use jwtmint.Errors.{ok, err, invalid_value, invalid_type}
use jwtmint.Token.{Method, PublicKey, Token, Keyfunc}
use jwtmint.Keys.{is_supported_key, is_supported_family, key_func, public_key_func}

module _ {F : Type 0} where
  -- A key comes out only for a token of the expected algorithm, which is not empty, with a method of
  -- a supported family; and it is the key that was given.
  pub key_func_sound :
      (expected : String) (public_key key : PublicKey) (token : Token F)
      → key_func expected public_key token ≡ ok key
      → (token.method.alg ≡ expected)
        × (is_supported_family token.method.family ≡ true)
        × (key ≡ public_key)
  unfolding key_func
  key_func_sound expected public_key key token e = ground (arith, eq_iff token.method.alg expected)

  pub public_key_func_sound :
      (method : Option Method) (public_key : Option PublicKey) (kf : Keyfunc F)
      → public_key_func method public_key ≡ ok kf
      → (m : Method) × (p : PublicKey) × (method ≡ some m)
        × (public_key ≡ some p)
        × (is_supported_key p ≡ true)
        × (is_blank m.alg ≡ false)
        × (kf ≡ key_func m.alg p)
  unfolding public_key_func
  public_key_func_sound none public_key kf e = cc
  public_key_func_sound (some m) none kf e = cc
  public_key_func_sound (some m) (some p) kf e = elim (Bool-cases (is_blank m.alg)) [
    | inl t ↦ let f : err (invalid_value ∷ []) ≡ ok kf = rw t at e in cc
    | inr t ↦ elim (Bool-cases (is_supported_key p)) [
      | inl u ↦
          let f : ok (key_func m.alg p) ≡ ok kf = rw (t, u) at e in (m, p, refl, refl, u, t, cc)
      | inr u ↦ let f : err (invalid_type ∷ []) ≡ ok kf = rw (t, u) at e in cc
    ]
  ]
