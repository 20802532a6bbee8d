-- ===== src/Signing/Method/Laws.antt =====
-- Which methods signing.SigningMethod returns.
use jwtmint.Prelude.{
  String, ◌≡◌, ◌↔◌, ◌⊎◌, ◌==◌, inl, inr, refl, sym, [], ◌∷◌, eq_iff, Bool-cases, if◌then◌else◌,
}
use jwtmint.Text.{is_blank}
use jwtmint.Errors.{Result, ok, ok-injective, if-eq-ok, invalid_method}
use jwtmint.Token.{ecdsa, rsa, rsa_pss, ed25519, Method}
use jwtmint.Signing.Method.{
  es256, es384, es512, rs256, rs384, rs512, ps256, ps384, ps512, ed_dsa, signing_method,
}

-- RFC 7518 and RFC 8037: the asymmetric algorithms, each with its family and the bits of its curve.
abbrev pub Asymmetric : String → Method → Type 0
Asymmetric alg m =
    ((alg ≡ "ES256") × (m ≡ record { family = ecdsa; alg = "ES256"; curve_bits = 256 }))
    ⊎ ((alg ≡ "ES384") × (m ≡ record { family = ecdsa; alg = "ES384"; curve_bits = 384 }))
    ⊎ ((alg ≡ "ES512") × (m ≡ record { family = ecdsa; alg = "ES512"; curve_bits = 521 }))
    ⊎ ((alg ≡ "RS256") × (m ≡ record { family = rsa; alg = "RS256"; curve_bits = 0 }))
    ⊎ ((alg ≡ "RS384") × (m ≡ record { family = rsa; alg = "RS384"; curve_bits = 0 }))
    ⊎ ((alg ≡ "RS512") × (m ≡ record { family = rsa; alg = "RS512"; curve_bits = 0 }))
    ⊎ ((alg ≡ "PS256") × (m ≡ record { family = rsa_pss; alg = "PS256"; curve_bits = 0 }))
    ⊎ ((alg ≡ "PS384") × (m ≡ record { family = rsa_pss; alg = "PS384"; curve_bits = 0 }))
    ⊎ ((alg ≡ "PS512") × (m ≡ record { family = rsa_pss; alg = "PS512"; curve_bits = 0 }))
    ⊎ ((alg ≡ "EdDSA") × (m ≡ record { family = ed25519; alg = "EdDSA"; curve_bits = 0 }))

-- A case of the switch is taken, or the rest decides.
case_taken :
    (alg name : String) (method m : Method) (rest : Result Method) {Rest : Type 0}
    → (rest ≡ ok m → Rest)
    → (if alg == name then ok method else rest) ≡ ok m
    → ((alg ≡ name) × (m ≡ method)) ⊎ Rest
case_taken alg name method m rest next h = elim (Bool-cases (alg == name)) [
  | inl same ↦ inl ((eq_iff alg name).0 same, sym (ok-injective (rw same at h)))
  | inr other ↦ inr (next (rw other at h))
]

signing_method_sound : (alg : String) (m : Method) → signing_method alg ≡ ok m → Asymmetric alg m
unfolding signing_method
signing_method_sound alg m h =
    let (named, found) = if-eq-ok (is_blank alg) (invalid_method ∷ []) _ h in
    case_taken alg "ES256" es256 m _
      (λ h_es256.
        case_taken alg "ES384" es384 m _
          (λ h_es384.
            case_taken alg "ES512" es512 m _
              (λ h_es512.
                case_taken alg "RS256" rs256 m _
                  (λ h_rs256.
                    case_taken alg "RS384" rs384 m _
                      (λ h_rs384.
                        case_taken alg "RS512" rs512 m _
                          (λ h_rs512.
                            case_taken alg "PS256" ps256 m _
                              (λ h_ps256.
                                case_taken alg "PS384" ps384 m _
                                  (λ h_ps384.
                                    case_taken alg "PS512" ps512 m _
                                      (λ h_ps512.
                                        elim (case_taken alg "EdDSA" ed_dsa m _ {Rest = ⊥} (λ k. cc)
                                          h_ps512) [
                                            | inl taken ↦ taken
                                            | inr none_left ↦ absurd none_left
                                          ])
                                      h_ps384)
                                  h_ps256)
                              h_rs512)
                          h_rs384)
                      h_rs256)
                  h_es512)
              h_es384)
          h_es256)
      found

-- SigningMethod returns a method exactly for the name of one of the ten asymmetric algorithms,
-- and it is the method of that name's family and curve.
pub signing_method_iff :
    (alg : String) (m : Method) → (signing_method alg ≡ ok m) ↔ Asymmetric alg m
unfolding signing_method
signing_method_iff alg m = (
  λ h. signing_method_sound alg m h,
  λ r. elim r [
    | inl (e, f) ↦ rw (e, f) refl
    | inr r0 ↦ elim r0 [
      | inl (e, f) ↦ rw (e, f) refl
      | inr r1 ↦ elim r1 [
        | inl (e, f) ↦ rw (e, f) refl
        | inr r2 ↦ elim r2 [
          | inl (e, f) ↦ rw (e, f) refl
          | inr r3 ↦ elim r3 [
            | inl (e, f) ↦ rw (e, f) refl
            | inr r4 ↦ elim r4 [
              | inl (e, f) ↦ rw (e, f) refl
              | inr r5 ↦ elim r5 [
                | inl (e, f) ↦ rw (e, f) refl
                | inr r6 ↦ elim r6 [
                  | inl (e, f) ↦ rw (e, f) refl
                  | inr r7 ↦ elim r7 [
                    | inl (e, f) ↦ rw (e, f) refl
                    | inr r8 ↦ let (e, f) = r8 in rw (e, f) refl
                  ]
                ]
              ]
            ]
          ]
        ]
      ]
    ]
  ],
)
