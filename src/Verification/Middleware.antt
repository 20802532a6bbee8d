-- ===== src/Verification/Middleware.antt =====
-- verification/middleware.go: the composition of verifier middleware.
use mathlib.Core.List.{reverse, reverse-cons, reverse-append}
use jwtmint.Prelude.{◌≡◌, refl, Option, none, some, List, [], ◌∷◌, ◌++◌}

-- verification.Middleware, over verifiers `V`; a nil one is `none`.
abbrev pub Middleware : Type 0 → Type 0
Middleware V = V → V

module _ {V : Type 0} where
  -- The loop of Chain, over the middleware from the last to the first.
  unfoldable pub chain_loop : List (Option (Middleware V)) → V → V
  chain_loop [] v = v
  chain_loop (none ∷ mws) v = chain_loop mws v
  chain_loop (some mw ∷ mws) v = chain_loop mws (mw v)

  -- verification.Chain
  unfoldable pub chain : List (Option (Middleware V)) → Middleware V
  unfolding chain_loop
  chain mws v = chain_loop (reverse mws) v

  chain_loop-append :
      (xs ys : List (Option (Middleware V))) (v : V)
      → chain_loop (xs ++ ys) v ≡ chain_loop ys (chain_loop xs v)
  unfolding chain_loop
  chain_loop-append [] ys v = refl
  chain_loop-append (none ∷ xs) ys v = chain_loop-append xs ys v
  chain_loop-append (some mw ∷ xs) ys v = chain_loop-append xs ys (mw v)

  -- A chain of two lists of middleware is the chain of the first around the chain of the second.
  pub chain-append :
      (xs ys : List (Option (Middleware V))) (v : V) → chain (xs ++ ys) v ≡ chain xs (chain ys v)
  unfolding chain
  chain-append xs ys v = rw (reverse-append, chain_loop-append)

  -- In a chain of middleware the first that is not nil is outermost, and a nil one does nothing.
  pub chain-cons :
      (mw : Middleware V) (mws : List (Option (Middleware V))) (v : V)
      → (chain (some mw ∷ mws) v ≡ mw (chain mws v)) × (chain (none ∷ mws) v ≡ chain mws v)
  unfolding chain
  chain-cons mw mws v =
      (rw (reverse-cons, chain_loop-append) refl, rw (reverse-cons, chain_loop-append) refl)
