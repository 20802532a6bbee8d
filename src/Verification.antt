-- ===== src/Verification.antt =====
-- Package verification (verification/): the single-key and the multi-key verifier, their options, the
-- checks on tokens, and middleware.
pub mod Base
pub mod Options
pub mod Single
pub mod MultiKey
pub mod Checks
pub mod Middleware
