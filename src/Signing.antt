-- ===== src/Signing.antt =====
-- Package signing (signing/): the minting of tokens.
pub mod Method
pub mod Mint
pub mod Signer
