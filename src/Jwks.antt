-- ===== src/Jwks.antt =====
-- Package jwks: the keys of a key set and their encoding, the set of keys by kid, and the cache of a set
-- that is fetched.
pub mod KeySet
pub mod Codec
pub mod Remote
