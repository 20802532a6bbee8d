-- ===== src/Claims.antt =====
-- Package claims (claims/): what a claim may hold, the reading and writing of claims, their copies,
-- and the checks on them. A `jwt.MapClaims` is a map from claim names to values.
pub mod Value
pub mod Copy
pub mod Keys
pub mod Timestamp
pub mod Read
pub mod Registered
pub mod Profile
pub mod Matching
pub mod Checks
