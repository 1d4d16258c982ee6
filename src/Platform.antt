-- ===== src/Platform.antt =====
-- What the modelled code takes from outside the repository, as parameters: floating-point
-- arithmetic and `math`, the zones of `zoneinfo`, the random generator behind `uuid4`, SHA-256, the
-- signing and verification of tokens by `jwt`, and what other transactions commit while this one
-- waits for a row lock.
pub mod Doubles
pub mod Zones
pub mod Uuids
pub mod Jwt
