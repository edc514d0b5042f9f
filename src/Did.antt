-- ===== src/Did.antt =====
-- wcp_coordinator/did_resolver.py: identifiers that carry a public key, and their base 58 texts.
pub mod Base58
pub mod Bytes
pub mod Digits
pub mod RoundTrip
pub mod Resolve
pub mod Identifiers
