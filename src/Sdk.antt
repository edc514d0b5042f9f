-- ===== src/Sdk.antt =====
-- wcp_sdk_python/wcp_sdk: the identities, the typed objects and the calls of the sessions.
pub mod Types
pub mod Identity
pub mod Codec
pub mod Calls
pub mod Bindings
pub mod Signatures
pub mod Accepted
pub mod Client
