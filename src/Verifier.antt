-- ===== src/Verifier.antt =====
-- The attestation verifier, wcp_coordinator/attestation_verifier/.
pub mod Outcome
mod Required
pub mod Sensor
pub mod ThirdParty
pub mod Presence
pub mod OwnerSignoff
pub mod Registry
pub mod Threshold
pub mod Quorum
pub mod OrderFree
