-- ===== src/Protocol.antt =====
-- talos-workflow-job-protocol/src/lib.rs: signed messages between the controller and the workers.
pub mod Nonce
pub mod Replay
pub mod Verify
pub mod Results
pub mod Once
pub mod Accepted
pub mod Vault
pub mod Providers
pub mod Signing
pub mod Bound
