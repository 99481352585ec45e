-- ===== src/Manifest.antt =====
-- internal/manifest: the signed server catalog, its key policy, and the client's verification.
pub mod Types
pub mod Fault
pub mod KeyPolicy
pub mod Validate
pub mod Transition
pub mod Canonical
pub mod Envelope
pub mod Client
