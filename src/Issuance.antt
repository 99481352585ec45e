-- ===== src/Issuance.antt =====
-- internal/issuance/state.go: the issuer's durable state and its file.
pub mod State
pub mod FileStore
