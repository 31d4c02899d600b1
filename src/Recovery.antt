-- ===== src/Recovery.antt =====
-- What is kept of requests whose outcome is uncertain: the registry of
-- crates/zonkey-service/src/transport.rs, the format of crates/zonkey-service/src/recovery_codec.rs and
-- the store of crates/zonkey-win/src/recovery_store.rs.
pub mod Sha256
pub mod Target
pub mod Codec
pub mod Registry
pub mod Files
pub mod Store
