-- ===== src/Transport.antt =====
-- crates/zonkey-service/src/transport.rs: frames, the ledger of requests and the endpoint of a
-- session, and the requests made of handoffs.
pub mod Frame
pub mod Ledger
pub mod Endpoint
pub mod Request
