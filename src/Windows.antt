-- ===== src/Windows.antt =====
-- The adapter to Windows, as far as it does not call Windows: the mapping of keys of
-- crates/zonkey-win/src/lib.rs, and the requests of crates/zonkey-win/src/pipe_transport.rs.
pub mod Keys
pub mod Messages
pub mod Client
pub mod Frames
pub mod Requests
pub mod Commands
pub mod Connection
