-- ===== src/Server.antt =====
-- crates/server/src: the shared state of the server and the operations on it.
pub mod State
pub mod Config
pub mod Submit
pub mod Cancel
pub mod Queue
pub mod Evict
pub mod Restart
pub mod System
pub mod Samples
