-- ===== src/Storage.antt =====
-- crates/server/src: what the server keeps on disk, apart from the saved workorders.
pub mod Blobs
pub mod Samples
pub mod Cleanup
