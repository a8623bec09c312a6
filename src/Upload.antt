-- ===== src/Upload.antt =====
-- The upload of snapshot blobs: its chunk frames and the client's choice of chunk sizes.
pub mod ChunkPolicy
pub mod Frame
pub mod Session
pub mod Stream
