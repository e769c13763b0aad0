-- ===== src/Spool.antt =====
-- pkg/spool: the uploads into the local spool.
pub mod Types
pub mod UploadManager
pub mod Files
pub mod Streaming
