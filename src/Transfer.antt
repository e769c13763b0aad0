-- ===== src/Transfer.antt =====
-- pkg/transfer: path mapping, collision handling and directory creation for uploads.
pub mod Types
pub mod Paths
pub mod Collisions
pub mod Directories
pub mod Upload
pub mod Containment
