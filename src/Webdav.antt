-- ===== src/Webdav.antt =====
-- pkg/webdav: the client of the WebDAV server.
pub mod Types
pub mod Paths
pub mod Client
