-- ===== src/Ftp.antt =====
-- pkg/ftp: the FTP driver.
pub mod ConnectionTracker
pub mod Connections
pub mod AuthTracker
pub mod Login
pub mod Drives
pub mod Uploads
pub mod UploadSlots
pub mod Driver
