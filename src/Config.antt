-- ===== src/Config.antt =====
-- pkg/config: the configuration file's settings and what must hold of them.
pub mod Types
pub mod Sizes
pub mod Addresses
pub mod Passwords
pub mod Certificates
pub mod Credentials
pub mod Loading
pub mod HttpAuth
pub mod Validation
pub mod Valid
pub mod SizeBounds
