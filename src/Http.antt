-- ===== src/Http.antt =====
-- pkg/http: the authentication of the administration endpoints.
pub mod Auth
pub mod Json
pub mod Health
pub mod Server
