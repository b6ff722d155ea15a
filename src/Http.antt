-- ===== src/Http.antt =====
-- The HTTP library, mytinyhttpd/http.
pub mod Request
pub mod Context
pub mod Response
pub mod Server
