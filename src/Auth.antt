-- ===== src/Auth.antt =====
-- internal/auth: rate limiting, pairing tokens, device keys and the middleware.
pub mod RateLimit
pub mod Pairing
pub mod Device
pub mod Middleware
pub mod CloudSession
