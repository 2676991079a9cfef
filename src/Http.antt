-- ===== src/Http.antt =====
-- The HTTP server of x402-xahau/server.mjs.
pub mod Body
pub mod Auth
pub mod Health
pub mod Request
pub mod Guards
pub mod Routes
