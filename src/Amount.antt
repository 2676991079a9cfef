-- ===== src/Amount.antt =====
-- Amounts of x402-xahau/server.mjs: native drops, and the exact decimal values of issued tokens.
pub mod Drops
pub mod Token
pub mod Currency
pub mod Issued
