-- ===== src/Boot.antt =====
-- What x402-xahau/server.mjs connects to and checks before it serves: the pooled client of the ledger,
-- the store, and the configuration.
pub mod Connect
pub mod Config
pub mod Shutdown
