-- ===== src/Store.antt =====
-- The replay store of x402-xahau/server.mjs: the window of a binding, and InMemoryStore. Times are
-- milliseconds since the epoch; each method takes the clock reading that it uses.
pub mod Dict
pub mod Window
pub mod Memory
pub mod Interface
pub mod Redis
