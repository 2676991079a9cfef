-- ===== src/Rate.antt =====
-- The rate limiters of x402-xahau/server.mjs: a token bucket for each client, in memory
-- (InMemoryRateLimiter) or in Redis (REDIS_TOKEN_BUCKET_LUA and RedisRateLimiter).
pub mod Script
pub mod Memory
pub mod Redis
