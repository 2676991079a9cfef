-- ===== src/Demo.antt =====
-- The programs of x402-xahau/demo: the facilitator on the test network, the resource server that sells
-- content through a facilitator, and the agent that pays for it.
pub mod Facilitator
pub mod Resource
pub mod Market
pub mod Agent
