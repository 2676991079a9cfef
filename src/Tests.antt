-- ===== src/Tests.antt =====
-- Runs on concrete inputs: the theorems of the other modules at payments to one receiver.
pub mod Samples
pub mod Settling
pub mod Amounts
pub mod Parts
pub mod Receipts
pub mod Rates
pub mod Serving
pub mod Policies
pub mod Stopping
pub mod Shared
pub mod Market
pub mod Racing
pub mod Demos
