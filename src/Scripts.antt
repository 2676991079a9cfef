-- ===== src/Scripts.antt =====
-- The scripts of scripts/ that check what a Hook emits.
pub mod Emit
pub mod EmitVm
