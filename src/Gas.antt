-- ===== src/Gas.antt =====
-- Gas: src/gas.
pub mod CostChange
pub mod Constants
pub mod Operations
pub mod Meter
