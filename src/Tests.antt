-- ===== src/Tests.antt =====
-- Runs of the model on concrete inputs, and instances of the theorems.
pub mod Fixtures
pub mod Engine
mod Witnesses
mod Epoch
mod Contracts
