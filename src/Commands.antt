-- ===== src/Commands.antt =====
-- The commands of src/commands.
pub mod Account
pub mod Power
pub mod Contract
pub mod Staking
pub mod Behaves
