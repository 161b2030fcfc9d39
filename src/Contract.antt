-- ===== src/Contract.antt =====
-- Contracts: src/contract/. The Wasm engine (the crate wasmer), the deserialization and the hashes are
-- the interface `Engine`; no cache of compiled modules is set.
pub mod Engine
pub mod Host
pub mod Memory
pub mod Operations
pub mod Functions
pub mod Call
pub mod Run
pub mod Steps
pub mod Charged
pub mod Written
pub mod Frame
pub mod Runs
pub mod Wasm
pub mod Fuel
