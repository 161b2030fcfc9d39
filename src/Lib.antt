-- ===== src/Lib.antt =====
-- The runtime of ParallelChain: the function that takes a world state, a transaction and the
-- parameters of a block to the next world state and a receipt.
--
-- A transaction is pre-charged for all the gas it may use, its commands are run one after the other
-- over a cache of the world state, each with the commands that contracts defer, and the signer is
-- refunded for the unused gas. An error drops the pending changes of the whole transaction; the
-- charge happens all the same. At the end the cache is committed.
--
-- Parts, with the files of the repository that they model:
--   Types, Types/Receipt: src/types.rs, and the data of pchain_types that the runtime reads.
--   Error: src/error.rs, and Rust's results. A panic is an outcome of its own.
--   Word: the saturating and checked operations on u64. The build has overflow checks on, so that
--     an overflow of a plain operator is a panic.
--   HashMap: the maps that hold the reads and the writes of a cache, as association lists.
--   Cache/Data, Cache/World: src/execution/cache/world_state_cache.rs. The world state below
--     (pchain_world_state) is the interface `WorldState`, its documented behaviour
--     `WorldStateLaws`, with an instance in memory (Cache/World/Interface).
--   Cache/Output, Cache/Receipt: src/execution/cache/output_buffer.rs and receipt_buffer.rs.
--   Gas/CostChange, Gas/Constants, Gas/Operations, Gas/Meter: src/gas/.
--   State: src/context.rs and src/execution/state.rs.
--   Execution: a command as a function from the state to a result and a state, with the macro
--     `abort!` (src/execution/abort.rs); Execution/Behaves has one rule for each way to build one.
--   Network: the network account of pchain_world_state, whose functions are programs over a storage;
--     the gas meter is the storage that the commands run them on.
--   Commands: src/commands/account.rs (Commands/Account, Commands/Contract), all of
--     src/commands/staking.rs.
--   Contract: src/contract/ and src/gas/wasmer_gas.rs. The Wasm engine is the interface `Engine`
--     (Contract/Engine): a contract is a tree of what it does, instructions for gas and calls of host
--     functions, each with the memory at that time and what follows for each answer. Host: the state
--     that a host function sees. Memory: the writing of bytes through the allocation of the contract,
--     which runs in the middle of a host function; a pointer out of range is a panic, and so is a
--     host function that the allocation calls and that needs the lock its caller holds, which in the
--     program never returns. Operations: the gas meter of host functions. Functions, Call: the
--     host functions, internal calls in Call. Run: the running of a tree.
--   Phases: src/execution/execute_commands/phases.rs.
--   Rewards: src/rewards_formulas.rs, the table of the issuance in Rewards/Table.
--   Protocol: the next epoch of src/commands/protocol.rs, as a program over the network account that
--     may panic (Protocol/Program), run on the world state cache with no gas (Protocol/Cache).
--   View: src/execution/execute_view.rs and the views of src/transition.rs.
--   Executor: src/execution/execute.rs and src/execution/execute_commands/executor.rs.
--   NextEpoch: src/execution/execute_next_epoch.rs.
--   Transition: src/transition.rs, the transition from V1 to V2 in Transition/Upgrade.
--   Tests: a concrete world state, network account and contracts, and instances of the theorems.
--
-- Bounds and fuel. The loop over the commands (`run_commands`) runs on fuel, one unit for each
-- command taken from the stack and one to find it empty. A deferred command defers none, so the
-- commands and those they defer are finitely many. A contract (`run_wasm`) runs on one unit of fuel
-- for each depth of internal calls, as many as its gas limit and one more: a call of a host function
-- costs at least a point, so that a child has less gas than its parent.
--
-- Not modelled: the compilation, the cache and the validation of Wasm modules, the layout of the
-- memory of an instance and the prices of Wasm operators, which are the engine's
-- (src/contract/wasmer/, src/contract/module.rs, `wasm_opcode_gas_schedule` of
-- src/gas/constants.rs). Every value written to a memory has fewer than 2^32 bytes. No cache of
-- modules and no memory limit is set. The upgrade of a world state from V1 to V2 is a parameter
-- (pchain_world_state).
pub mod Prelude
pub mod Word
pub mod HashMap
pub mod Types
pub mod Error
pub mod Cache
pub mod Gas
pub mod State
pub mod Execution
pub mod Network
pub mod Commands
pub mod Rewards
pub mod Contract
pub mod Protocol
pub mod Phases
pub mod Executor
pub mod NextEpoch
pub mod Transition
pub mod View
pub mod Tests
