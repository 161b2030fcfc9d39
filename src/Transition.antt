-- ===== src/Transition.antt =====
-- The entry points of src/transition.rs. No cache of modules and no memory limit
-- is set.
pub mod Outcome
pub mod Epoch
pub mod Upgrade
use pchain_runtime.Prelude.{ℕ, Bool, true, false, Option, some, List, [], ◌∷◌, if◌then◌else◌}
use pchain_runtime.Types.{Transaction, Command, BlockchainParams, txn_metadata}
use pchain_runtime.Types.Receipt.{CommandReceiptV1, CommandReceiptV2, ReceiptV2}
use pchain_runtime.Cache.World.{WorldState}
use pchain_runtime.State.{ExecutionState, new_state, new_context}
use pchain_runtime.Network.{NetworkAccount}
use pchain_runtime.NextEpoch.{execute_next_epoch_v1, execute_next_epoch_v2}
use pchain_runtime.Contract.Engine.{Engine}
use pchain_runtime.Executor.Wasm.{wasm_contracts}
use pchain_runtime.Executor.{Transition, execute_commands_v1, execute_commands_v2}

unfoldable pub has_next_epoch : List Command → Bool
has_next_epoch [] = false
has_next_epoch (Command.next_epoch ∷ _) = true
has_next_epoch (_ ∷ cs) = has_next_epoch cs

module _ {WS : Type 0} ⦃t : WorldState WS⦄ ⦃net : NetworkAccount⦄ where
  unfoldable pub initial_state :
      {E : Type 0} → WS → Transaction → BlockchainParams → ExecutionState WS E
  unfolding txn_metadata new_context new_state
  initial_state ws tx bd =
      let txn_meta = txn_metadata tx in
      new_state txn_meta bd (new_context txn_meta.version ws tx.gas_limit)

module _ {M WS : Type 0} ⦃t : WorldState WS⦄ ⦃net : NetworkAccount⦄ where
  unfoldable pub transition_v1 :
      Engine M
      → ℕ
      → WS
      → Transaction
      → BlockchainParams
      → Option (Option (Transition WS (List CommandReceiptV1)))
  unfolding initial_state execute_commands_v1 execute_next_epoch_v1 wasm_contracts has_next_epoch
  transition_v1 engine fuel ws tx bd =
      let state = initial_state ws tx bd in
      if has_next_epoch tx.commands
      then some (execute_next_epoch_v1 state tx.commands)
      else execute_commands_v1 (wasm_contracts engine) fuel state tx.commands

  unfoldable pub transition_v2 :
      Engine M → ℕ → WS → Transaction → BlockchainParams → Option (Option (Transition WS ReceiptV2))
  unfolding initial_state execute_commands_v2 execute_next_epoch_v2 wasm_contracts has_next_epoch
  transition_v2 engine fuel ws tx bd =
      let state = initial_state ws tx bd in
      if has_next_epoch tx.commands
      then some (execute_next_epoch_v2 state tx.commands)
      else execute_commands_v2 (wasm_contracts engine) fuel state tx.commands
