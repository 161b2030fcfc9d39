-- ===== src/View.antt =====
-- View calls: src/execution/execute_view.rs, and the entry points `view_v1` and `view_v2` of
-- src/transition.rs. `none` stands for a panic.
pub mod Outcome
use pchain_runtime.Prelude.{ℕ, true, Option, none, some, List, [], zero, suc, ◌∷◌}
use pchain_runtime.Error.{TransitionError, Result, ok, err, panic}
use pchain_runtime.Types.{PublicAddress, Bytes, TxnVersion, TxnMetadata, BlockchainParams}
use pchain_runtime.Types.Receipt.{CommandReceiptV1, CommandReceiptV2}
use pchain_runtime.Cache.World.{WorldState}
use pchain_runtime.Cache.Receipt.{ExecutionResult, exit_code_of_v1, exit_code_of_v2}
use pchain_runtime.State.{ExecutionState, new_state, new_context, complete_cmd_execution}
use pchain_runtime.Network.{NetworkAccount}
use pchain_runtime.Contract.Engine.{Engine}
use pchain_runtime.Commands.Contract.{call}

abbrev zeros : ℕ → Bytes
zeros zero = []
zeros (suc n) = 0 ∷ zeros n

-- A hash of 32 zeros.
abbrev zero_hash : Bytes
zero_hash = zeros 32

-- The dummies of a view: the defaults, but for the gas limit.
abbrev pub dummy_txn_meta : ℕ → TxnMetadata
dummy_txn_meta gas_limit = record {
  hash = zero_hash;
  version = TxnVersion.v1;
  command_kinds = [];
  signer = 0;
  nonce = 0;
  gas_limit = gas_limit;
  priority_fee_per_gas = 0;
  size = 0;
}

abbrev pub dummy_bd : BlockchainParams
dummy_bd = record {
  this_block_number = 0;
  prev_block_hash = zero_hash;
  timestamp = 0;
  this_base_fee = 0;
  proposer_address = 0;
  treasury_address = 0;
  validator_performance = none;
}

-- The state that a view runs in, of version 1 for either kind of receipt.
unfoldable pub view_state : {WS E : Type 0} → WS → ℕ → ExecutionState WS E
unfolding new_state new_context
view_state ws gas_limit =
    let ctx = new_context TxnVersion.v1 ws gas_limit in
    new_state (dummy_txn_meta gas_limit) dummy_bd ctx

module _ {WS : Type 0} where
  abbrev ended_v1 :
      ExecutionResult
      → ExecutionState WS CommandReceiptV1
      → CommandReceiptV1 × Option TransitionError
  ended_v1 error state =
      let (completed, ctx) = complete_cmd_execution state.ctx in
      (
        record {
          exit_code = exit_code_of_v1 error;
          gas_used = completed.0;
          return_values = completed.1.return_value;
          logs = completed.1.logs;
        },
        error,
      )

  abbrev pub ended_v2 :
      ExecutionResult
      → ExecutionState WS CommandReceiptV2
      → CommandReceiptV2 × Option TransitionError
  ended_v2 error state =
      let (completed, ctx) = complete_cmd_execution state.ctx in
      (
        CommandReceiptV2.call (exit_code_of_v2 error) completed.0 completed.1.logs
            completed.1.return_value,
        error,
      )

  -- The receipt and the error that a view ends with.
  unfoldable pub view_receipt_v1 :
      Result (Unit {0})
      → ExecutionState WS CommandReceiptV1
      → Option (CommandReceiptV1 × Option TransitionError)
  unfolding complete_cmd_execution exit_code_of_v1
  view_receipt_v1 panic state = none
  view_receipt_v1 (ok _) state = some (ended_v1 none state)
  view_receipt_v1 (err error) state = some (ended_v1 (some error) state)

  unfoldable pub view_receipt_v2 :
      Result (Unit {0})
      → ExecutionState WS CommandReceiptV2
      → Option (CommandReceiptV2 × Option TransitionError)
  unfolding complete_cmd_execution exit_code_of_v2
  view_receipt_v2 panic state = none
  view_receipt_v2 (ok _) state = some (ended_v2 none state)
  view_receipt_v2 (err error) state = some (ended_v2 (some error) state)

module _ {M WS : Type 0} (engine : Engine M) ⦃t : WorldState WS⦄ ⦃net : NetworkAccount⦄ where
  unfoldable pub execute_view_v1 :
      ExecutionState WS CommandReceiptV1
      → PublicAddress
      → Bytes
      → Option (List Bytes)
      → Option (CommandReceiptV1 × Option TransitionError)
  unfolding call view_receipt_v1
  execute_view_v1 state target method arguments =
      let (result, s) = call engine true target method arguments none state in
      view_receipt_v1 result s

  unfoldable pub execute_view_v2 :
      ExecutionState WS CommandReceiptV2
      → PublicAddress
      → Bytes
      → Option (List Bytes)
      → Option (CommandReceiptV2 × Option TransitionError)
  unfolding call view_receipt_v2
  execute_view_v2 state target method arguments =
      let (result, s) = call engine true target method arguments none state in
      view_receipt_v2 result s

  unfoldable pub view_v1 :
      WS
      → ℕ
      → PublicAddress
      → Bytes
      → Option (List Bytes)
      → Option (CommandReceiptV1 × Option TransitionError)
  unfolding execute_view_v1 view_state
  view_v1 ws gas_limit target method arguments =
      execute_view_v1 (view_state ws gas_limit) target method arguments

  unfoldable pub view_v2 :
      WS
      → ℕ
      → PublicAddress
      → Bytes
      → Option (List Bytes)
      → Option (CommandReceiptV2 × Option TransitionError)
  unfolding execute_view_v2 view_state
  view_v2 ws gas_limit target method arguments =
      execute_view_v2 (view_state ws gas_limit) target method arguments
