-- ===== src/State.antt =====
-- `TransitionContext` (src/context.rs), `ExecutionState` and the trait `FinalizeState`
-- (src/execution/state.rs). The contract context (module cache, memory limit) is configuration
-- that no modelled operation changes.
use pchain_runtime.Prelude.{ℕ, Option, none, some, List, [], ◌∷◌, ◌++◌}
use pchain_runtime.Types.{
  TxnVersion, TxnMetadata, BlockchainParams, CommandKind, CommandOutput, DeferredCommand,
}
use pchain_runtime.Cache.World
use pchain_runtime.Cache.World.{WorldState, WorldStateCache}
use pchain_runtime.Cache.Receipt.{
  ReceiptFormat, ExecutionResult, Buffer, push_command_receipt, push_deferred_command_receipt,
}
use pchain_runtime.Gas.Meter
use pchain_runtime.Gas.Meter.{GasMeter}

pub record TransitionContext (WS : Type 0) : Type 0 where
  pub deferred_commands : List DeferredCommand
  pub gas_meter : GasMeter WS

pub record ExecutionState (WS E : Type 0) : Type 0 where
  pub txn_meta : TxnMetadata
  pub bd : BlockchainParams
  pub ctx : TransitionContext WS
  pub receipt : Buffer E

-- `TransitionContext::new`.
unfoldable pub new_context : {WS : Type 0} → TxnVersion → WS → ℕ → TransitionContext WS
unfolding World.new Meter.new
new_context version ws gas_limit = record {
  deferred_commands = [];
  gas_meter = Meter.new version (World.new ws) gas_limit;
}

-- `ExecutionState::new`.
unfoldable pub new_state :
    {WS E : Type 0} → TxnMetadata → BlockchainParams → TransitionContext WS → ExecutionState WS E
new_state txn_meta bd ctx = record { txn_meta = txn_meta; bd = bd; ctx = ctx; receipt = [] }

-- `(!self.deferred_commands.is_empty()).then_some(..)`
abbrev non_empty_commands : List DeferredCommand → Option (List DeferredCommand)
non_empty_commands [] = none
non_empty_commands (d ∷ ds) = some (d ∷ ds)

module _ {WS : Type 0} where
  unfoldable pub append_deferred_command :
      DeferredCommand → TransitionContext WS → TransitionContext WS
  append_deferred_command cmd ctx = record ctx {
    deferred_commands = ctx.deferred_commands ++ cmd ∷ [];
  }

  unfoldable pub revert_changes : TransitionContext WS → TransitionContext WS
  unfolding World.revert
  revert_changes ctx = record ctx {
    gas_meter = record ctx.gas_meter { ws_cache = World.revert ctx.gas_meter.ws_cache };
  }

  unfoldable pub complete_cmd_execution :
      TransitionContext WS
      → (ℕ × CommandOutput × Option (List DeferredCommand)) × TransitionContext WS
  unfolding Meter.take_current_command_result
  complete_cmd_execution ctx =
      let (result, gas_meter) = Meter.take_current_command_result ctx.gas_meter in
      (
        (result.0, result.1, non_empty_commands ctx.deferred_commands),
        record { deferred_commands = []; gas_meter = gas_meter },
      )

module _ {WS E R : Type 0} (format : ReceiptFormat E R) where
  unfoldable pub finalize_cmd_receipt_collect_deferred :
      CommandKind
      → ExecutionResult
      → ExecutionState WS E
      → Option (List DeferredCommand) × ExecutionState WS E
  unfolding complete_cmd_execution push_command_receipt
  finalize_cmd_receipt_collect_deferred kind result s =
      let (completed, ctx) = complete_cmd_execution s.ctx in
      let receipt = format.command_receipt kind result completed.0 completed.1 in
      (completed.2, record s { ctx = ctx; receipt = push_command_receipt format receipt s.receipt })

  unfoldable pub finalize_deferred_cmd_receipt :
      CommandKind → ExecutionResult → ExecutionState WS E → ExecutionState WS E
  unfolding complete_cmd_execution push_deferred_command_receipt
  finalize_deferred_cmd_receipt kind result s =
      let (completed, ctx) = complete_cmd_execution s.ctx in
      let receipt = format.command_receipt kind result completed.0 completed.1 in
      record s { ctx = ctx; receipt = push_deferred_command_receipt format receipt s.receipt }

  -- The committed world state and the receipt; `none` where making the receipt panics.
  unfoldable pub finalize_receipt : ⦃t : WorldState WS⦄ → ExecutionState WS E → Option (WS × R)
  unfolding World.commit_to_world_state Meter.total_gas_used_for_executed_commands
  finalize_receipt s =
      let gas_used = Meter.total_gas_used_for_executed_commands s.ctx.gas_meter in
      let ws = World.commit_to_world_state s.ctx.gas_meter.ws_cache in
      elim (format.into_receipt s.receipt gas_used s.txn_meta.command_kinds) [
        | none ↦ none
        | some receipt ↦ some (ws, receipt)
      ]
