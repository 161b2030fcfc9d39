-- ===== src/NextEpoch.antt =====
-- The command of the next epoch: src/execution/execute_next_epoch.rs. It has no pre-charge and no
-- charge, and is the only command of its transaction.
pub mod Laws
use pchain_runtime.Prelude.{
  ℕ, Bool, true, false, ◌&&◌, Option, none, some, List, [], ◌∷◌, length, nat_beq, if◌then◌else◌,
}
use pchain_runtime.Word.{saturating_add}
use pchain_runtime.Error.{invalid_next_epoch_command}
use pchain_runtime.Types.{PublicAddress, Command, CommandKind, ValidatorPerformance}
use pchain_runtime.Types.Receipt.{CommandReceiptV1, CommandReceiptV2, ReceiptV2}
use pchain_runtime.Cache.World.{WorldState, WorldStateCache}
use pchain_runtime.Cache.Receipt.{ReceiptFormat, format_v1, format_v2}
use pchain_runtime.State.{ExecutionState, finalize_cmd_receipt_collect_deferred, finalize_receipt}
use pchain_runtime.Network.{NetworkAccount}
use pchain_runtime.Protocol.{next_epoch}
use pchain_runtime.Protocol.Cache.{run_on_cache}
use pchain_runtime.Protocol.Changes.{ValidatorChanges}
use pchain_runtime.Executor.{Transition}

abbrev pub first_is_next_epoch : List Command → Bool
first_is_next_epoch [] = false
first_is_next_epoch (Command.next_epoch ∷ _) = true
first_is_next_epoch (_ ∷ _) = false

abbrev is_some : {A : Type 0} → Option A → Bool
is_some none = false
is_some (some _) = true

module _ {WS E : Type 0} where
  abbrev pub cache : ExecutionState WS E → WorldStateCache WS
  cache s = s.ctx.gas_meter.ws_cache

  abbrev pub with_cache : WorldStateCache WS → ExecutionState WS E → ExecutionState WS E
  with_cache c s = record s {
    ctx = record s.ctx { gas_meter = record s.ctx.gas_meter { ws_cache = c } };
  }

module _ {WS E : Type 0} ⦃t : WorldState WS⦄ where
  abbrev pub signer_nonce : ExecutionState WS E → ℕ
  signer_nonce s = t.nonce (cache s).ws s.txn_meta.signer

  -- The guards.
  unfoldable pub is_valid_next_epoch : ExecutionState WS E → List Command → Bool
  is_valid_next_epoch s commands =
      nat_beq (length commands) 1
      && first_is_next_epoch commands
      && is_some s.bd.validator_performance
      && nat_beq s.txn_meta.nonce (signer_nonce s)

  unfoldable pub set_nonce : ℕ → ExecutionState WS E → ExecutionState WS E
  set_nonce nonce s =
      with_cache (record (cache s) { ws = t.set_nonce (cache s).ws s.txn_meta.signer nonce }) s

module _ {WS E R : Type 0} (format : ReceiptFormat E R) ⦃t : WorldState WS⦄ where
  unfoldable pub handle_invalid_next_epoch_command : ExecutionState WS E → Transition WS R
  handle_invalid_next_epoch_command s = record {
    new_state = (cache s).ws;
    error = some invalid_next_epoch_command;
    receipt = none;
    validator_changes = none;
  }

  -- `none` where making the receipt panics.
  unfoldable pub handle_post_execution :
      ExecutionState WS E → ValidatorChanges → Option (Transition WS R)
  unfolding finalize_cmd_receipt_collect_deferred finalize_receipt
  handle_post_execution s changes =
      let (_, s') = finalize_cmd_receipt_collect_deferred format CommandKind.next_epoch none s in
      elim (finalize_receipt format s') [
        | none ↦ none
        | some (ws, receipt) ↦ some (record {
          new_state = ws;
          error = none;
          receipt = some receipt;
          validator_changes = some changes;
        })
      ]

  -- The state transition and what follows it; `none` for a panic.
  abbrev pub after_next_epoch :
      ℕ → Option ValidatorChanges → ExecutionState WS E → Option (Transition WS R)
  after_next_epoch nonce none s = none
  after_next_epoch nonce (some changes) s =
      handle_post_execution (set_nonce (saturating_add nonce 1) s) changes

module _ {WS E R : Type 0} (format : ReceiptFormat E R) ⦃t : WorldState WS⦄
    ⦃net : NetworkAccount⦄ where
  unfoldable pub run_next_epoch :
      Option ValidatorPerformance → ExecutionState WS E → Option (Transition WS R)
  unfolding run_on_cache next_epoch handle_post_execution set_nonce
  run_next_epoch none s = none
  run_next_epoch (some performance) s =
      let (changes, c) = run_on_cache net.network_address (next_epoch performance) (cache s) in
      after_next_epoch format (signer_nonce s) changes (with_cache c s)

  unfoldable pub execute_next_epoch_command :
      ExecutionState WS E → List Command → Option (Transition WS R)
  unfolding is_valid_next_epoch handle_invalid_next_epoch_command run_next_epoch
  execute_next_epoch_command s commands =
      if is_valid_next_epoch s commands
      then run_next_epoch s.bd.validator_performance s
      else some (handle_invalid_next_epoch_command format s)

module _ {WS : Type 0} ⦃t : WorldState WS⦄ ⦃net : NetworkAccount⦄ where
  unfoldable pub execute_next_epoch_v1 :
      ExecutionState WS CommandReceiptV1
      → List Command
      → Option (Transition WS (List CommandReceiptV1))
  unfolding execute_next_epoch_command
  execute_next_epoch_v1 = execute_next_epoch_command format_v1

  unfoldable pub execute_next_epoch_v2 :
      ExecutionState WS CommandReceiptV2 → List Command → Option (Transition WS ReceiptV2)
  unfolding execute_next_epoch_command
  execute_next_epoch_v2 = execute_next_epoch_command format_v2
