-- ===== src/Executor.antt =====
-- The life of a transaction: src/execution/execute.rs and
-- src/execution/execute_commands/executor.rs. The commands that run contracts (deploy and call) need
-- the Wasm engine: they are fields of the interface `Contracts`.
pub mod Stack
pub mod Order
pub mod Frame
pub mod Run
pub mod Settlement
pub mod Transaction
pub mod Wasm
use pchain_runtime.Prelude.{
  ℕ, ◌+◌, zero, suc, Bool, true, false, Option, none, some, List, [], ◌∷◌, ◌++◌, map, reverse,
  if◌then◌else◌,
}
use pchain_runtime.Error.{TransitionError, Result, ok, err, panic}
use pchain_runtime.Types.{PublicAddress, Bytes, Command, CommandKind, command_kind, DeferredCommand}
use pchain_runtime.Cache.World.{WorldState}
use pchain_runtime.Types.Receipt.{CommandReceiptV1, CommandReceiptV2, ReceiptV2}
use pchain_runtime.Cache.Receipt.{ReceiptFormat, format_v1, format_v2}
use pchain_runtime.State.{
  ExecutionState, finalize_cmd_receipt_collect_deferred, finalize_deferred_cmd_receipt,
  finalize_receipt,
}
use pchain_runtime.Execution.{Execution, unwrap_failed}
use pchain_runtime.Network.{NetworkAccount}
use pchain_runtime.Commands.Account.{transfer}
use pchain_runtime.Commands.Staking.{
  create_pool, set_pool_settings, delete_pool, create_deposit, set_deposit_settings, topup_deposit,
  withdraw_deposit, stake_deposit, unstake_deposit,
}
use pchain_runtime.Phases.{pre_charge, charge}
use pchain_runtime.Protocol.Changes.{ValidatorChanges}

-- `account::deploy` and `account::call`.
pub record Contracts (WS E : Type 0) : Type 0 where
  pub deploy : (command_index : ℕ) (contract : Bytes) (cbi_version : ℕ) → Execution WS E (Unit {0})
  pub call :
      (is_view : Bool) (target : PublicAddress) (method : Bytes) (arguments : Option (List Bytes))
      (amount : Option ℕ)
      → Execution WS E (Unit {0})

pub data ExecutableCommand : Type 0 where
  transaction_command : Command → ExecutableCommand
  deferred_command : DeferredCommand → ExecutableCommand

abbrev pub is_txn_sent : ExecutableCommand → Bool
is_txn_sent (transaction_command _) = true
is_txn_sent (deferred_command _) = false

abbrev pub kind_of : ExecutableCommand → CommandKind
kind_of (transaction_command c) = command_kind c
kind_of (deferred_command d) = command_kind d.command

-- `ExecutableCommands`: a vector whose last element is the top of the stack.
abbrev pub ExecutableCommands : Type 0
ExecutableCommands = List ExecutableCommand

unfoldable pub new : List Command → ExecutableCommands
new commands = reverse (map transaction_command commands)

unfoldable pub push_deferred_commands :
    List DeferredCommand → ExecutableCommands → ExecutableCommands
push_deferred_commands commands stack = stack ++ reverse (map deferred_command commands)

-- `Vec::pop`.
unfoldable pub next_command : ExecutableCommands → Option (ExecutableCommand × ExecutableCommands)
next_command [] = none
next_command (c ∷ []) = some (c, [])
next_command (c ∷ d ∷ stack) = elim (next_command (d ∷ stack)) [
  | none ↦ none
  | some (top, rest) ↦ some (top, c ∷ rest)
]

-- `TransitionV1Result` and `TransitionV2Result`.
pub record Transition (WS R : Type 0) : Type 0 where
  pub new_state : WS
  pub error : Option TransitionError
  pub receipt : Option R
  pub validator_changes : Option ValidatorChanges

abbrev pub transition :
    {WS R : Type 0} → Option TransitionError → Option (WS × R) → Option (Transition WS R)
transition error none = none
transition error (some (ws, receipt)) =
    some
      (record { new_state = ws; error = error; receipt = some receipt; validator_changes = none })

abbrev pub without_receipt :
    {WS R : Type 0} → TransitionError → Option (WS × R) → Option (Transition WS R)
without_receipt error none = none
without_receipt error (some (ws, _)) =
    some (record { new_state = ws; error = some error; receipt = none; validator_changes = none })

abbrev push_if_any : Option (List DeferredCommand) → ExecutableCommands → ExecutableCommands
push_if_any none stack = stack
push_if_any (some commands) stack = push_deferred_commands commands stack

module _ {WS E R : Type 0} (format : ReceiptFormat E R) ⦃t : WorldState WS⦄ where
  unfoldable pub handle_precharge_error :
      ExecutionState WS E → TransitionError → Option (Transition WS R)
  unfolding finalize_receipt
  handle_precharge_error s error = without_receipt error (finalize_receipt format s)

  -- The charge phase and the end of the transaction; `none` where either panics.
  abbrev pub charge_and_finalize :
      Option TransitionError → Option (ExecutionState WS E) → Option (Transition WS R)
  charge_and_finalize error none = none
  charge_and_finalize error (some s) = transition error (finalize_receipt format s)

  unfoldable pub handle_abort : ExecutionState WS E → TransitionError → Option (Transition WS R)
  unfolding charge finalize_receipt
  handle_abort s error = charge_and_finalize (some error) (charge s)

  unfoldable pub handle_charge : ExecutionState WS E → Option (Transition WS R)
  unfolding charge finalize_receipt
  handle_charge s = charge_and_finalize none (charge s)

module _ {WS E : Type 0} ⦃t : WorldState WS⦄ ⦃net : NetworkAccount⦄
    (contracts : Contracts WS E) where
  -- `execute` of execute.rs. The command of the next epoch is `unreachable!`.
  unfoldable pub execute : ℕ → PublicAddress → Command → Execution WS E (Unit {0})
  execute i actor (Command.transfer recipient amount) = transfer recipient amount
  execute i actor (Command.deploy contract cbi_version) = contracts.deploy i contract cbi_version
  execute i actor (Command.call target method arguments amount) =
      contracts.call false target method arguments amount
  execute i actor (Command.create_pool rate) = create_pool actor rate
  execute i actor (Command.set_pool_settings rate) = set_pool_settings actor rate
  execute i actor Command.delete_pool = delete_pool actor
  execute i actor (Command.create_deposit operator balance auto) =
      create_deposit actor operator balance auto
  execute i actor (Command.set_deposit_settings operator auto) =
      set_deposit_settings actor operator auto
  execute i actor (Command.top_up_deposit operator amount) = topup_deposit actor operator amount
  execute i actor (Command.withdraw_deposit operator max_amount) =
      withdraw_deposit actor operator max_amount
  execute i actor (Command.stake_deposit operator max_amount) =
      stake_deposit actor operator max_amount
  execute i actor (Command.unstake_deposit operator max_amount) =
      unstake_deposit actor operator max_amount
  execute i actor Command.next_epoch = unwrap_failed

  unfoldable pub consume_and_execute : ExecutableCommand → ℕ → Execution WS E (Unit {0})
  unfolding execute
  consume_and_execute (transaction_command c) i s = execute i s.txn_meta.signer c s
  consume_and_execute (deferred_command d) i s = execute i d.contract_address d.command s

module _ {WS E R : Type 0} (format : ReceiptFormat E R) where
  unfoldable pub handle_command_execution_result :
      CommandKind
      → Option TransitionError
      → Bool
      → ExecutionState WS E
      → Option (List DeferredCommand) × ExecutionState WS E
  unfolding finalize_cmd_receipt_collect_deferred finalize_deferred_cmd_receipt
  handle_command_execution_result kind result true s =
      finalize_cmd_receipt_collect_deferred format kind result s
  handle_command_execution_result kind result false s =
      (none, finalize_deferred_cmd_receipt format kind result s)

  -- The handling of a result that is not a panic, and then the test for an error.
  unfoldable pub finish_command :
      ExecutableCommand → Result (Unit {0}) → Execution WS E (Option (List DeferredCommand))
  unfolding handle_command_execution_result
  finish_command c (ok _) s =
      let (deferred, s') = handle_command_execution_result (kind_of c) none (is_txn_sent c) s in
      (ok deferred, s')
  finish_command c (err error) s =
      let (_, s') = handle_command_execution_result (kind_of c) (some error) (is_txn_sent c) s in
      (err error, s')
  finish_command c panic s = (panic, s)

module _ {WS E R : Type 0} (format : ReceiptFormat E R) ⦃t : WorldState WS⦄ ⦃net : NetworkAccount⦄
    (contracts : Contracts WS E) where
  unfoldable pub run_command :
      ExecutableCommand → ℕ → Execution WS E (Option (List DeferredCommand))
  unfolding consume_and_execute finish_command
  run_command c i s =
      let (result, s') = consume_and_execute contracts c i s in finish_command format c result s'

  abbrev pub next_index : ExecutableCommand → ℕ → ℕ
  next_index c i = if is_txn_sent c then i + 1 else i

  -- The loop of `execute_commands`: `none` when the fuel is spent, `some none` for a panic.
  unfoldable pub run_commands :
      ℕ → ExecutableCommands → ℕ → ExecutionState WS E → Option (Option (Transition WS R))
  unfolding next_command run_command push_deferred_commands handle_abort handle_charge
  run_commands zero stack i s = none
  run_commands (suc fuel) stack i s = elim (next_command stack) [
    | none ↦ some (handle_charge format s)
    | some (c, rest) ↦
        let (result, s') = run_command c i s in
        elim result [
          | ok deferred ↦ run_commands fuel (push_if_any deferred rest) (next_index c i) s'
          | err error ↦ some (handle_abort format s' error)
          | panic ↦ some none
        ]
  ]

  -- `execute_commands` after the pre-charge.
  unfoldable pub run_pre_charged :
      ℕ → List Command → Result (Unit {0}) × ExecutionState WS E → Option (Option (Transition WS R))
  unfolding run_commands handle_precharge_error new
  run_pre_charged fuel commands (ok _, s) = run_commands fuel (new commands) 0 s
  run_pre_charged fuel commands (err error, s) = some (handle_precharge_error format s error)
  run_pre_charged fuel commands (panic, s) = some none

  unfoldable pub execute_commands :
      ℕ → ExecutionState WS E → List Command → Option (Option (Transition WS R))
  unfolding pre_charge run_pre_charged
  execute_commands fuel s commands = run_pre_charged fuel commands (pre_charge s)

-- The two versions, each with its format of receipts.
module _ {WS : Type 0} ⦃t : WorldState WS⦄ ⦃net : NetworkAccount⦄ where
  unfoldable pub execute_commands_v1 :
      Contracts WS CommandReceiptV1
      → ℕ
      → ExecutionState WS CommandReceiptV1
      → List Command
      → Option (Option (Transition WS (List CommandReceiptV1)))
  unfolding execute_commands
  execute_commands_v1 contracts = execute_commands format_v1 contracts

  unfoldable pub execute_commands_v2 :
      Contracts WS CommandReceiptV2
      → ℕ
      → ExecutionState WS CommandReceiptV2
      → List Command
      → Option (Option (Transition WS ReceiptV2))
  unfolding execute_commands
  execute_commands_v2 contracts = execute_commands format_v2 contracts
