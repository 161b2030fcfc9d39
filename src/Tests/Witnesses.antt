-- ===== src/Tests/Witnesses.antt =====
-- Each property with a hypothesis, applied at a concrete input.
use pchain_runtime.Prelude.{
  ℕ, ◌+◌, ◌*◌, ◌/◌, ◌≤◌, ◌≡◌, ◌≢◌, ◌↔◌, min, max, refl, subst, Option, none, some, List, [], ◌∷◌,
  length, ◌⊎◌, arith, nat_eq,
}
use pchain_runtime.Word.{u64_max, saturating_add}
use pchain_runtime.Types.{Transaction, TxnVersion, Command, CommandKind, BlockchainParams}
use pchain_runtime.Error.{Result, ok, err, TransitionError, ExitCodeV2}
use pchain_runtime.Types.Receipt.{CommandReceiptV2, ReceiptV2, gas_used_and_exit_code_v2}
use pchain_runtime.HashMap
use pchain_runtime.Cache.Data
use pchain_runtime.Cache.Data.{CacheData, u64_cache_value}
use pchain_runtime.Cache.Data.Laws.{view, empty-IsCoherent, get-view}
use pchain_runtime.Cache.World
use pchain_runtime.Cache.World.{WorldStateCache}
use pchain_runtime.Cache.World.Interface.{Accounts, accounts, in_memory, in_memory_laws}
use pchain_runtime.Cache.World.Laws.{
  IsValid, new-IsValid, set_balance-IsValid, IsValid-HasUniqueWrites, HasUniqueWrites, pending,
  seen_balance,
}
use pchain_runtime.Cache.World.Commit.{seen_accounts, commit_to_world_state_lem}
use pchain_runtime.Cache.Receipt.{format_v2, into_receipt_v2, combine_v2}
use pchain_runtime.Cache.Receipt.Laws.{
  into_receipt_v2-length, into_receipt_v2_panics, combine_v2_fields,
}
use pchain_runtime.Gas.CostChange.{CostChange, zero_change, deduct, reward, net_cost}
use pchain_runtime.Gas.CostChange.Laws.{add_all, total_deducted, total_rewarded, net_cost-add_all}
use pchain_runtime.Gas.Constants.{set_cost_delete_old_value, set_cost_write_new_value}
use pchain_runtime.Gas.Constants.Laws.{refund-le-half_write}
use pchain_runtime.Gas.Meter
use pchain_runtime.Gas.Meter.Laws.{IsWithinLimit, take_current_command_result_lem}
use pchain_runtime.State.{ExecutionState, finalize_receipt, new_state, new_context}
use pchain_runtime.Execution.Behaves.{cache_of, SameCounters, IsReverted}
use pchain_runtime.Commands.Account.{transfer}
use pchain_runtime.Commands.Account.Laws.{TransferOutcome, transfer_lem}
use pchain_runtime.Phases.{pre_charge, charge, new_balances}
use pchain_runtime.Phases.PreCharge.{PreChargeOutcome, pre_charge_lem}
use pchain_runtime.Phases.Charge.{settled, settled_from, seen-charge, charge_total, charge_panics}
use pchain_runtime.Execution.{◌>>=◌, metered_, abort_if_gas_exhausted}
use pchain_runtime.Executor.{
  execute_commands, execute, Transition, run_command, handle_charge, handle_abort,
}
use pchain_runtime.Executor.Order.{
  run_deferred, outcome_of, conclude, run_all, execute_commands_lem,
}
use pchain_runtime.Executor.Frame.{Counted}
use pchain_runtime.Executor.Run.{execute_keeps, run_all_keeps}
use pchain_runtime.Executor.Settlement.{IsSettled, conclude-IsSettled}
use pchain_runtime.Executor.Transaction.{
  start, pre_charged_ws, failed_balance, receipt_v2_lem, failed_pre_charge_panics,
}
use pchain_runtime.Rewards.{stake_reward}
use pchain_runtime.Rewards.Bounds.{stake_reward_lem, total_paid, total_paid_lem}
use pchain_runtime.Transition.{transition_v2}
use pchain_runtime.Transition.Outcome.{HasNoNextEpoch, HasFullReceipt, transition_v2_receipt}
use pchain_runtime.Tests.Engine.{engine}
use pchain_runtime.Tests.Fixtures.{
  before, commands, calls, calls_laws, in_storage, failing, meta_of, params, world,
}

abbrev State : Type 0
State = ExecutionState Accounts CommandReceiptV2

abbrev charged_of : List Command → State
charged_of cs = (pre_charge (before cs)).1

before-IsValid : (cs : List Command) → IsValid (cache_of (before cs))
unfolding new_state new_context Meter.new
before-IsValid cs = new-IsValid world

before-IsWithinLimit : (cs : List Command) → IsWithinLimit (before cs).ctx.gas_meter
unfolding new_state new_context Meter.new
before-IsWithinLimit cs = record { fits = omega arith; limit = omega arith }

pre_charge_ok : pre_charge (before commands) ≡ (ok tt, charged_of commands)
unfolding pre_charge new_state new_context
pre_charge_ok = refl

pre_charge_ok_failing : pre_charge (before failing) ≡ (ok tt, charged_of failing)
unfolding pre_charge new_state new_context
pre_charge_ok_failing = refl

charged-IsValid : IsValid (cache_of (charged_of commands))
unfolding pre_charge new_state new_context World.new
charged-IsValid = new-IsValid (pre_charged_ws (meta_of 5000000 commands) params world)

abbrev no_transition : Transition Accounts ReceiptV2
no_transition = record { new_state = world; error = none; receipt = none; validator_changes = none }

abbrev from_option {ℓ} : {A : Type ℓ} → A → Option A → A
from_option d none = d
from_option d (some a) = a

abbrev transition_of : List Command → Transition Accounts ReceiptV2
transition_of cs =
    from_option no_transition (outcome_of format_v2 calls cs (pre_charge (before cs)))

outcome_made :
    outcome_of format_v2 calls commands (pre_charge (before commands))
    ≡ some (transition_of commands)
unfolding pre_charge new_state new_context run_all run_deferred ◌>>=◌ run_command transfer
    Meter.ws_balance Data.get HashMap.get Data.empty metered_ abort_if_gas_exhausted
    Meter.ws_set_balance Data.set HashMap.insert handle_charge charge new_balances
    World.purge_balance HashMap.remove finalize_receipt into_receipt_v2
outcome_made = refl

failing_outcome :
    outcome_of format_v2 calls failing (pre_charge (before failing)) ≡ some (transition_of failing)
unfolding pre_charge new_state new_context run_all run_deferred ◌>>=◌ run_command transfer
    Meter.ws_balance Data.get HashMap.get Data.empty metered_ abort_if_gas_exhausted
    Meter.ws_set_balance Data.set HashMap.insert handle_abort charge new_balances
    World.purge_balance HashMap.remove finalize_receipt into_receipt_v2 Data.revert
failing_outcome = refl

abbrev stopped : State
stopped = (run_all format_v2 calls failing 0 (charged_of failing)).1

run_all-failing :
    run_all format_v2 calls failing 0 (charged_of failing)
    ≡ (err TransitionError.not_enough_balance_for_transfer, stopped)
unfolding pre_charge new_state new_context run_all ◌>>=◌ run_command transfer Meter.ws_balance
    Data.get HashMap.get Data.empty metered_ abort_if_gas_exhausted Meter.ws_set_balance Data.set
    HashMap.insert
run_all-failing = refl

execute_commands_lem_example :
    (enough : ℕ) × ((extra : ℕ)
      → execute_commands format_v2 calls (enough + extra) (before commands) commands
        ≡ some (outcome_of format_v2 calls commands (pre_charge (before commands))))
execute_commands_lem_example = execute_commands_lem format_v2 calls (before commands) commands

failed_balance_example :
    (transition_of failing).new_state.balance 1
    ≡ settled_from ((pre_charged_ws (meta_of 5000000 failing) params world).balance) stopped 1
failed_balance_example =
    failed_balance format_v2 calls calls_laws in_memory_laws (meta_of 5000000 failing) params world
      failing (charged_of failing) (omega arith) pre_charge_ok_failing run_all-failing
      failing_outcome 1

receipt_v2_lem_example :
    (r : ReceiptV2) × ((transition_of commands).receipt ≡ some r)
    × (length r.command_receipts ≡ length commands)
    × (r.gas_used ≤ 5000000)
receipt_v2_lem_example =
    receipt_v2_lem calls calls_laws in_memory_laws (meta_of 5000000 commands) params world commands
      (charged_of commands) (omega arith) refl pre_charge_ok outcome_made

abbrev poor : State
poor = start (meta_of 5 commands) params world

pre_charge-poor :
    pre_charge poor ≡ (err TransitionError.pre_execution_gas_exhausted, (pre_charge poor).1)
unfolding pre_charge new_state new_context
pre_charge-poor = refl

kinds_not_empty : (meta_of 5 commands).command_kinds ≢ []
kinds_not_empty h = cc

failed_pre_charge_panics_example : outcome_of format_v2 calls commands (pre_charge poor) ≡ none
failed_pre_charge_panics_example =
    failed_pre_charge_panics calls calls_laws (meta_of 5 commands) params world commands
      kinds_not_empty pre_charge-poor

abbrev finished : Result (Unit {0}) × State
finished = run_all format_v2 calls commands 0 (charged_of commands)

charged-IsWithinLimit : IsWithinLimit (charged_of commands).ctx.gas_meter
unfolding pre_charge new_state new_context Meter.new
charged-IsWithinLimit = record { fits = omega arith; limit = omega arith }

finished-IsValid : IsValid (cache_of finished.1)
finished-IsValid =
    (run_all_keeps format_v2 calls calls_laws commands 0 (charged_of commands) charged-IsValid
      charged-IsWithinLimit).0

conclude-some : conclude format_v2 finished ≡ some (transition_of commands)
conclude-some =
    subst (λ x. outcome_of format_v2 calls commands x ≡ some (transition_of commands)) pre_charge_ok
      outcome_made

conclude-IsSettled_example : IsSettled in_memory_laws format_v2 finished.1 (transition_of commands)
conclude-IsSettled_example =
    conclude-IsSettled in_memory_laws format_v2 finished finished-IsValid conclude-some

execute_keeps_example :
    let (r, s') = execute calls 0 1 (Command.transfer 4 100) (before commands) in
    IsValid (cache_of s')
    × ((cache_of s').ws ≡ world)
    × SameCounters (before commands).ctx.gas_meter s'.ctx.gas_meter
    × IsReverted r s'
unfolding new_state new_context Meter.new World.new
execute_keeps_example =
    execute_keeps format_v2 calls calls_laws 0 1 (Command.transfer 4 100) (before commands)
      (before-IsValid commands)

run_all_keeps_example :
    let (r, s') = run_all format_v2 calls failing 0 (before failing) in
    IsValid (cache_of s')
    × IsWithinLimit s'.ctx.gas_meter
    × ((cache_of s').ws ≡ world)
    × IsReverted r s'
    × Counted 1 3 r 0 (length s'.receipt)
unfolding new_state new_context Meter.new World.new
run_all_keeps_example =
    run_all_keeps format_v2 calls calls_laws failing 0 (before failing) (before-IsValid failing)
      (before-IsWithinLimit failing)

pre_charge_lem_example : PreChargeOutcome (before commands) (pre_charge (before commands))
pre_charge_lem_example = pre_charge_lem (before commands)

charge-some :
    charge (charged_of commands)
    ≡ some (from_option (before commands) (charge (charged_of commands)))
unfolding charge new_balances pre_charge new_state new_context
    Meter.total_gas_used_for_executed_commands World.purge_balance Data.get HashMap.get Data.empty
charge-some = refl

seen-charge_example :
    seen_balance
      (pending (cache_of (from_option (before commands) (charge (charged_of commands)))))
      2
    ≡ settled (charged_of commands) 2
seen-charge_example = seen-charge in_memory_laws (charged_of commands) charged-IsValid charge-some 2

charge_total_example : charge (charged_of commands) ≢ none
unfolding pre_charge new_state new_context HashMap.get Data.empty
charge_total_example =
    charge_total in_memory_laws (charged_of commands) charged-IsValid (omega arith) (omega arith)
      (omega arith) (omega arith)

-- A pre-charge that fits in a `u64`, and a charge that does not.
abbrev dear : BlockchainParams
dear = record params { this_base_fee = 18000000000000 }

abbrev rich : Accounts
rich = record world { balance = λ a. u64_max }

abbrev dear_start : State
dear_start = start (meta_of 1000000 commands) dear rich

abbrev dear_state : State
dear_state = (pre_charge dear_start).1

dear_is_charged : pre_charge dear_start ≡ (ok tt, dear_state)
unfolding pre_charge new_state new_context
dear_is_charged = refl

charge_panics_example : charge dear_state ≡ none
unfolding pre_charge new_state new_context Meter.total_gas_used_for_executed_commands Meter.new
charge_panics_example = charge_panics in_memory_laws dear_state (omega arith)

transfer_lem_example : TransferOutcome 4 100 (before commands) (transfer 4 100 (before commands))
transfer_lem_example = transfer_lem 4 100 (before commands) (before-IsValid commands)

abbrev written : WorldStateCache Accounts
written = World.set_balance 4 100 (World.new world)

written-HasUniqueWrites : HasUniqueWrites written
written-HasUniqueWrites = IsValid-HasUniqueWrites (set_balance-IsValid 4 100 (new-IsValid world))

commit_to_world_state_lem_example :
    accounts (World.commit_to_world_state written) ≡ seen_accounts (pending written)
commit_to_world_state_lem_example =
    commit_to_world_state_lem in_memory_laws written written-HasUniqueWrites

abbrev seven : ℕ → Option ℕ
seven a = some 7

abbrev fresh : CacheData ℕ ℕ
fresh = Data.empty

get-view_example : (Data.get 4 seven fresh).0 ≡ view seven fresh 4
get-view_example = get-view 4 (empty-IsCoherent seven)

abbrev three_changes : List CostChange
three_changes = deduct 9 ∷ reward 4 ∷ deduct 2 ∷ []

net_cost-add_all_example :
    let (cost, reward) = net_cost (add_all zero_change three_changes) in
    (cost + total_rewarded three_changes ≡ reward + total_deducted three_changes)
    × ((cost ≡ 0) ⊎ (reward ≡ 0))
unfolding deduct reward
net_cost-add_all_example = net_cost-add_all three_changes (omega arith) (omega arith)

abbrev two_commands : List CommandKind
two_commands = CommandKind.call ∷ CommandKind.deploy ∷ []

refund-le-half_write_example : 2 * set_cost_delete_old_value 32 8 9 ≤ set_cost_write_new_value 8
refund-le-half_write_example = refund-le-half_write 32 8 9 (omega arith)

abbrev one_receipt : List CommandReceiptV2
one_receipt = CommandReceiptV2.transfer ExitCodeV2.error 5 ∷ []

abbrev no_receipts : List CommandReceiptV2
no_receipts = []

abbrev two_kinds : List CommandKind
two_kinds = CommandKind.transfer ∷ CommandKind.delete_pool ∷ []

abbrev made_receipt : ReceiptV2
made_receipt = record {
  gas_used = 70;
  exit_code = ExitCodeV2.error;
  command_receipts =
      CommandReceiptV2.transfer ExitCodeV2.error 5
      ∷ CommandReceiptV2.delete_pool ExitCodeV2.not_executed 0
      ∷ [];
}

into_receipt_v2_made : into_receipt_v2 one_receipt 70 two_kinds ≡ some made_receipt
unfolding into_receipt_v2
into_receipt_v2_made = refl

into_receipt_v2-length_example :
    (made_receipt.gas_used ≡ 70)
    × (length made_receipt.command_receipts ≡ max (length one_receipt) (length two_kinds))
into_receipt_v2-length_example =
    into_receipt_v2-length one_receipt 70 two_kinds into_receipt_v2_made

into_receipt_v2_panics_example :
    (into_receipt_v2 no_receipts 70 two_kinds ≡ none) ↔ ((no_receipts ≡ []) × (two_kinds ≢ []))
into_receipt_v2_panics_example = into_receipt_v2_panics no_receipts 70 two_kinds

combine_v2_fields_example :
    gas_used_and_exit_code_v2 (
      combine_v2
        (CommandReceiptV2.transfer ExitCodeV2.ok 5)
        (CommandReceiptV2.delete_pool ExitCodeV2.error 6))
    ≡ (
      saturating_add
          (gas_used_and_exit_code_v2 (CommandReceiptV2.transfer ExitCodeV2.ok 5)).0
          (gas_used_and_exit_code_v2 (CommandReceiptV2.delete_pool ExitCodeV2.error 6)).0,
      (gas_used_and_exit_code_v2 (CommandReceiptV2.delete_pool ExitCodeV2.error 6)).1,
    )
combine_v2_fields_example =
    combine_v2_fields (CommandReceiptV2.transfer ExitCodeV2.ok 5)
      (CommandReceiptV2.delete_pool ExitCodeV2.error 6)

take_current_command_result_lem_example :
    let (result, g') = Meter.take_current_command_result (before commands).ctx.gas_meter in
    IsWithinLimit g'
    × (Meter.total_gas_used_for_executed_commands g'
        ≡ min (Meter.total_gas_used (before commands).ctx.gas_meter) 5000000)
    × (Meter.total_gas_used_for_executed_commands g'
        ≡ Meter.total_gas_used_for_executed_commands (before commands).ctx.gas_meter + result.0)
    × (Meter.total_gas_used g' ≡ Meter.total_gas_used_for_executed_commands g')
unfolding new_state new_context Meter.new
take_current_command_result_lem_example =
    take_current_command_result_lem (before commands).ctx.gas_meter (before-IsWithinLimit commands)

stake_reward_made : stake_reward 1000 10 30 70 ≡ some (386, 42)
unfolding stake_reward
stake_reward_made = refl

stake_reward_lem_example : 386 + 42 ≡ 1000 * 30 / 70
stake_reward_lem_example =
    stake_reward_lem 1000 10 30 70 (omega arith) (omega arith) (omega arith) stake_reward_made

total_paid_made : total_paid 1000 10 70 (30 ∷ 40 ∷ []) ≡ some 999
unfolding stake_reward
total_paid_made = refl

total_paid_lem_example : 999 ≤ 1000
total_paid_lem_example =
    total_paid_lem 1000 10 70 (30 ∷ 40 ∷ []) (omega arith) (omega arith) (omega arith)
      total_paid_made

abbrev sent : Transaction
sent = record {
  hash = [];
  version = TxnVersion.v2;
  signer = 1;
  nonce = 0;
  commands = commands;
  gas_limit = 5000000;
  priority_fee_per_gas = 1;
  serialized_len = 200;
}

sent-HasNoNextEpoch : HasNoNextEpoch sent.commands
sent-HasNoNextEpoch [] after e = ground arith
sent-HasNoNextEpoch (a ∷ []) after e = ground arith
sent-HasNoNextEpoch (a ∷ b ∷ []) after e = ground arith
sent-HasNoNextEpoch (a ∷ b ∷ c ∷ before) after e = ground arith

transition_v2_receipt_example :
    (enough : ℕ) × (out : Option (Transition Accounts ReceiptV2)) × ((extra : ℕ)
      → transition_v2 engine (enough + extra) world sent params ≡ some out)
    × HasFullReceipt sent out
unfolding Meter.tx_inclusion_cost
transition_v2_receipt_example =
    transition_v2_receipt in_memory_laws engine world sent params sent-HasNoNextEpoch (omega arith)
      (omega arith) refl (omega arith) (omega arith) (omega arith)
