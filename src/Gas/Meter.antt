-- ===== src/Gas/Meter.antt =====
-- `GasMeter` of src/gas/gas_meter.rs: the gas counters of a transaction, and the data whose use is
-- charged. The `RefCell` of `GasUsed` lets a charge go through `&self`; here it returns the meter.
pub mod Laws
use pchain_runtime.Prelude.{
  ℕ, ◌-◌, min, Bool, Option, none, some, List, [], ◌∷◌, ltb, if◌then◌else◌,
}
use pchain_runtime.Word.{saturating_add, saturating_sub}
use pchain_runtime.Types.{PublicAddress, Bytes, TxnVersion, CommandKind, CommandOutput}
use pchain_runtime.Error.{TransitionError, Result, ok, err, pre_execution_gas_exhausted}
use pchain_runtime.Cache.Data.{U32}
use pchain_runtime.Cache.World.{WorldState, WorldStateCache, non_empty}
use pchain_runtime.Cache.Output
use pchain_runtime.Cache.Output.{CommandOutputCache}
use pchain_runtime.Gas.CostChange.{CostChange, zero_change, deduct, net_cost, add}
use pchain_runtime.Gas.Constants.{tx_inclusion_cost_v1, tx_inclusion_cost_v2}
use pchain_runtime.Gas.Operations
use pchain_runtime.Gas.Operations.{OperationReceipt, Operation}

pub record GasMeter (WS : Type 0) : Type 0 where
  pub version : TxnVersion
  pub gas_limit : ℕ
  pub gas_used_for_txn_inclusion : ℕ
  pub total_gas_used_for_executed_commands : ℕ
  pub gas_used_for_current_command : CostChange
  pub output_cache_of_current_command : CommandOutputCache
  pub ws_cache : WorldStateCache WS

unfoldable pub tx_inclusion_cost : TxnVersion → ℕ → List CommandKind → ℕ
unfolding tx_inclusion_cost_v1 tx_inclusion_cost_v2
tx_inclusion_cost TxnVersion.v1 size kinds = tx_inclusion_cost_v1 size kinds
tx_inclusion_cost TxnVersion.v2 size kinds = tx_inclusion_cost_v2 size kinds

module _ {WS : Type 0} where
  unfoldable pub new : TxnVersion → WorldStateCache WS → ℕ → GasMeter WS
  unfolding Output.empty
  new version ws_cache gas_limit = record {
    version = version;
    gas_limit = gas_limit;
    gas_used_for_txn_inclusion = 0;
    total_gas_used_for_executed_commands = 0;
    gas_used_for_current_command = zero_change;
    output_cache_of_current_command = Output.empty;
    ws_cache = ws_cache;
  }

  -- The method of the field's name: the inclusion cost and the finished commands.
  unfoldable pub total_gas_used_for_executed_commands : GasMeter WS → ℕ
  total_gas_used_for_executed_commands g =
      saturating_add g.gas_used_for_txn_inclusion g.total_gas_used_for_executed_commands

  unfoldable pub total_gas_used : GasMeter WS → ℕ
  unfolding total_gas_used_for_executed_commands net_cost
  total_gas_used g =
      saturating_add (total_gas_used_for_executed_commands g)
        (net_cost g.gas_used_for_current_command).0

  unfoldable pub take_current_command_result : GasMeter WS → (ℕ × CommandOutput) × GasMeter WS
  unfolding total_gas_used_for_executed_commands net_cost Output.take
  take_current_command_result g =
      let (command_output, output_cache) = Output.take g.output_cache_of_current_command in
      let gas_used =
        min (net_cost g.gas_used_for_current_command).0
          (saturating_sub g.gas_limit (total_gas_used_for_executed_commands g)) in
      (
        (gas_used, command_output),
        record g {
          total_gas_used_for_executed_commands =
              saturating_add g.total_gas_used_for_executed_commands gas_used;
          gas_used_for_current_command = zero_change;
          output_cache_of_current_command = output_cache;
        },
      )

  -- `GasUsed::charge`.
  unfoldable pub charge_change : CostChange → GasMeter WS → GasMeter WS
  unfolding add
  charge_change change g = record g {
    gas_used_for_current_command = add g.gas_used_for_current_command change;
  }

  unfoldable pub manually_charge_gas : ℕ → GasMeter WS → GasMeter WS
  unfolding charge_change deduct
  manually_charge_gas gas g = charge_change (deduct gas) g

  unfoldable pub charge : {T : Type 0} → OperationReceipt T → GasMeter WS → T × GasMeter WS
  unfolding charge_change
  charge receipt g = (receipt.0, charge_change receipt.1 g)

  unfoldable pub charge_txn_pre_exec_inclusion :
      TxnVersion → ℕ → List CommandKind → GasMeter WS → Result (Unit {0}) × GasMeter WS
  unfolding tx_inclusion_cost
  charge_txn_pre_exec_inclusion version tx_size kinds g =
      let required_cost = tx_inclusion_cost version tx_size kinds in
      if ltb g.gas_limit required_cost
      then (err pre_execution_gas_exhausted, g)
      else (ok tt, record g { gas_used_for_txn_inclusion = required_cost })

  unfoldable pub command_output_set_return_value : Bytes → GasMeter WS → GasMeter WS
  unfolding charge_change Operations.command_output_set_return_value
  command_output_set_return_value value g =
      let (value', cost) = Operations.command_output_set_return_value value in
      charge_change cost (record g {
        output_cache_of_current_command = record g.output_cache_of_current_command {
          return_value = some value';
        };
      })

  unfoldable pub command_output_set_amount_withdrawn : ℕ → GasMeter WS → GasMeter WS
  unfolding charge_change Operations.command_output_set_amount
  command_output_set_amount_withdrawn amount g =
      let (amount', cost) = Operations.command_output_set_amount amount in
      charge_change cost (record g {
        output_cache_of_current_command = record g.output_cache_of_current_command {
          amount_withdrawn = some amount';
        };
      })

  unfoldable pub command_output_set_amount_staked : ℕ → GasMeter WS → GasMeter WS
  unfolding charge_change Operations.command_output_set_amount
  command_output_set_amount_staked amount g =
      let (amount', cost) = Operations.command_output_set_amount amount in
      charge_change cost (record g {
        output_cache_of_current_command = record g.output_cache_of_current_command {
          amount_staked = some amount';
        };
      })

  unfoldable pub command_output_set_amount_unstaked : ℕ → GasMeter WS → GasMeter WS
  unfolding charge_change Operations.command_output_set_amount
  command_output_set_amount_unstaked amount g =
      let (amount', cost) = Operations.command_output_set_amount amount in
      charge_change cost (record g {
        output_cache_of_current_command = record g.output_cache_of_current_command {
          amount_unstaked = some amount';
        };
      })

  -- An operation on the world state cache, charged to the current command.
  unfoldable pub run_operation : {T : Type 0} → Operation WS T → GasMeter WS → T × GasMeter WS
  unfolding charge_change
  run_operation op g =
      let (receipt, cache) = op g.ws_cache in
      (receipt.0, charge_change receipt.1 (record g { ws_cache = cache }))

module _ {WS : Type 0} ⦃t : WorldState WS⦄ where
  unfoldable pub ws_contains_storage_data : PublicAddress → Bytes → GasMeter WS → Bool × GasMeter WS
  unfolding run_operation Operations.ws_contains_storage_data
  ws_contains_storage_data address key g =
      run_operation (Operations.ws_contains_storage_data g.version address key) g

  unfoldable pub ws_storage_data : PublicAddress → Bytes → GasMeter WS → Option Bytes × GasMeter WS
  unfolding run_operation Operations.ws_storage_data
  ws_storage_data address key g =
      let (value, g') = run_operation (Operations.ws_storage_data g.version address key) g in
      (non_empty value, g')

  unfoldable pub ws_balance : PublicAddress → GasMeter WS → ℕ × GasMeter WS
  unfolding run_operation Operations.ws_balance
  ws_balance address g = run_operation (Operations.ws_balance address) g

  unfoldable pub ws_cbi_version : PublicAddress → GasMeter WS → Option U32 × GasMeter WS
  unfolding run_operation Operations.ws_cbi_version
  ws_cbi_version address g = run_operation (Operations.ws_cbi_version address) g

  unfoldable pub ws_set_storage_data : PublicAddress → Bytes → Bytes → GasMeter WS → GasMeter WS
  unfolding run_operation Operations.ws_set_storage_data
  ws_set_storage_data address key value g =
      (run_operation (Operations.ws_set_storage_data g.version address key value) g).1

  unfoldable pub ws_set_balance : PublicAddress → ℕ → GasMeter WS → GasMeter WS
  unfolding run_operation Operations.ws_set_balance
  ws_set_balance address value g = (run_operation (Operations.ws_set_balance address value) g).1

  unfoldable pub ws_set_cbi_version : PublicAddress → U32 → GasMeter WS → GasMeter WS
  unfolding run_operation Operations.ws_set_cbi_version
  ws_set_cbi_version address version g =
      (run_operation (Operations.ws_set_cbi_version address version) g).1

  unfoldable pub ws_set_code : PublicAddress → Bytes → GasMeter WS → GasMeter WS
  unfolding run_operation Operations.ws_set_contract_code
  ws_set_code address code g = (run_operation (Operations.ws_set_contract_code address code) g).1
