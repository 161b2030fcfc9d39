-- ===== src/Types/Receipt.antt =====
-- Command receipts: the types of pchain_types, and the functions of src/types.rs over them.
use pchain_runtime.Prelude.{ℕ, List, []}
use pchain_runtime.Error.{ExitCodeV1, ExitCodeV2}
use pchain_runtime.Types.{Bytes, Log, CommandKind, CommandOutput}

pub record CommandReceiptV1 : Type 0 where
  pub exit_code : ExitCodeV1
  pub gas_used : ℕ
  pub return_values : Bytes
  pub logs : List Log

pub data CommandReceiptV2 : Type 0 where
  transfer : ExitCodeV2 → ℕ → CommandReceiptV2
  deploy : ExitCodeV2 → ℕ → CommandReceiptV2
  call : ExitCodeV2 → ℕ → (logs : List Log) (return_value : Bytes) → CommandReceiptV2
  create_pool : ExitCodeV2 → ℕ → CommandReceiptV2
  set_pool_settings : ExitCodeV2 → ℕ → CommandReceiptV2
  delete_pool : ExitCodeV2 → ℕ → CommandReceiptV2
  create_deposit : ExitCodeV2 → ℕ → CommandReceiptV2
  set_deposit_settings : ExitCodeV2 → ℕ → CommandReceiptV2
  top_up_deposit : ExitCodeV2 → ℕ → CommandReceiptV2
  withdraw_deposit : ExitCodeV2 → ℕ → (amount_withdrawn : ℕ) → CommandReceiptV2
  stake_deposit : ExitCodeV2 → ℕ → (amount_staked : ℕ) → CommandReceiptV2
  unstake_deposit : ExitCodeV2 → ℕ → (amount_unstaked : ℕ) → CommandReceiptV2
  next_epoch : ExitCodeV2 → ℕ → CommandReceiptV2

pub record ReceiptV2 : Type 0 where
  pub gas_used : ℕ
  pub exit_code : ExitCodeV2
  pub command_receipts : List CommandReceiptV2

unfoldable pub create_executed_cmd_rcp_v2 :
    CommandKind → ExitCodeV2 → ℕ → CommandOutput → CommandReceiptV2
create_executed_cmd_rcp_v2 CommandKind.transfer e g o = CommandReceiptV2.transfer e g
create_executed_cmd_rcp_v2 CommandKind.deploy e g o = CommandReceiptV2.deploy e g
create_executed_cmd_rcp_v2 CommandKind.call e g o = CommandReceiptV2.call e g o.logs o.return_value
create_executed_cmd_rcp_v2 CommandKind.create_pool e g o = CommandReceiptV2.create_pool e g
create_executed_cmd_rcp_v2 CommandKind.set_pool_settings e g o =
    CommandReceiptV2.set_pool_settings e g
create_executed_cmd_rcp_v2 CommandKind.delete_pool e g o = CommandReceiptV2.delete_pool e g
create_executed_cmd_rcp_v2 CommandKind.create_deposit e g o = CommandReceiptV2.create_deposit e g
create_executed_cmd_rcp_v2 CommandKind.set_deposit_settings e g o =
    CommandReceiptV2.set_deposit_settings e g
create_executed_cmd_rcp_v2 CommandKind.top_up_deposit e g o = CommandReceiptV2.top_up_deposit e g
create_executed_cmd_rcp_v2 CommandKind.withdraw_deposit e g o =
    CommandReceiptV2.withdraw_deposit e g o.amount_withdrawn
create_executed_cmd_rcp_v2 CommandKind.stake_deposit e g o =
    CommandReceiptV2.stake_deposit e g o.amount_staked
create_executed_cmd_rcp_v2 CommandKind.unstake_deposit e g o =
    CommandReceiptV2.unstake_deposit e g o.amount_unstaked
create_executed_cmd_rcp_v2 CommandKind.next_epoch e g o = CommandReceiptV2.next_epoch e g

unfoldable pub create_not_executed_cmd_rcp_v2 : CommandKind → CommandReceiptV2
create_not_executed_cmd_rcp_v2 CommandKind.transfer =
    CommandReceiptV2.transfer ExitCodeV2.not_executed 0
create_not_executed_cmd_rcp_v2 CommandKind.deploy =
    CommandReceiptV2.deploy ExitCodeV2.not_executed 0
create_not_executed_cmd_rcp_v2 CommandKind.call =
    CommandReceiptV2.call ExitCodeV2.not_executed 0 [] []
create_not_executed_cmd_rcp_v2 CommandKind.create_pool =
    CommandReceiptV2.create_pool ExitCodeV2.not_executed 0
create_not_executed_cmd_rcp_v2 CommandKind.set_pool_settings =
    CommandReceiptV2.set_pool_settings ExitCodeV2.not_executed 0
create_not_executed_cmd_rcp_v2 CommandKind.delete_pool =
    CommandReceiptV2.delete_pool ExitCodeV2.not_executed 0
create_not_executed_cmd_rcp_v2 CommandKind.create_deposit =
    CommandReceiptV2.create_deposit ExitCodeV2.not_executed 0
create_not_executed_cmd_rcp_v2 CommandKind.set_deposit_settings =
    CommandReceiptV2.set_deposit_settings ExitCodeV2.not_executed 0
create_not_executed_cmd_rcp_v2 CommandKind.top_up_deposit =
    CommandReceiptV2.top_up_deposit ExitCodeV2.not_executed 0
create_not_executed_cmd_rcp_v2 CommandKind.withdraw_deposit =
    CommandReceiptV2.withdraw_deposit ExitCodeV2.not_executed 0 0
create_not_executed_cmd_rcp_v2 CommandKind.stake_deposit =
    CommandReceiptV2.stake_deposit ExitCodeV2.not_executed 0 0
create_not_executed_cmd_rcp_v2 CommandKind.unstake_deposit =
    CommandReceiptV2.unstake_deposit ExitCodeV2.not_executed 0 0
create_not_executed_cmd_rcp_v2 CommandKind.next_epoch =
    CommandReceiptV2.next_epoch ExitCodeV2.not_executed 0

unfoldable pub gas_used_and_exit_code_v2 : CommandReceiptV2 → ℕ × ExitCodeV2
gas_used_and_exit_code_v2 (CommandReceiptV2.transfer e g) = (g, e)
gas_used_and_exit_code_v2 (CommandReceiptV2.deploy e g) = (g, e)
gas_used_and_exit_code_v2 (CommandReceiptV2.call e g _ _) = (g, e)
gas_used_and_exit_code_v2 (CommandReceiptV2.create_pool e g) = (g, e)
gas_used_and_exit_code_v2 (CommandReceiptV2.set_pool_settings e g) = (g, e)
gas_used_and_exit_code_v2 (CommandReceiptV2.delete_pool e g) = (g, e)
gas_used_and_exit_code_v2 (CommandReceiptV2.create_deposit e g) = (g, e)
gas_used_and_exit_code_v2 (CommandReceiptV2.set_deposit_settings e g) = (g, e)
gas_used_and_exit_code_v2 (CommandReceiptV2.top_up_deposit e g) = (g, e)
gas_used_and_exit_code_v2 (CommandReceiptV2.withdraw_deposit e g _) = (g, e)
gas_used_and_exit_code_v2 (CommandReceiptV2.stake_deposit e g _) = (g, e)
gas_used_and_exit_code_v2 (CommandReceiptV2.unstake_deposit e g _) = (g, e)
gas_used_and_exit_code_v2 (CommandReceiptV2.next_epoch e g) = (g, e)

unfoldable pub set_gas_used_and_exit_code_v2 : CommandReceiptV2 → ℕ → ExitCodeV2 → CommandReceiptV2
set_gas_used_and_exit_code_v2 (CommandReceiptV2.transfer _ _) g e = CommandReceiptV2.transfer e g
set_gas_used_and_exit_code_v2 (CommandReceiptV2.deploy _ _) g e = CommandReceiptV2.deploy e g
set_gas_used_and_exit_code_v2 (CommandReceiptV2.call _ _ l r) g e = CommandReceiptV2.call e g l r
set_gas_used_and_exit_code_v2 (CommandReceiptV2.create_pool _ _) g e =
    CommandReceiptV2.create_pool e g
set_gas_used_and_exit_code_v2 (CommandReceiptV2.set_pool_settings _ _) g e =
    CommandReceiptV2.set_pool_settings e g
set_gas_used_and_exit_code_v2 (CommandReceiptV2.delete_pool _ _) g e =
    CommandReceiptV2.delete_pool e g
set_gas_used_and_exit_code_v2 (CommandReceiptV2.create_deposit _ _) g e =
    CommandReceiptV2.create_deposit e g
set_gas_used_and_exit_code_v2 (CommandReceiptV2.set_deposit_settings _ _) g e =
    CommandReceiptV2.set_deposit_settings e g
set_gas_used_and_exit_code_v2 (CommandReceiptV2.top_up_deposit _ _) g e =
    CommandReceiptV2.top_up_deposit e g
set_gas_used_and_exit_code_v2 (CommandReceiptV2.withdraw_deposit _ _ a) g e =
    CommandReceiptV2.withdraw_deposit e g a
set_gas_used_and_exit_code_v2 (CommandReceiptV2.stake_deposit _ _ a) g e =
    CommandReceiptV2.stake_deposit e g a
set_gas_used_and_exit_code_v2 (CommandReceiptV2.unstake_deposit _ _ a) g e =
    CommandReceiptV2.unstake_deposit e g a
set_gas_used_and_exit_code_v2 (CommandReceiptV2.next_epoch _ _) g e =
    CommandReceiptV2.next_epoch e g
