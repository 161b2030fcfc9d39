-- ===== src/Cache/Receipt.antt =====
-- `CommandReceiptBuffer` of src/execution/cache/receipt_buffer.rs, for both receipt versions. The
-- trait `ProcessReceipts`, with the making of one receipt, is the interface `ReceiptFormat`.
pub mod Laws
use pchain_runtime.Prelude.{
  ℕ, ◌+◌, ◌/◌, ◌%◌, zero, suc, Bool, ◌&&◌, Option, none, some, List, [], ◌∷◌, ◌++◌, map, length,
  drop, last, update_last, ltb, nat_beq, if◌then◌else◌,
}
use pchain_runtime.Word.{saturating_add}
use pchain_runtime.Error.{TransitionError, ExitCodeV1, ExitCodeV2, exit_code_v1, exit_code_v2}
use pchain_runtime.Types.{Bytes, CommandKind, CommandOutput}
use pchain_runtime.Types.Receipt.{
  CommandReceiptV1, CommandReceiptV2, ReceiptV2, create_executed_cmd_rcp_v2,
  create_not_executed_cmd_rcp_v2, gas_used_and_exit_code_v2, set_gas_used_and_exit_code_v2,
}

-- `execution_result: &Result<Q, TransitionError>`, which is read for its error alone.
abbrev pub ExecutionResult : Type 0
ExecutionResult = Option TransitionError

-- What differs between the two versions. `into_receipt` is `none` where the code panics.
pub record ReceiptFormat (E R : Type 0) : Type 0 where
  pub command_receipt : CommandKind → ExecutionResult → ℕ → CommandOutput → E
  pub combine : E → E → E
  pub into_receipt : List E → ℕ → List CommandKind → Option R

abbrev pub Buffer : Type 0 → Type 0
Buffer E = List E

module _ {E R : Type 0} (format : ReceiptFormat E R) where
  unfoldable pub push_command_receipt : E → Buffer E → Buffer E
  push_command_receipt receipt rcps = rcps ++ receipt ∷ []

  -- `if let Some(last) = self.cmd_rcps.last_mut()`: with no receipt yet nothing is kept.
  unfoldable pub push_deferred_command_receipt : E → Buffer E → Buffer E
  push_deferred_command_receipt receipt rcps =
      update_last (λ last. format.combine last receipt) rcps

unfoldable pub exit_code_of_v1 : ExecutionResult → ExitCodeV1
unfolding exit_code_v1
exit_code_of_v1 none = ExitCodeV1.success
exit_code_of_v1 (some error) = exit_code_v1 error

unfoldable pub exit_code_of_v2 : ExecutionResult → ExitCodeV2
unfolding exit_code_v2
exit_code_of_v2 none = ExitCodeV2.ok
exit_code_of_v2 (some error) = exit_code_v2 error

unfoldable pub command_receipt_v1 :
    CommandKind → ExecutionResult → ℕ → CommandOutput → CommandReceiptV1
unfolding exit_code_of_v1
command_receipt_v1 _ result gas_used output = record {
  exit_code = exit_code_of_v1 result;
  gas_used = gas_used;
  return_values = output.return_value;
  logs = output.logs;
}

-- The logs of the deferred command are not kept.
unfoldable pub combine_v1 : CommandReceiptV1 → CommandReceiptV1 → CommandReceiptV1
combine_v1 last receipt = record last {
  gas_used = saturating_add last.gas_used receipt.gas_used;
  exit_code = receipt.exit_code;
  return_values = receipt.return_values;
}

unfoldable pub into_receipt_v1 :
    List CommandReceiptV1 → ℕ → List CommandKind → Option (List CommandReceiptV1)
into_receipt_v1 rcps _ _ = some rcps

abbrev pub format_v1 : ReceiptFormat CommandReceiptV1 (List CommandReceiptV1)
format_v1 = record {
  command_receipt = command_receipt_v1;
  combine = combine_v1;
  into_receipt = into_receipt_v1;
}

unfoldable pub command_receipt_v2 :
    CommandKind → ExecutionResult → ℕ → CommandOutput → CommandReceiptV2
unfolding exit_code_of_v2 create_executed_cmd_rcp_v2
command_receipt_v2 kind result gas_used output =
    create_executed_cmd_rcp_v2 kind (exit_code_of_v2 result) gas_used output

-- `to_le_bytes` of a `u64`.
unfoldable pub le_bytes : ℕ → ℕ → Bytes
le_bytes zero n = []
le_bytes (suc w) n = (n % 256) ∷ le_bytes w (n / 256)

unfoldable pub to_le_bytes : ℕ → Bytes
unfolding le_bytes
to_le_bytes n = le_bytes 8 n

-- The override of a call's return value by the deferred command's.
unfoldable pub override_return_value : CommandReceiptV2 → CommandReceiptV2 → CommandReceiptV2
unfolding to_le_bytes
override_return_value (CommandReceiptV2.call e g l _) (CommandReceiptV2.call _ _ _ r) =
    CommandReceiptV2.call e g l r
override_return_value (CommandReceiptV2.call e g l _) (CommandReceiptV2.withdraw_deposit _ _ a) =
    CommandReceiptV2.call e g l (to_le_bytes a)
override_return_value (CommandReceiptV2.call e g l _) (CommandReceiptV2.stake_deposit _ _ a) =
    CommandReceiptV2.call e g l (to_le_bytes a)
override_return_value (CommandReceiptV2.call e g l _) (CommandReceiptV2.unstake_deposit _ _ a) =
    CommandReceiptV2.call e g l (to_le_bytes a)
override_return_value last _ = last

unfoldable pub combine_v2 : CommandReceiptV2 → CommandReceiptV2 → CommandReceiptV2
unfolding override_return_value gas_used_and_exit_code_v2 set_gas_used_and_exit_code_v2
combine_v2 last receipt =
    let last_gas_used = (gas_used_and_exit_code_v2 last).0 in
    let (gas_used, exit_code) = gas_used_and_exit_code_v2 receipt in
    override_return_value
      (set_gas_used_and_exit_code_v2 last (saturating_add last_gas_used gas_used) exit_code) receipt

-- The exit code of the last receipt; `none` is the panic of `last().unwrap()`.
abbrev last_exit_code : Option CommandReceiptV2 → Option ExitCodeV2
last_exit_code none = none
last_exit_code (some r) = some (gas_used_and_exit_code_v2 r).1

unfoldable pub fill_not_executed : List CommandReceiptV2 → List CommandKind → List CommandReceiptV2
unfolding create_not_executed_cmd_rcp_v2
fill_not_executed rcps kinds =
    if ltb (length rcps) (length kinds)
    then rcps ++ map create_not_executed_cmd_rcp_v2 (drop (length rcps) kinds)
    else rcps

abbrev receipt_of : ℕ → List CommandReceiptV2 → Option ExitCodeV2 → Option ReceiptV2
receipt_of gas_used rcps none = none
receipt_of gas_used rcps (some code) =
    some (record { gas_used = gas_used; exit_code = code; command_receipts = rcps })

unfoldable pub into_receipt_v2 : List CommandReceiptV2 → ℕ → List CommandKind → Option ReceiptV2
unfolding fill_not_executed gas_used_and_exit_code_v2
into_receipt_v2 rcps gas_used kinds =
    if nat_beq (length kinds) 0 && nat_beq (length rcps) 0
    then receipt_of gas_used rcps (some ExitCodeV2.ok)
    else receipt_of gas_used (fill_not_executed rcps kinds) (last_exit_code (last rcps))

abbrev pub format_v2 : ReceiptFormat CommandReceiptV2 ReceiptV2
format_v2 = record {
  command_receipt = command_receipt_v2;
  combine = combine_v2;
  into_receipt = into_receipt_v2;
}
