-- ===== src/Error.antt =====
-- `TransitionError` of src/error.rs, its exit codes, and the results of fallible code.

pub data TransitionError : Type 0 where
  failed_world_state_upgrade wrong_nonce not_enough_balance_for_gas_limit : TransitionError
  not_enough_balance_for_transfer pre_execution_gas_exhausted disallowed_opcode : TransitionError
  cannot_compile no_exported_contract_method other_deploy_error : TransitionError
  contract_already_exists no_contractcode invalid_cbi : TransitionError
  execution_proper_gas_exhausted runtime_error : TransitionError
  internal_execution_proper_gas_exhaustion internal_runtime_error : TransitionError
  pool_already_exists pool_not_exists pool_has_no_stakes invalid_pool_policy : TransitionError
  deposits_already_exists deposits_not_exists invalid_deposit_policy : TransitionError
  invalid_stake_amount invalid_commands invalid_next_epoch_command : TransitionError

-- Rust's `Result<A, TransitionError>`, with the panics of the code as a third outcome.
pub data Result (A : Type 0) : Type 0 where
  ok : A → Result A
  err : TransitionError → Result A
  panic : Result A

pub data ExitCodeV1 : Type 0 where
  success failed gas_exhausted : ExitCodeV1

pub data ExitCodeV2 : Type 0 where
  ok error gas_exhausted not_executed : ExitCodeV2

unfoldable pub exit_code_v1 : TransitionError → ExitCodeV1
exit_code_v1 execution_proper_gas_exhausted = ExitCodeV1.gas_exhausted
exit_code_v1 internal_execution_proper_gas_exhaustion = ExitCodeV1.gas_exhausted
exit_code_v1 _ = ExitCodeV1.failed

unfoldable pub exit_code_v2 : TransitionError → ExitCodeV2
exit_code_v2 execution_proper_gas_exhausted = ExitCodeV2.gas_exhausted
exit_code_v2 internal_execution_proper_gas_exhaustion = ExitCodeV2.gas_exhausted
exit_code_v2 _ = ExitCodeV2.error
