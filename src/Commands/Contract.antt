-- ===== src/Commands/Contract.antt =====
-- The commands of src/commands/account.rs that run contracts: call and deploy.
pub mod Laws
pub mod Served
pub mod Deploy
use pchain_runtime.Prelude.{
  ℕ, suc, ◌-◌, Bool, true, false, Option, none, some, List, leb, ltb, if◌then◌else◌,
}
use pchain_runtime.Word.{saturating_add, checked_sub}
use pchain_runtime.Error.{
  TransitionError, Result, ok, err, panic, not_enough_balance_for_transfer, invalid_cbi,
  no_contractcode, execution_proper_gas_exhausted, cannot_compile, runtime_error,
  internal_runtime_error, other_deploy_error, contract_already_exists, disallowed_opcode,
  no_exported_contract_method,
}
use pchain_runtime.Types.{PublicAddress, Bytes, TxnVersion, CallTx, BlockchainParams}
use pchain_runtime.Cache.Data.{U32}
use pchain_runtime.Cache.World.{WorldState}
use pchain_runtime.Gas.Meter
use pchain_runtime.Gas.Meter.{GasMeter}
use pchain_runtime.State.{ExecutionState}
use pchain_runtime.Execution.{
  Execution, pure, gets, metered, metered_, abort, abort_if_gas_exhausted, ◌>>=◌, ◌>>◌,
}
use pchain_runtime.Network.{NetworkAccount}
use pchain_runtime.Contract.Engine.{Engine, ModuleBuildError, ContractValidateError}
use pchain_runtime.Contract.Host.{FuncError, Env}
use pchain_runtime.Contract.Call.{
  MethodCallError, MethodResult, Instance, call_instance, ws_cached_contract,
}
use pchain_runtime.Contract.Run.{run_wasm}

-- src/contract/cbi_version.rs.
abbrev pub current_cbi_version : ℕ
current_cbi_version = 0

unfoldable pub is_cbi_compatible : ℕ → Bool
is_cbi_compatible version = leb version current_cbi_version

-- `TransitionError::from` of src/error.rs.
unfoldable pub transition_error : MethodCallError → TransitionError
transition_error MethodCallError.gas_exhaustion = execution_proper_gas_exhausted
transition_error MethodCallError.no_exported_method = runtime_error
transition_error (MethodCallError.runtime none) = runtime_error
transition_error (MethodCallError.runtime (some FuncError.gas_exhaustion_error)) =
    execution_proper_gas_exhausted
transition_error (MethodCallError.runtime (some _)) = internal_runtime_error

abbrev compatible : Option U32 → Bool
compatible none = false
compatible (some version) = is_cbi_compatible version.value

-- `match .. { Ok(a) => a, Err(error) => abort!(..) }`
unfoldable pub or_abort : {WS E A : Type 0} → TransitionError → Option A → Execution WS E A
unfolding pure abort
or_abort error none = abort error
or_abort error (some a) = pure a

abbrev pub build_error : ModuleBuildError → TransitionError
build_error ModuleBuildError.disallowed_opcode_present = disallowed_opcode
build_error ModuleBuildError.other = cannot_compile

abbrev pub validate_error : ContractValidateError → TransitionError
validate_error ContractValidateError.method_not_found = no_exported_contract_method
validate_error ContractValidateError.instantiate_error = cannot_compile

abbrev pub abort_on :
    {WS E A : Type 0} → (A → TransitionError) → Option A → Execution WS E (Unit {0})
abort_on to_error none = pure tt
abort_on to_error (some e) = abort (to_error e)

abbrev pub environment : Bool → CallTx → BlockchainParams → Env
environment is_view call_tx bd = record {
  call_counter = 0;
  call_tx = call_tx;
  params_from_blockchain = bd;
  is_view = is_view;
}

module _ {WS E : Type 0} ⦃t : WorldState WS⦄ where
  abbrev pub transfer_amount : PublicAddress → Option ℕ → Execution WS E (Unit {0})
  transfer_amount target none = pure tt
  transfer_amount target (some amount) = do
    signer ← gets (λ s. s.txn_meta.signer)
    origin_balance ← metered (Meter.ws_balance signer)
    if ltb origin_balance amount then abort not_enough_balance_for_transfer else do
      metered_ (Meter.ws_set_balance signer (origin_balance - amount))
      target_balance ← metered (Meter.ws_balance target)
      metered_ (Meter.ws_set_balance target (saturating_add target_balance amount))

  unfoldable pub after_call : Option MethodCallError → Execution WS E (Unit {0})
  unfolding transition_error
  after_call none = abort_if_gas_exhausted
  after_call (some error) = abort (transition_error error)

abbrev pub contract_result : MethodResult → Result (Option MethodCallError)
contract_result MethodResult.completed = ok none
contract_result (MethodResult.errored e) = ok (some e)
contract_result MethodResult.panicked = panic

module _ {M WS E : Type 0} ⦃engine : Engine M⦄ ⦃t : WorldState WS⦄ ⦃net : NetworkAccount⦄ where
  -- `CallInstance::instantiate`, whose errors abort the command.
  unfoldable pub instantiate :
      PublicAddress → Bytes → Option (List Bytes) → Option ℕ → Execution WS E (CallTx × Instance M)
  unfolding or_abort ws_cached_contract Meter.run_operation
  instantiate target method arguments amount = do
    version ← metered (Meter.ws_cbi_version target)
    if compatible version
        then (do
          found ← metered (Meter.run_operation (ws_cached_contract engine target))
          code ← or_abort no_contractcode found
          left ← gets (λ s. checked_sub s.txn_meta.gas_limit (Meter.total_gas_used s.ctx.gas_meter))
          gas_limit_for_execution ← or_abort execution_proper_gas_exhausted left
          call_tx ← gets (λ s. record {
            base_tx = record s.txn_meta { gas_limit = gas_limit_for_execution };
            target = target;
            method = method;
            arguments = arguments;
            amount = amount;
          })
          instance ← or_abort cannot_compile (engine.instantiate code gas_limit_for_execution)
          pure (call_tx, instance))
        else abort invalid_cbi

  -- `self.instance.call()` on the context of the state, and the charge.
  unfoldable pub run_contract : Bool → CallTx × Instance M → Execution WS E (Option MethodCallError)
  unfolding call_instance run_wasm
  run_contract is_view (call_tx, instance) s =
      let (ctx, wasm_exec_gas, result) =
        call_instance (run_wasm (suc call_tx.base_tx.gas_limit)) (environment is_view call_tx s.bd)
          instance s.ctx in
      (
        contract_result result,
        record s {
          ctx = record ctx { gas_meter = Meter.manually_charge_gas wasm_exec_gas ctx.gas_meter };
        },
      )

  -- `CallInstance::call`, and the match on its result.
  unfoldable pub call_method : Bool → CallTx × Instance M → Execution WS E (Unit {0})
  unfolding run_contract after_call
  call_method is_view instance = do
    error ← run_contract is_view instance
    exhausted ← gets (λ s. ltb s.txn_meta.gas_limit (Meter.total_gas_used s.ctx.gas_meter))
    if exhausted then abort execution_proper_gas_exhausted else after_call error

module _ {M WS E : Type 0} (engine : Engine M) ⦃t : WorldState WS⦄ ⦃net : NetworkAccount⦄ where
  unfoldable pub call :
      Bool → PublicAddress → Bytes → Option (List Bytes) → Option ℕ → Execution WS E (Unit {0})
  unfolding instantiate call_method
  call is_view target method arguments amount = do
    transfer_amount target amount
    instance ← instantiate ⦃engine = engine⦄ target method arguments amount
    call_method ⦃engine = engine⦄ is_view instance

module _ {M : Type 0} (engine : Engine M) where
  abbrev pub contract_address : TxnVersion → PublicAddress → ℕ → ℕ → PublicAddress
  contract_address TxnVersion.v1 signer nonce command_index =
      engine.contract_address_v1 signer nonce
  contract_address TxnVersion.v2 signer nonce command_index =
      engine.contract_address_v2 signer nonce command_index

module _ {M WS E : Type 0} (engine : Engine M) ⦃t : WorldState WS⦄ where
  -- `DeployInstance::instantiate`.
  unfoldable pub check_contract : Bytes → ℕ → PublicAddress → Execution WS E (Unit {0})
  unfolding is_cbi_compatible
  check_contract contract cbi_version address =
      if is_cbi_compatible cbi_version
      then (do
        exist_cbi_version ← metered (Meter.ws_cbi_version address)
        abort_on (λ _. contract_already_exists) exist_cbi_version
        abort_on build_error (engine.from_bytecode_checked contract)
        abort_on validate_error (engine.validate_proper_contract contract))
      else abort other_deploy_error

  unfoldable pub deploy : ℕ → Bytes → ℕ → Execution WS E (Unit {0})
  unfolding check_contract
  deploy cmd_index contract cbi_version = do
    address ← gets (λ s.
        contract_address engine s.txn_meta.version s.txn_meta.signer s.txn_meta.nonce cmd_index)
    check_contract contract cbi_version address
    metered_ (Meter.ws_set_code address contract)
    metered_ (Meter.ws_set_cbi_version address (record { value = cbi_version }))
    exhausted ← gets (λ s. ltb s.txn_meta.gas_limit (Meter.total_gas_used s.ctx.gas_meter))
    if exhausted then abort execution_proper_gas_exhausted else abort_if_gas_exhausted
