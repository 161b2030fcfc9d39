-- ===== src/Contract/Call.antt =====
-- The call of another contract inside a contract, the instance of a contract, and the dispatch of the
-- host functions: src/contract/host_functions.rs, instance.rs, module.rs, cbi_host_functions.rs.
use pchain_runtime.Prelude.{
  ℕ, Bool, true, false, not, ◌&&◌, Option, none, some, List, nat_beq, if◌then◌else◌,
}
use pchain_runtime.Word.{u32_saturating_add, saturating_sub}
use pchain_runtime.Types.{PublicAddress, Bytes, Command, CallTx}
use pchain_runtime.Cache.World.{WorldState}
use pchain_runtime.Gas.Operations.{Operation, ws_cached_contract_code}
use pchain_runtime.State.{TransitionContext}
use pchain_runtime.Network.{NetworkAccount}
use pchain_runtime.Contract.Engine.{Engine, HostCall, Wasm, not_callable}
use pchain_runtime.Contract.Memory.{amount_or_0, bit}
use pchain_runtime.Contract.Operations
use pchain_runtime.Contract.Operations.{
  read_bytes, write_bytes, remaining_gas, take_return_value, on_cache, ws_get_balance,
}
use pchain_runtime.Contract.Functions.{
  defer, log, return_value, hash, verify_ed25519_signature, write, arguments, set, get, transfer,
  transfer_from_contract, address_bytes, is_create_deposit, is_set_deposit_settings,
  is_top_up_deposit, is_withdraw_deposit, is_stake_deposit, is_unstake_deposit,
}
use pchain_runtime.Contract.Host.{
  FuncError, Env, HostState, HostResult, Host, pure, fail, ok_or, returned, deduct_gas, ◌>>=◌, ◌>>◌,
}

-- How an execution ends. A panic of a host function goes through the engine. Exhausted points are a trap with no points left.
pub data Outcome : Type 0 where
  finished : Outcome
  trapped : Option FuncError → Outcome
  panicked : Outcome

pub data MethodCallError : Type 0 where
  runtime : Option FuncError → MethodCallError
  gas_exhaustion : MethodCallError
  no_exported_method : MethodCallError

-- The running of an instance in its environment.
abbrev pub Runner : Type 0 → Type 0 → Type 0
Runner M WS = Env → Wasm M → HostState M WS → Outcome × HostState M WS

abbrev pub Instance : Type 0 → Type 0
Instance M = M × Option (Wasm M)

-- How `call_method` ends.
pub data MethodResult : Type 0 where
  completed : MethodResult
  errored : MethodCallError → MethodResult
  panicked : MethodResult

-- The result of `call_method`, from the outcome and the remaining gas.
abbrev pub outcome_panicked : Outcome → Bool
outcome_panicked Outcome.panicked = true
outcome_panicked _ = false

abbrev pub result_panicked : MethodResult → Bool
result_panicked MethodResult.panicked = true
result_panicked _ = false

abbrev pub method_result : Outcome → ℕ → MethodResult
method_result Outcome.finished _ = MethodResult.completed
method_result (Outcome.trapped e) gas_left =
    MethodResult.errored (if nat_beq gas_left 0 then gas_exhaustion else runtime e)
method_result Outcome.panicked _ = MethodResult.panicked

module _ {M WS : Type 0} (run : Runner M WS) where
  -- `ContractInstance::call`: the context, the gas used and the result.
  unfoldable pub call_instance :
      Env → Instance M → TransitionContext WS → TransitionContext WS × ℕ × MethodResult
  call_instance env (memory, none) ctx = (ctx, 0, MethodResult.errored no_exported_method)
  call_instance env (memory, some entrypoint) ctx =
      let gas_limit = env.call_tx.base_tx.gas_limit in
      let (outcome, h) =
        run env entrypoint (record { ctx = ctx; wasmer_gas = gas_limit; memory = memory }) in
      (h.ctx, saturating_sub gas_limit h.wasmer_gas, method_result outcome h.wasmer_gas)

pub record CallInput : Type 0 where
  pub target : PublicAddress
  pub method : Bytes
  pub arguments : Option (List Bytes)
  pub amount : Option ℕ

abbrev pub call_input : Command → Option CallInput
call_input (Command.call target method arguments amount) =
    some (record { target = target; method = method; arguments = arguments; amount = amount })
call_input _ = none

abbrev pub is_some : {A : Type 0} → Option A → Bool
is_some none = false
is_some (some _) = true

-- `ws_cached_contract` of src/gas/operations.rs, with no cache of modules: the code, if it compiles.
abbrev pub compiled : {M : Type 0} → Engine M → Option Bytes → Option Bytes
compiled engine none = none
compiled engine (some code) = if engine.from_bytecode_unchecked code then some code else none

unfoldable pub ws_cached_contract :
    {M WS : Type 0} ⦃t : WorldState WS⦄ → Engine M → PublicAddress → Operation WS (Option Bytes)
unfolding ws_cached_contract_code
ws_cached_contract engine address cache =
    let (receipt, cache') = ws_cached_contract_code address cache in
    ((compiled engine receipt.0, receipt.1), cache')

module _ {M WS : Type 0} ⦃t : WorldState WS⦄ where
  abbrev pub transfer_amount : PublicAddress → PublicAddress → Option ℕ → Host M WS (Unit {0})
  transfer_amount signer target none = pure tt
  transfer_amount signer target (some amount) = transfer_from_contract signer amount target

module _ {M WS : Type 0} ⦃engine : Engine M⦄ where
  abbrev pub take_result : Env → ℕ → Option Bytes → Host M WS ℕ
  take_result env return_ptr_ptr none = pure 0
  take_result env return_ptr_ptr (some res) = write_bytes env res return_ptr_ptr

  abbrev pub after_child : Env → ℕ → Option MethodCallError → Host M WS ℕ
  after_child env return_ptr_ptr none = take_return_value >>= take_result env return_ptr_ptr
  after_child env return_ptr_ptr (some _) = remaining_gas >>= λ remaining.
      if nat_beq remaining 0
      then fail FuncError.gas_exhaustion_error
      else fail FuncError.method_call_error

abbrev pub child_result : ℕ → MethodResult → HostResult (ℕ × Option MethodCallError)
child_result consumed MethodResult.completed = returned (consumed, none)
child_result consumed (MethodResult.errored e) = returned (consumed, some e)
child_result consumed MethodResult.panicked = HostResult.panicked

module _ {M WS : Type 0} ⦃engine : Engine M⦄ ⦃t : WorldState WS⦄ (run : Runner M WS) where
  -- The child runs in the parent's context; the parent keeps its own memory and points.
  unfoldable pub call_child : Env → Instance M → Host M WS (ℕ × Option MethodCallError)
  unfolding call_instance
  call_child env instance h =
      let (ctx, consumed, result) = call_instance run env instance h.ctx in
      (child_result consumed result, record h { ctx = ctx })

  -- The instance of the code that was found, and what follows its call.
  unfoldable pub enter_contract : Env → ℕ → CallInput → Bytes → Host M WS ℕ
  unfolding ok_or remaining_gas call_child deduct_gas pure fail take_return_value write_bytes ◌>>=◌
  enter_contract env return_ptr_ptr input code = do
    gas_limit ← remaining_gas
    let call_tx : CallTx = record {
      base_tx = record env.call_tx.base_tx { signer = env.call_tx.target; gas_limit = gas_limit };
      target = input.target;
      method = input.method;
      arguments = input.arguments;
      amount = input.amount;
    }
    instance ← ok_or FuncError.contract_not_found (engine.instantiate code gas_limit)
    (child_call_gas_consumed, child_call_error) ←
        call_child
          (record env { call_counter = u32_saturating_add env.call_counter 1; call_tx = call_tx })
          instance
    deduct_gas child_call_gas_consumed
    after_child env return_ptr_ptr child_call_error

  unfoldable pub call_contract : Env → ℕ → CallInput → Host M WS ℕ
  unfolding transfer_from_contract on_cache ws_cached_contract ok_or enter_contract fail ◌>>=◌
  call_contract env return_ptr_ptr input =
      if env.is_view && is_some input.amount then fail FuncError.internal else do
        transfer_amount env.call_tx.target input.target input.amount
        found ← on_cache (ws_cached_contract engine input.target)
        code ← ok_or FuncError.contract_not_found found
        enter_contract env return_ptr_ptr input code

  unfoldable pub call : Env → ℕ → ℕ → ℕ → Host M WS ℕ
  unfolding read_bytes ok_or call_contract ◌>>=◌
  call env call_input_ptr call_input_len return_ptr_ptr = do
    call_command_bytes ← read_bytes call_input_ptr call_input_len
    call_command ← ok_or FuncError.runtime (engine.deserialize_command call_command_bytes)
    input ← ok_or FuncError.internal (call_input call_command)
    call_contract env return_ptr_ptr input

  -- `create_importable`.
  unfoldable pub host_function : ⦃net : NetworkAccount⦄ → Env → HostCall → Host M WS ℕ
  unfolding set get ws_get_balance write write_bytes arguments call return_value transfer defer log
      hash Operations.sha256 Operations.keccak256 Operations.ripemd verify_ed25519_signature pure
  host_function env (HostCall.set kp kl vp vl) = set env kp kl vp vl
  host_function env (HostCall.get kp kl vp) = get env env.call_tx.target kp kl vp
  host_function ⦃net⦄ env (HostCall.get_network_storage kp kl vp) =
      get env net.network_address kp kl vp
  host_function env HostCall.balance = ws_get_balance env.call_tx.target
  host_function env HostCall.block_height = pure env.params_from_blockchain.this_block_number
  host_function env HostCall.block_timestamp = pure env.params_from_blockchain.timestamp
  host_function env (HostCall.prev_block_hash p) =
      write env env.params_from_blockchain.prev_block_hash p
  host_function env (HostCall.calling_account p) =
      write env (address_bytes env.call_tx.base_tx.signer) p
  host_function env (HostCall.current_account p) = write env (address_bytes env.call_tx.target) p
  host_function env (HostCall.method p) = write_bytes env env.call_tx.method p
  host_function env (HostCall.arguments p) = arguments env env.call_tx.arguments p
  host_function env HostCall.amount = pure (amount_or_0 env.call_tx.amount)
  host_function env HostCall.is_internal_call = pure (bit (not (nat_beq env.call_counter 0)))
  host_function env (HostCall.transaction_hash p) = write env env.call_tx.base_tx.hash p
  host_function env (HostCall.call ip il rp) = call env ip il rp
  host_function env (HostCall.return_value p l) = return_value p l
  host_function env (HostCall.transfer p) = transfer env p
  host_function env (HostCall.defer_create_deposit p l) = defer is_create_deposit env p l
  host_function env (HostCall.defer_set_deposit_settings p l) =
      defer is_set_deposit_settings env p l
  host_function env (HostCall.defer_topup_deposit p l) = defer is_top_up_deposit env p l
  host_function env (HostCall.defer_withdraw_deposit p l) = defer is_withdraw_deposit env p l
  host_function env (HostCall.defer_stake_deposit p l) = defer is_stake_deposit env p l
  host_function env (HostCall.defer_unstake_deposit p l) = defer is_unstake_deposit env p l
  host_function env (HostCall.log p l) = log p l
  host_function env (HostCall.sha256 p l d) = hash env Operations.sha256 p l d
  host_function env (HostCall.keccak256 p l d) = hash env Operations.keccak256 p l d
  host_function env (HostCall.ripemd p l d) = hash env Operations.ripemd p l d
  host_function env (HostCall.verify_ed25519_signature p l s a) = verify_ed25519_signature p l s a

module _ {M WS : Type 0} ⦃engine : Engine M⦄ ⦃t : WorldState WS⦄ ⦃net : NetworkAccount⦄
    (run : Runner M WS) where
  unfoldable pub import : Env → HostCall → Host M WS ℕ
  unfolding not_callable host_function fail
  import env c =
      if env.is_view && not_callable c then fail FuncError.internal else host_function run env c
