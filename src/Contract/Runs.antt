-- ===== src/Contract/Runs.antt =====
-- A contract in execution, with all the contracts that it calls, keeps what a step of a host function
-- keeps: in a view, every pending write and the deferred commands.
use pchain_runtime.Prelude.{ℕ, ◌≡◌, refl, subst, Bool, true, false, Option, none, some, arith, ◌&&◌}
use pchain_runtime.Types.{PublicAddress, Bytes, Command}
use pchain_runtime.Cache.World.{WorldState, WorldStateCache}
use pchain_runtime.State.{TransitionContext}
use pchain_runtime.Network.{NetworkAccount}
use pchain_runtime.Contract.Engine.{Engine, HostCall, Wasm, not_callable}
use pchain_runtime.Contract.Host.{FuncError, Env, HostState, has_panicked}
use pchain_runtime.Contract.Call.{
  Runner, Instance, Outcome, MethodResult, method_result, outcome_panicked, result_panicked,
  child_result, MethodCallError, CallInput, call_instance, ws_cached_contract, call_child,
  enter_contract, is_some, transfer_amount, take_result, after_child, call_contract, call,
  host_function, import,
}
use pchain_runtime.Contract.Functions.{
  is_create_deposit, is_set_deposit_settings, is_top_up_deposit, is_withdraw_deposit,
  is_stake_deposit, is_unstake_deposit,
}
use pchain_runtime.Contract.Steps.{
  Keeps, WritesSafely, IsCacheStep, IsHostStep, IsContextStep, IsContextStep-refl, Keeps-on_cache,
  Keeps-guard, Keeps-write, host_rules, Keeps-pure, Keeps-fail, is_deposit_command,
}
use pchain_runtime.Contract.Charged.{
  cached_contract_code-step, Keeps-take_return_value, Keeps-remaining_gas, Keeps-ws_get_balance,
}
use pchain_runtime.Contract.Written.{memory_rules, Keeps-write_bytes}
use pchain_runtime.Contract.Frame.{
  Keeps-transfer_from_contract, Keeps-write_value, Keeps-arguments, Keeps-log, Keeps-return_value,
  Keeps-sha256, Keeps-keccak256, Keeps-ripemd, Keeps-hash, Keeps-verify, Keeps-set, Keeps-get,
  Keeps-transfer, Keeps-defer,
}

method_result-calm :
    (o : Outcome) (points : ℕ)
    → outcome_panicked o ≡ false
    → result_panicked (method_result o points) ≡ false
method_result-calm Outcome.finished points e = refl
method_result-calm (Outcome.trapped error) points e = refl
method_result-calm Outcome.panicked points e = e

child_result-calm :
    (consumed : ℕ) (r : MethodResult)
    → result_panicked r ≡ false
    → has_panicked (child_result consumed r) ≡ false
child_result-calm consumed MethodResult.completed e = refl
child_result-calm consumed (MethodResult.errored x) e = refl
child_result-calm consumed MethodResult.panicked e = absurd (cc e)

create_deposit-kind : (c : Command) → is_create_deposit c ≡ true → is_deposit_command c ≡ true
create_deposit-kind c e = ground (arith, e)

set_settings-kind : (c : Command) → is_set_deposit_settings c ≡ true → is_deposit_command c ≡ true
set_settings-kind c e = ground (arith, e)

top_up-kind : (c : Command) → is_top_up_deposit c ≡ true → is_deposit_command c ≡ true
top_up-kind c e = ground (arith, e)

withdraw-kind : (c : Command) → is_withdraw_deposit c ≡ true → is_deposit_command c ≡ true
withdraw-kind c e = ground (arith, e)

stake-kind : (c : Command) → is_stake_deposit c ≡ true → is_deposit_command c ≡ true
stake-kind c e = ground (arith, e)

unstake-kind : (c : Command) → is_unstake_deposit c ≡ true → is_deposit_command c ≡ true
unstake-kind c e = ground (arith, e)

module _ {M WS : Type 0} ⦃engine : Engine M⦄ ⦃t : WorldState WS⦄ where
  -- A way to run contracts that keeps what a step keeps.
  pub record RunnerKeeps (run : Runner M WS) : Type 0 where
    pub step :
        (env : Env) (wasm : Wasm M) (h : HostState M WS)
        → IsHostStep env.is_view h (run env wasm h).1
    pub calm :
        WritesSafely WS engine
        → (env : Env) (wasm : Wasm M) (h : HostState M WS)
        → outcome_panicked (run env wasm h).0 ≡ false

  pub call_instance-step :
      {run : Runner M WS}
      → RunnerKeeps run
      → (env : Env) (instance : Instance M) (ctx : TransitionContext WS)
      → IsContextStep env.is_view ctx (call_instance run env instance ctx).0
  unfolding call_instance
  call_instance-step k env (memory, none) ctx = IsContextStep-refl env.is_view ctx
  call_instance-step k env (memory, some entrypoint) ctx =
      (k.step env entrypoint
        (record { ctx = ctx; wasmer_gas = env.call_tx.base_tx.gas_limit; memory = memory })).context

module _ {M WS : Type 0} ⦃engine : Engine M⦄ ⦃t : WorldState WS⦄ where
  pub call_instance-calm :
      {run : Runner M WS}
      → RunnerKeeps run
      → WritesSafely WS engine
      → (env : Env) (instance : Instance M) (ctx : TransitionContext WS)
      → result_panicked (call_instance run env instance ctx).2 ≡ false
  unfolding call_instance
  call_instance-calm k s env (memory, none) ctx = refl
  call_instance-calm {run} k s env (memory, some entrypoint) ctx =
      let h : HostState M WS = record {
        ctx = ctx;
        wasmer_gas = env.call_tx.base_tx.gas_limit;
        memory = memory;
      } in
      method_result-calm (run env entrypoint h).0 (run env entrypoint h).1.wasmer_gas
        (k.calm s env entrypoint h)

module _ {M WS : Type 0} (engine : Engine M) ⦃t : WorldState WS⦄ where
  pub cached_contract-step :
      (view : Bool) (a : PublicAddress) (c : WorldStateCache WS)
      → IsCacheStep view c (ws_cached_contract engine a c).1
  unfolding ws_cached_contract
  cached_contract-step view a c = cached_contract_code-step view a c

module _ {M WS : Type 0} ⦃engine : Engine M⦄ ⦃t : WorldState WS⦄ where
  taken-Keeps :
      (view : Bool) (env : Env) (p : ℕ) (value : Option Bytes)
      → Keeps (WritesSafely WS engine) view (take_result {M = M} {WS = WS} env p value)
  taken-Keeps view env p none = Keeps-pure view 0
  taken-Keeps view env p (some value) = Keeps-write_bytes view env value p

  after_child-Keeps :
      (view : Bool) (env : Env) (p : ℕ) (e : Option MethodCallError)
      → Keeps (WritesSafely WS engine) view (after_child {M = M} {WS = WS} env p e)
  after_child-Keeps view env p none =
      search (host_rules, Keeps-take_return_value, taken-Keeps) depth 8
  after_child-Keeps view env p (some e) = search (host_rules, Keeps-remaining_gas) depth 8

  -- A view transfers nothing: its call with an amount has failed before.
  pub transfer_amount-Keeps :
      (view : Bool) (a b : PublicAddress) (amount : Option ℕ)
      → view && is_some amount ≡ false
      → Keeps (WritesSafely WS engine) view (transfer_amount {M = M} {WS = WS} a b amount)
  transfer_amount-Keeps view a b none e = Keeps-pure view tt
  transfer_amount-Keeps true a b (some amount) e = absurd (cc e)
  transfer_amount-Keeps false a b (some amount) e = Keeps-transfer_from_contract a amount b

module _ {M WS : Type 0} ⦃engine : Engine M⦄ ⦃t : WorldState WS⦄ (run : Runner M WS)
    (k : RunnerKeeps run) where
  pub Keeps-call_child :
      (view : Bool) (env : Env) (instance : Instance M)
      → env.is_view ≡ view
      → Keeps (WritesSafely WS engine) view (call_child run env instance)
  unfolding call_child
  Keeps-call_child view env instance e = record {
    step = λ h. record {
      context =
          subst (λ v. IsContextStep v h.ctx (call_instance run env instance h.ctx).0) e
            (call_instance-step k env instance h.ctx);
      points = omega arith;
    };
    calm = λ s h.
        child_result-calm (call_instance run env instance h.ctx).1
          (call_instance run env instance h.ctx).2 (call_instance-calm k s env instance h.ctx);
  }

  Keeps-enter_contract :
      (env : Env) (p : ℕ) (input : CallInput) (code : Bytes)
      → Keeps (WritesSafely WS engine) env.is_view (enter_contract run env p input code)
  unfolding enter_contract
  Keeps-enter_contract env p input code =
      search (host_rules, Keeps-call_child, after_child-Keeps) depth 20

  Keeps-call_contract :
      (env : Env) (p : ℕ) (input : CallInput)
      → Keeps (WritesSafely WS engine) env.is_view (call_contract run env p input)
  unfolding call_contract
  Keeps-call_contract env p input =
      Keeps-guard env.is_view (env.is_view && is_some input.amount)
        (Keeps-fail env.is_view FuncError.internal)
        (λ e.
          search
            (
              host_rules, transfer_amount-Keeps, Keeps-on_cache, cached_contract-step,
              Keeps-enter_contract,
            )
            depth 20)

  Keeps-call :
      (env : Env) (a b c : ℕ) → Keeps (WritesSafely WS engine) env.is_view (call run env a b c)
  unfolding call
  Keeps-call env a b c = search (memory_rules, Keeps-call_contract) depth 12

  -- The functions that write are those that a view cannot call.
  Keeps-host_function :
      ⦃net : NetworkAccount⦄ (env : Env) (c : HostCall)
      → (env.is_view ≡ true → not_callable c ≡ false)
      → Keeps (WritesSafely WS engine) env.is_view (host_function run env c)
  unfolding host_function not_callable
  Keeps-host_function env (HostCall.set a b c d) e =
      Keeps-write env.is_view e (Keeps-set env a b c d)
  Keeps-host_function env (HostCall.get a b c) e =
      Keeps-get env.is_view env env.call_tx.target a b c
  Keeps-host_function ⦃net⦄ env (HostCall.get_network_storage a b c) e =
      Keeps-get env.is_view env net.network_address a b c
  Keeps-host_function env HostCall.balance e = Keeps-ws_get_balance env.is_view env.call_tx.target
  Keeps-host_function env HostCall.block_height e = Keeps-pure env.is_view _
  Keeps-host_function env HostCall.block_timestamp e = Keeps-pure env.is_view _
  Keeps-host_function env (HostCall.prev_block_hash p) e = Keeps-write_value env.is_view env _ p
  Keeps-host_function env (HostCall.calling_account p) e = Keeps-write_value env.is_view env _ p
  Keeps-host_function env (HostCall.current_account p) e = Keeps-write_value env.is_view env _ p
  Keeps-host_function env (HostCall.method p) e = Keeps-write_bytes env.is_view env _ p
  Keeps-host_function env (HostCall.arguments p) e = Keeps-arguments env.is_view env _ p
  Keeps-host_function env HostCall.amount e = Keeps-pure env.is_view _
  Keeps-host_function env HostCall.is_internal_call e = Keeps-pure env.is_view _
  Keeps-host_function env (HostCall.transaction_hash p) e = Keeps-write_value env.is_view env _ p
  Keeps-host_function env (HostCall.call a b c) e = Keeps-call env a b c
  Keeps-host_function env (HostCall.return_value p l) e = Keeps-return_value env.is_view p l
  Keeps-host_function env (HostCall.transfer p) e = Keeps-write env.is_view e (Keeps-transfer env p)
  Keeps-host_function env (HostCall.defer_create_deposit p l) e =
      Keeps-write env.is_view e (Keeps-defer is_create_deposit create_deposit-kind env p l)
  Keeps-host_function env (HostCall.defer_set_deposit_settings p l) e =
      Keeps-write env.is_view e (Keeps-defer is_set_deposit_settings set_settings-kind env p l)
  Keeps-host_function env (HostCall.defer_topup_deposit p l) e =
      Keeps-write env.is_view e (Keeps-defer is_top_up_deposit top_up-kind env p l)
  Keeps-host_function env (HostCall.defer_withdraw_deposit p l) e =
      Keeps-write env.is_view e (Keeps-defer is_withdraw_deposit withdraw-kind env p l)
  Keeps-host_function env (HostCall.defer_stake_deposit p l) e =
      Keeps-write env.is_view e (Keeps-defer is_stake_deposit stake-kind env p l)
  Keeps-host_function env (HostCall.defer_unstake_deposit p l) e =
      Keeps-write env.is_view e (Keeps-defer is_unstake_deposit unstake-kind env p l)
  Keeps-host_function env (HostCall.log p l) e = Keeps-log env.is_view p l
  Keeps-host_function env (HostCall.sha256 p l d) e =
      Keeps-hash env.is_view env p l d (Keeps-sha256 env.is_view)
  Keeps-host_function env (HostCall.keccak256 p l d) e =
      Keeps-hash env.is_view env p l d (Keeps-keccak256 env.is_view)
  Keeps-host_function env (HostCall.ripemd p l d) e =
      Keeps-hash env.is_view env p l d (Keeps-ripemd env.is_view)
  Keeps-host_function env (HostCall.verify_ed25519_signature p l s a) e =
      Keeps-verify env.is_view p l s a

  pub Keeps-import :
      ⦃net : NetworkAccount⦄ (env : Env) (c : HostCall)
      → Keeps (WritesSafely WS engine) env.is_view (import run env c)
  unfolding import
  Keeps-import env c =
      Keeps-guard env.is_view (env.is_view && not_callable c)
        (Keeps-fail env.is_view FuncError.internal)
        (λ e. Keeps-host_function env c (λ v. ground (arith, e, v)))
