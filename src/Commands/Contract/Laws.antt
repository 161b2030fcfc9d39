-- ===== src/Commands/Contract/Laws.antt =====
-- The commands that run contracts keep what the executor needs of a command, whatever the contracts
-- do, and the gas of a contract never exceeds the limit.
use pchain_runtime.Prelude.{ℕ, suc, refl, Bool, Option, none, some, List, nat_eq}
use pchain_runtime.Error.{TransitionError}
use pchain_runtime.Types.{PublicAddress, Bytes, CallTx}
use pchain_runtime.Cache.Data.{U32}
use pchain_runtime.Cache.World.{WorldState}
use pchain_runtime.Cache.World.Laws
use pchain_runtime.Gas.Meter
use pchain_runtime.Gas.Meter.{GasMeter}
use pchain_runtime.Execution.Behaves.{
  IsReverted, Behaves, behaves_rules, IsMeterStep, IsMeterStep-trans, Behaves-pure, Behaves-abort,
}
use pchain_runtime.Execution.Steps.{
  IsMeterStep-ws_balance, IsMeterStep-ws_set_balance, IsMeterStep-manually_charge_gas,
}
use pchain_runtime.State.{ExecutionState}
use pchain_runtime.Network.{NetworkAccount}
use pchain_runtime.Contract.Engine.{Engine}
use pchain_runtime.Contract.Call.{MethodCallError, MethodResult, Instance, ws_cached_contract}
use pchain_runtime.Contract.Runs.{call_instance-step}
use pchain_runtime.Contract.Wasm.{run_wasm-RunnerKeeps}
use pchain_runtime.Commands.Contract.{
  contract_result, or_abort, abort_on, transfer_amount, environment, instantiate, run_contract,
  after_call, call_method, call, check_contract, deploy, transition_error,
}

module _ {WS : Type 0} ⦃t : WorldState WS⦄ where
  IsMeterStep-ws_cbi_version :
      (a : PublicAddress) (g : GasMeter WS) → IsMeterStep g (Meter.ws_cbi_version a g).1
  unfolding Meter.ws_cbi_version
  IsMeterStep-ws_cbi_version a g = record {
    same = record { version = refl; gas_limit = refl; inclusion = refl; total = refl; ws = refl };
    valid = λ h. Laws.cbi_version-IsValid a h;
  }

  IsMeterStep-ws_set_cbi_version :
      (a : PublicAddress) (v : U32) (g : GasMeter WS)
      → IsMeterStep g (Meter.ws_set_cbi_version a v g)
  unfolding Meter.ws_set_cbi_version
  IsMeterStep-ws_set_cbi_version a v g = record {
    same = record { version = refl; gas_limit = refl; inclusion = refl; total = refl; ws = refl };
    valid = λ h. Laws.set_cbi_version-IsValid a v (Laws.cbi_version-IsValid a h);
  }

  IsMeterStep-ws_set_code :
      (a : PublicAddress) (code : Bytes) (g : GasMeter WS)
      → IsMeterStep g (Meter.ws_set_code a code g)
  unfolding Meter.ws_set_code
  IsMeterStep-ws_set_code a code g = record {
    same = record { version = refl; gas_limit = refl; inclusion = refl; total = refl; ws = refl };
    valid = λ h. Laws.set_contract_code-IsValid a code (Laws.contract_code-IsValid a h);
  }

  IsMeterStep-ws_cached_contract :
      {M : Type 0} (engine : Engine M) (a : PublicAddress) (g : GasMeter WS)
      → IsMeterStep g (Meter.run_operation (ws_cached_contract engine a) g).1
  unfolding Meter.run_operation ws_cached_contract
  IsMeterStep-ws_cached_contract engine a g = record {
    same = record { version = refl; gas_limit = refl; inclusion = refl; total = refl; ws = refl };
    valid = λ h. Laws.contract_code-IsValid a h;
  }

module _ {WS E : Type 0} ⦃t : WorldState WS⦄ where
  or_abort-Behaves :
      {A : Type 0} (error : TransitionError) (a : Option A)
      → Behaves (or_abort {WS = WS} {E = E} error a)
  unfolding or_abort
  or_abort-Behaves error none = Behaves-abort error
  or_abort-Behaves error (some a) = Behaves-pure a

  abort_on-Behaves :
      {A : Type 0} (to_error : A → TransitionError) (a : Option A)
      → Behaves (abort_on {WS = WS} {E = E} to_error a)
  abort_on-Behaves to_error none = Behaves-pure tt
  abort_on-Behaves to_error (some e) = Behaves-abort (to_error e)

  transfer_amount-Behaves :
      (target : PublicAddress) (amount : Option ℕ)
      → Behaves (transfer_amount {WS = WS} {E = E} target amount)
  transfer_amount-Behaves target none = Behaves-pure tt
  transfer_amount-Behaves target (some amount) =
      search (behaves_rules, IsMeterStep-ws_balance, IsMeterStep-ws_set_balance) depth 16

  after_call-Behaves : (e : Option MethodCallError) → Behaves (after_call {WS = WS} {E = E} e)
  unfolding after_call
  after_call-Behaves none = search behaves_rules depth 4
  after_call-Behaves (some e) = Behaves-abort (transition_error e)

module _ {WS E : Type 0} where
  -- The result of a contract is no error yet.
  contract_result-IsReverted :
      (r : MethodResult) (s : ExecutionState WS E) → IsReverted (contract_result r) s
  contract_result-IsReverted MethodResult.completed s = tt
  contract_result-IsReverted (MethodResult.errored e) s = tt
  contract_result-IsReverted MethodResult.panicked s = tt

module _ {M WS E : Type 0} ⦃engine : Engine M⦄ ⦃t : WorldState WS⦄ ⦃net : NetworkAccount⦄ where
  instantiate-Behaves :
      (target : PublicAddress) (method : Bytes) (arguments : Option (List Bytes))
      (amount : Option ℕ)
      → Behaves (instantiate {M = M} {WS = WS} {E = E} target method arguments amount)
  unfolding instantiate
  instantiate-Behaves target method arguments amount =
      search
        (
          behaves_rules, IsMeterStep-ws_cbi_version, IsMeterStep-ws_cached_contract,
          or_abort-Behaves,
        )
        depth 24

  run_contract-Behaves :
      (is_view : Bool) (instance : CallTx × Instance M)
      → Behaves (run_contract {WS = WS} {E = E} is_view instance)
  unfolding run_contract
  run_contract-Behaves is_view (call_tx, instance) =
      let fuel = suc call_tx.base_tx.gas_limit in
      record {
        frame = λ s. record {
          txn_meta = refl;
          bd = refl;
          receipt = refl;
          meter =
              IsMeterStep-trans
                (call_instance-step (run_wasm-RunnerKeeps fuel) (environment is_view call_tx s.bd)
                  instance s.ctx).meter
                (IsMeterStep-manually_charge_gas _ _);
        };
        reverted = λ s. contract_result-IsReverted _ _;
      }

  call_method-Behaves :
      (is_view : Bool) (instance : CallTx × Instance M)
      → Behaves (call_method {WS = WS} {E = E} is_view instance)
  unfolding call_method
  call_method-Behaves is_view instance =
      search (behaves_rules, run_contract-Behaves, after_call-Behaves) depth 16

module _ {M WS E : Type 0} (engine : Engine M) ⦃t : WorldState WS⦄ ⦃net : NetworkAccount⦄ where
  pub call-Behaves :
      (is_view : Bool) (target : PublicAddress) (method : Bytes) (arguments : Option (List Bytes))
      (amount : Option ℕ)
      → Behaves (call {WS = WS} {E = E} engine is_view target method arguments amount)
  unfolding call
  call-Behaves is_view target method arguments amount =
      search (behaves_rules, transfer_amount-Behaves, instantiate-Behaves, call_method-Behaves)
        depth 12

module _ {M WS E : Type 0} (engine : Engine M) ⦃t : WorldState WS⦄ where
  check_contract-Behaves :
      (contract : Bytes) (cbi_version : ℕ) (a : PublicAddress)
      → Behaves (check_contract {WS = WS} {E = E} engine contract cbi_version a)
  unfolding check_contract
  check_contract-Behaves contract cbi_version a =
      search (behaves_rules, IsMeterStep-ws_cbi_version, abort_on-Behaves) depth 16

  pub deploy-Behaves :
      (i : ℕ) (contract : Bytes) (cbi_version : ℕ)
      → Behaves (deploy {WS = WS} {E = E} engine i contract cbi_version)
  unfolding deploy
  deploy-Behaves i contract cbi_version =
      search
        (
          behaves_rules, check_contract-Behaves, IsMeterStep-ws_set_code,
          IsMeterStep-ws_set_cbi_version,
        )
        depth 20
