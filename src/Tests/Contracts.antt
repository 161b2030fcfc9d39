-- ===== src/Tests/Contracts.antt =====
-- Contracts that run: account 20 defers a deposit, 21 calls 20, and 22 writes to its storage; 23 asks for the
-- method with a pointer out of its memory.
use pchain_runtime.Prelude.{
  ◌≡◌, refl, true, false, Option, none, some, [], ◌∷◌, nat_beq, nat_eq, ◌⊎◌, true, if◌then◌else◌,
  arith,
}
use pchain_runtime.Types.{PublicAddress, Bytes, CallTx}
use pchain_runtime.Types.Receipt.{CommandReceiptV2}
use pchain_runtime.Cache.Data.{U32}
use pchain_runtime.Cache.World
use pchain_runtime.Cache.World.{WorldState}
use pchain_runtime.Cache.World.Interface.{Accounts, in_memory}
use pchain_runtime.Cache.World.Laws.{pending}
use pchain_runtime.State.{ExecutionState, new_state, new_context}
use pchain_runtime.Execution.Behaves.{cache_of}
use pchain_runtime.Contract.Steps.{AreDepositCommands}
use pchain_runtime.Commands.Contract.{call, environment, deploy, is_cbi_compatible}
use pchain_runtime.HashMap
use pchain_runtime.Cache.Data
use pchain_runtime.Gas.Meter
use pchain_runtime.Execution.{◌>>=◌, metered_, abort_if_gas_exhausted}
use pchain_runtime.Commands.Contract.Deploy.{is_ok, IsDeployable, deploy_lem}
use pchain_runtime.Contract.Call.{call_instance}
use pchain_runtime.Contract.Run.{run_wasm}
use pchain_runtime.Contract.Fuel.{call_instance_lem}
use pchain_runtime.Commands.Contract.Served.{is_panic}
use pchain_runtime.Executor.Frame.{ContractsLaws}
use pchain_runtime.Executor.Wasm.{wasm_contracts, wasm_contracts-ContractsLaws}
use pchain_runtime.View.{view_state, view_v2}
use pchain_runtime.View.Outcome.{IsViewOutcome, view_v2_lem, view_result, call_view, call-deferred}
use pchain_runtime.Tests.Engine.{engine, program}
use pchain_runtime.Tests.Fixtures.{world, params, meta, in_storage}

abbrev code_of : PublicAddress → Option Bytes
code_of a =
    if nat_beq a 20
    then some (0 ∷ [])
    else if nat_beq a 21
    then some (1 ∷ 20 ∷ [])
    else if nat_beq a 22
    then some (2 ∷ [])
    else if nat_beq a 23
    then some (3 ∷ 5000 ∷ [])
    else none

abbrev version_of : PublicAddress → Option U32
version_of a = some (record { value = 0 })

abbrev contract_world : Accounts
contract_world = record world { code = code_of; cbi_version = version_of }

abbrev ready : ExecutionState Accounts CommandReceiptV2
ready = view_state contract_world 4000000

wasm_contracts-ContractsLaws_example :
    ContractsLaws (wasm_contracts {WS = Accounts} {E = CommandReceiptV2} engine)
wasm_contracts-ContractsLaws_example = wasm_contracts-ContractsLaws engine

view_v2_lem_example :
    (is_panic (view_result engine contract_world 4000000 22 [] none) ≡ true)
      × (view_v2 engine contract_world 4000000 22 [] none ≡ none)
    ⊎ IsViewOutcome 4000000 (view_v2 engine contract_world 4000000 22 [] none)
view_v2_lem_example = view_v2_lem engine contract_world 4000000 22 [] none (omega arith)

-- The method's pointer is out of the memory: `unwrap` panics, and with it the view.
out_of_range : view_v2 engine contract_world 4000000 23 [] none ≡ none
unfolding view_v2 ◌>>=◌ Meter.ws_cbi_version Data.get HashMap.get Data.empty is_cbi_compatible
    Meter.total_gas_used
out_of_range = refl

call_view_example :
    let s' = (call engine true 22 [] none none ready).1 in
    (pending (cache_of s') ≡ pending (World.new contract_world)) × (s'.ctx.deferred_commands ≡ [])
unfolding view_state new_state new_context
call_view_example = call_view engine contract_world ready 22 [] none refl refl

call-deferred_example :
    AreDepositCommands (call engine false 21 [] none none ready).1.ctx.deferred_commands
unfolding view_state new_state new_context
call-deferred_example = call-deferred engine ready 21 [] none none refl

abbrev calling : CallTx
calling = record {
  base_tx = record meta { gas_limit = 4000 };
  target = 21;
  method = [];
  arguments = none;
  amount = none;
}

call_instance_lem_example :
    let env = environment false calling params in
    call_instance (run_wasm ⦃engine = engine⦄ 4100) env ([], program (1 ∷ 20 ∷ [])) ready.ctx
    ≡ call_instance (run_wasm ⦃engine = engine⦄ 4001) env ([], program (1 ∷ 20 ∷ [])) ready.ctx
call_instance_lem_example =
    call_instance_lem ⦃engine = engine⦄ (environment false calling params)
      ([], program (1 ∷ 20 ∷ [])) ready.ctx 99

abbrev undeployed : ExecutionState Accounts CommandReceiptV2
undeployed = view_state world 4000000

deployed : is_ok (deploy engine 0 (2 ∷ []) 0 undeployed).0 ≡ true
unfolding deploy ◌>>=◌ Meter.ws_cbi_version Data.get HashMap.get view_state Data.empty metered_
    Meter.total_gas_used Meter.ws_set_cbi_version Meter.ws_set_code HashMap.insert
    abort_if_gas_exhausted
deployed = refl

deploy_lem_example :
    IsDeployable engine (2 ∷ []) 0 100 undeployed.ctx.gas_meter
    × (pending (cache_of (deploy engine 0 (2 ∷ []) 0 undeployed).1)
        ≡ (record (pending (cache_of undeployed)) {
          contract_codes =
              HashMap.insert 100 (2 ∷ []) (pending (cache_of undeployed)).contract_codes;
          cbi_versions =
              HashMap.insert 100
                (record { value = 0 })
                (pending (cache_of undeployed)).cbi_versions;
        }))
unfolding view_state
deploy_lem_example = deploy_lem engine 0 (2 ∷ []) 0 undeployed deployed
