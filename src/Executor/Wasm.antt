-- ===== src/Executor/Wasm.antt =====
-- The commands that run contracts, as the executor calls them, meet what it relies on, whatever the
-- contracts do and however they call each other.
use pchain_runtime.Cache.World.{WorldState}
use pchain_runtime.Network.{NetworkAccount}
use pchain_runtime.Contract.Engine.{Engine}
use pchain_runtime.Commands.Contract.{deploy, call}
use pchain_runtime.Commands.Contract.Laws.{deploy-Behaves, call-Behaves}
use pchain_runtime.Executor.{Contracts}
use pchain_runtime.Executor.Frame.{ContractsLaws}

module _ {M WS E : Type 0} (engine : Engine M) ⦃t : WorldState WS⦄ ⦃net : NetworkAccount⦄ where
  unfoldable pub wasm_contracts : Contracts WS E
  unfolding deploy call
  wasm_contracts = record { deploy = deploy engine; call = call engine }

  -- The commands deploy and call, whatever the contracts do and however they call each other, meet
  -- what the executor relies on: they leave the transaction, the receipts, the counters of finished
  -- commands and the world state below the cache alone, keep a coherent cache coherent, and after
  -- an error no pending change is left.
  pub wasm_contracts-ContractsLaws : ContractsLaws wasm_contracts
  unfolding wasm_contracts
  wasm_contracts-ContractsLaws = record {
    deploy-Behaves = λ i contract version. deploy-Behaves engine i contract version;
    call-Behaves = λ is_view target method arguments amount.
        call-Behaves engine is_view target method arguments amount;
  }
