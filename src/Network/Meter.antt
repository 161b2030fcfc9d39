-- ===== src/Network/Meter.antt =====
-- `NetworkAccountStorage for GasMeter` of src/gas/gas_meter.rs: a program on the network account runs
-- on the gas meter, every access charged.
use pchain_runtime.Prelude.{[], nat_eq, bytes_eq, pair_eq}
use pchain_runtime.Types.{PublicAddress}
use pchain_runtime.Cache.World.{WorldState}
use pchain_runtime.Gas.Meter
use pchain_runtime.Gas.Meter.{GasMeter}
use pchain_runtime.Execution.{Execution, metered}
use pchain_runtime.Execution.Behaves.{
  IsMeterStep, IsMeterStep-refl, IsMeterStep-trans, Behaves, Behaves-metered,
}
use pchain_runtime.Execution.Steps.{
  IsMeterStep-ws_storage_data, IsMeterStep-ws_set_storage_data,
  IsMeterStep-ws_contains_storage_data,
}
use pchain_runtime.Network.{StorageProgram, done, get, contains, set, delete, NetworkAccount}

module _ {WS A : Type 0} ⦃t : WorldState WS⦄ where
  unfoldable pub run_on_meter : PublicAddress → StorageProgram A → GasMeter WS → A × GasMeter WS
  unfolding Meter.ws_storage_data Meter.ws_contains_storage_data Meter.ws_set_storage_data
  run_on_meter address (done a) g = (a, g)
  run_on_meter address (get k next) g =
      let (v, g') = Meter.ws_storage_data address k g in run_on_meter address (next v) g'
  run_on_meter address (contains k next) g =
      let (b, g') = Meter.ws_contains_storage_data address k g in run_on_meter address (next b) g'
  run_on_meter address (set k v next) g =
      run_on_meter address next (Meter.ws_set_storage_data address k v g)
  run_on_meter address (delete k next) g =
      run_on_meter address next (Meter.ws_set_storage_data address k [] g)

  IsMeterStep-run_on_meter :
      (address : PublicAddress) (p : StorageProgram A) (g : GasMeter WS)
      → IsMeterStep g (run_on_meter address p g).1
  unfolding run_on_meter
  IsMeterStep-run_on_meter address (done a) g = IsMeterStep-refl g
  IsMeterStep-run_on_meter address (get k next) g =
      IsMeterStep-trans (IsMeterStep-ws_storage_data address k g) (
        IsMeterStep-run_on_meter address (next (Meter.ws_storage_data address k g).0)
          (Meter.ws_storage_data address k g).1)
  IsMeterStep-run_on_meter address (contains k next) g =
      IsMeterStep-trans (IsMeterStep-ws_contains_storage_data address k g) (
        IsMeterStep-run_on_meter address (next (Meter.ws_contains_storage_data address k g).0)
          (Meter.ws_contains_storage_data address k g).1)
  IsMeterStep-run_on_meter address (set k v next) g =
      IsMeterStep-trans (IsMeterStep-ws_set_storage_data address k v g)
        (IsMeterStep-run_on_meter address next (Meter.ws_set_storage_data address k v g))
  IsMeterStep-run_on_meter address (delete k next) g =
      IsMeterStep-trans (IsMeterStep-ws_set_storage_data address k [] g)
        (IsMeterStep-run_on_meter address next (Meter.ws_set_storage_data address k [] g))

-- A call on the network account inside a command.
module _ {WS E A : Type 0} ⦃t : WorldState WS⦄ ⦃net : NetworkAccount⦄ where
  unfoldable pub network : StorageProgram A → Execution WS E A
  unfolding metered run_on_meter
  network p = metered (run_on_meter net.network_address p)

  pub Behaves-network : (p : StorageProgram A) → Behaves (network p)
  unfolding network
  Behaves-network p =
      Behaves-metered (run_on_meter net.network_address p)
        (IsMeterStep-run_on_meter net.network_address p)
