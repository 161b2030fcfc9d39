-- ===== src/Execution/Steps.antt =====
-- The operations of the gas meter are steps inside a command.
use pchain_runtime.Prelude.{ℕ, refl, nat_eq, bytes_eq, pair_eq}
use pchain_runtime.Types.{PublicAddress, Bytes}
use pchain_runtime.Cache.World.{WorldState}
use pchain_runtime.Cache.World.Laws
use pchain_runtime.Cache.World.Laws.{IsValid}
use pchain_runtime.Gas.Meter
use pchain_runtime.Gas.Meter.{GasMeter}
use pchain_runtime.Execution.Behaves.{IsMeterStep}

module _ {WS : Type 0} ⦃t : WorldState WS⦄ where
  pub IsMeterStep-ws_balance :
      (a : PublicAddress) (g : GasMeter WS) → IsMeterStep g (Meter.ws_balance a g).1
  unfolding Meter.ws_balance
  IsMeterStep-ws_balance a g = record {
    same = record { version = refl; gas_limit = refl; inclusion = refl; total = refl; ws = refl };
    valid = λ h. Laws.balance-IsValid a h;
  }

  pub IsMeterStep-ws_set_balance :
      (a : PublicAddress) (b : ℕ) (g : GasMeter WS) → IsMeterStep g (Meter.ws_set_balance a b g)
  unfolding Meter.ws_set_balance
  IsMeterStep-ws_set_balance a b g = record {
    same = record { version = refl; gas_limit = refl; inclusion = refl; total = refl; ws = refl };
    valid = λ h. Laws.set_balance-IsValid a b (Laws.balance-IsValid a h);
  }

  pub IsMeterStep-ws_storage_data :
      (a : PublicAddress) (k : Bytes) (g : GasMeter WS)
      → IsMeterStep g (Meter.ws_storage_data a k g).1
  unfolding Meter.ws_storage_data
  IsMeterStep-ws_storage_data a k g = record {
    same = record { version = refl; gas_limit = refl; inclusion = refl; total = refl; ws = refl };
    valid = λ h. Laws.storage_data-IsValid a k h;
  }

  pub IsMeterStep-ws_set_storage_data :
      (a : PublicAddress) (k v : Bytes) (g : GasMeter WS)
      → IsMeterStep g (Meter.ws_set_storage_data a k v g)
  unfolding Meter.ws_set_storage_data
  IsMeterStep-ws_set_storage_data a k v g = record {
    same = record { version = refl; gas_limit = refl; inclusion = refl; total = refl; ws = refl };
    valid = λ h. Laws.set_storage_data-IsValid a k v (Laws.storage_data-IsValid a k h);
  }

  pub IsMeterStep-ws_contains_storage_data :
      (a : PublicAddress) (k : Bytes) (g : GasMeter WS)
      → IsMeterStep g (Meter.ws_contains_storage_data a k g).1
  unfolding Meter.ws_contains_storage_data
  IsMeterStep-ws_contains_storage_data a k g = record {
    same = record { version = refl; gas_limit = refl; inclusion = refl; total = refl; ws = refl };
    valid = λ h. h;
  }

  pub IsMeterStep-manually_charge_gas :
      (x : ℕ) (g : GasMeter WS) → IsMeterStep g (Meter.manually_charge_gas x g)
  unfolding Meter.manually_charge_gas
  IsMeterStep-manually_charge_gas x g = record {
    same = record { version = refl; gas_limit = refl; inclusion = refl; total = refl; ws = refl };
    valid = λ h. h;
  }

  pub IsMeterStep-command_output_set_return_value :
      (x : Bytes) (g : GasMeter WS) → IsMeterStep g (Meter.command_output_set_return_value x g)
  unfolding Meter.command_output_set_return_value
  IsMeterStep-command_output_set_return_value x g = record {
    same = record { version = refl; gas_limit = refl; inclusion = refl; total = refl; ws = refl };
    valid = λ h. h;
  }

  pub IsMeterStep-command_output_set_amount_withdrawn :
      (x : ℕ) (g : GasMeter WS) → IsMeterStep g (Meter.command_output_set_amount_withdrawn x g)
  unfolding Meter.command_output_set_amount_withdrawn
  IsMeterStep-command_output_set_amount_withdrawn x g = record {
    same = record { version = refl; gas_limit = refl; inclusion = refl; total = refl; ws = refl };
    valid = λ h. h;
  }

  pub IsMeterStep-command_output_set_amount_staked :
      (x : ℕ) (g : GasMeter WS) → IsMeterStep g (Meter.command_output_set_amount_staked x g)
  unfolding Meter.command_output_set_amount_staked
  IsMeterStep-command_output_set_amount_staked x g = record {
    same = record { version = refl; gas_limit = refl; inclusion = refl; total = refl; ws = refl };
    valid = λ h. h;
  }

  pub IsMeterStep-command_output_set_amount_unstaked :
      (x : ℕ) (g : GasMeter WS) → IsMeterStep g (Meter.command_output_set_amount_unstaked x g)
  unfolding Meter.command_output_set_amount_unstaked
  IsMeterStep-command_output_set_amount_unstaked x g = record {
    same = record { version = refl; gas_limit = refl; inclusion = refl; total = refl; ws = refl };
    valid = λ h. h;
  }
