-- ===== src/Contract/Charged.antt =====
-- The charged operations of host functions (src/gas/wasmer_gas.rs) keep what a step must keep.
use pchain_runtime.Prelude.{ℕ, refl, Bool, false, nat_eq, bytes_eq, pair_eq}
use pchain_runtime.Types.{PublicAddress, Bytes, Log, TxnVersion}
use pchain_runtime.Cache.World.{WorldState, WorldStateCache}
use pchain_runtime.Cache.World.Laws
use pchain_runtime.Gas.Operations
use pchain_runtime.Contract.Engine.{Engine}
use pchain_runtime.Contract.Operations.{
  append_log, set_return_value, take_return_value, read_bytes, ws_get_storage_data, ws_get_balance,
  ws_set_storage_data, ws_set_balance, remaining_gas,
}
use pchain_runtime.Contract.Steps.{
  Keeps, IsCacheStep, Keeps-on_cache, host_rules, IsHostStep-output, IsHostStep-trans,
  IsHostStep-subtract_gas,
}

module _ {WS : Type 0} ⦃t : WorldState WS⦄ where
  storage_data-step :
      (view : Bool) (version : TxnVersion) (a : PublicAddress) (k : Bytes) (c : WorldStateCache WS)
      → IsCacheStep view c (Operations.ws_storage_data version a k c).1
  unfolding Operations.ws_storage_data
  storage_data-step view version a k c = record {
    ws = refl;
    valid = λ h. Laws.storage_data-IsValid a k h;
    unwritten = λ e. Laws.pending-storage_data a k c;
  }

  balance-step :
      (view : Bool) (a : PublicAddress) (c : WorldStateCache WS)
      → IsCacheStep view c (Operations.ws_balance a c).1
  unfolding Operations.ws_balance
  balance-step view a c = record {
    ws = refl;
    valid = λ h. Laws.balance-IsValid a h;
    unwritten = λ e. Laws.pending-balance a c;
  }

  pub cached_contract_code-step :
      (view : Bool) (a : PublicAddress) (c : WorldStateCache WS)
      → IsCacheStep view c (Operations.ws_cached_contract_code a c).1
  unfolding Operations.ws_cached_contract_code
  cached_contract_code-step view a c = record {
    ws = refl;
    valid = λ h. Laws.contract_code-IsValid a h;
    unwritten = λ e. Laws.pending-contract_code a c;
  }

  set_storage_data-step :
      (version : TxnVersion) (a : PublicAddress) (k v : Bytes) (c : WorldStateCache WS)
      → IsCacheStep false c (Operations.ws_set_storage_data version a k v c).1
  unfolding Operations.ws_set_storage_data
  set_storage_data-step version a k v c = record {
    ws = refl;
    valid = λ h. Laws.set_storage_data-IsValid a k v (Laws.storage_data-IsValid a k h);
    unwritten = λ e. absurd (cc e);
  }

  set_balance-step :
      (a : PublicAddress) (b : ℕ) (c : WorldStateCache WS)
      → IsCacheStep false c (Operations.ws_set_balance a b c).1
  unfolding Operations.ws_set_balance
  set_balance-step a b c = record {
    ws = refl;
    valid = λ h. Laws.set_balance-IsValid a b (Laws.balance-IsValid a h);
    unwritten = λ e. absurd (cc e);
  }

module _ {M WS : Type 0} ⦃t : WorldState WS⦄ where
  pub Keeps-append_log :
      {S : Type 0} (view : Bool) (entry : Log) → Keeps S view (append_log {M = M} {WS = WS} entry)
  unfolding append_log
  Keeps-append_log view entry = record {
    step = λ h. IsHostStep-trans (IsHostStep-output view _ h) (IsHostStep-subtract_gas view _ _);
    calm = λ s h. refl;
  }

  pub Keeps-set_return_value :
      {S : Type 0} (view : Bool) (value : Bytes)
      → Keeps S view (set_return_value {M = M} {WS = WS} value)
  unfolding set_return_value
  Keeps-set_return_value view value = record {
    step = λ h. IsHostStep-trans (IsHostStep-output view _ h) (IsHostStep-subtract_gas view _ _);
    calm = λ s h. refl;
  }

  pub Keeps-take_return_value :
      {S : Type 0} (view : Bool) → Keeps S view (take_return_value {M = M} {WS = WS})
  unfolding take_return_value
  Keeps-take_return_value view = record {
    step = λ h. IsHostStep-output view _ h;
    calm = λ s h. refl;
  }

  pub Keeps-remaining_gas :
      {S : Type 0} (view : Bool) → Keeps S view (remaining_gas {M = M} {WS = WS})
  unfolding remaining_gas
  Keeps-remaining_gas view = search host_rules depth 4

  pub Keeps-ws_get_storage_data :
      {S : Type 0} (view : Bool) (a : PublicAddress) (k : Bytes)
      → Keeps S view (ws_get_storage_data {M = M} {WS = WS} a k)
  unfolding ws_get_storage_data
  Keeps-ws_get_storage_data view a k =
      search (host_rules, Keeps-on_cache, storage_data-step) depth 8

  pub Keeps-ws_get_balance :
      {S : Type 0} (view : Bool) (a : PublicAddress)
      → Keeps S view (ws_get_balance {M = M} {WS = WS} a)
  unfolding ws_get_balance
  Keeps-ws_get_balance view a = search (Keeps-on_cache, balance-step) depth 8

  pub Keeps-ws_set_storage_data :
      {S : Type 0} (a : PublicAddress) (k v : Bytes)
      → Keeps S false (ws_set_storage_data {M = M} {WS = WS} a k v)
  unfolding ws_set_storage_data
  Keeps-ws_set_storage_data a k v =
      search (host_rules, Keeps-on_cache, set_storage_data-step) depth 8

  pub Keeps-ws_set_balance :
      {S : Type 0} (a : PublicAddress) (b : ℕ)
      → Keeps S false (ws_set_balance {M = M} {WS = WS} a b)
  unfolding ws_set_balance
  Keeps-ws_set_balance a b = search (Keeps-on_cache, set_balance-step) depth 8

module _ {M WS : Type 0} ⦃engine : Engine M⦄ ⦃t : WorldState WS⦄ where
  pub Keeps-read_bytes :
      {S : Type 0} (view : Bool) (offset len : ℕ)
      → Keeps S view (read_bytes {M = M} {WS = WS} offset len)
  unfolding read_bytes
  Keeps-read_bytes view offset len = search host_rules depth 12
