-- ===== src/Contract/Operations.antt =====
-- `HostFuncGasMeter` of src/gas/wasmer_gas.rs: the operations that host functions are charged for, out
-- of the points of the instance; and the operations of src/gas/operations.rs that only they use.
use pchain_runtime.Prelude.{ℕ, ◌*◌, Bool, Option, none, some, List, [], length}
use pchain_runtime.Word.{saturating_add, saturating_mul}
use pchain_runtime.Types.{PublicAddress, Bytes, Log}
use pchain_runtime.Cache.World.{WorldState, non_empty}
use pchain_runtime.Cache.Output
use pchain_runtime.Gas.CostChange.{deduct, net_cost}
use pchain_runtime.Gas.Constants.{wasm_memory_read_cost, wasm_memory_write_cost}
use pchain_runtime.Gas.Operations
use pchain_runtime.Gas.Operations.{OperationReceipt, Operation}
use pchain_runtime.Contract.Engine.{Engine}
use pchain_runtime.Contract.Memory.{write_bytes_to_memory}
use pchain_runtime.Contract.Host.{
  FuncError, Env, HostState, HostResult, failed, panicked, Host, pure, ok_or, gets, returned, ◌>>=◌,
  ◌>>◌, host_cache, with_host_cache, host_output, with_host_output, subtract_gas,
}

abbrev pub crypto_per_byte : ℕ
crypto_per_byte = 16

-- A message in linear memory has fewer than 2^32 bytes, so the product does not overflow.
unfoldable pub hash_receipt : (Bytes → Bytes) → Bytes → OperationReceipt Bytes
unfolding deduct
hash_receipt hash input_bytes = (hash input_bytes, deduct (crypto_per_byte * length input_bytes))

abbrev taken : Option (List Log) → List Log
taken none = []
taken (some logs) = logs

module _ {M WS : Type 0} where
  -- `charge`.
  unfoldable pub charge : {T : Type 0} → OperationReceipt T → Host M WS T
  unfolding subtract_gas net_cost
  charge (a, change) h = (returned a, subtract_gas (net_cost change).0 h)

  -- An operation on the world state cache, charged.
  unfoldable pub on_cache : {T : Type 0} → Operation WS T → Host M WS T
  unfolding charge
  on_cache op h =
      let (receipt, cache) = op (host_cache h) in charge receipt (with_host_cache cache h)

  unfoldable pub remaining_gas : Host M WS ℕ
  unfolding gets
  remaining_gas = gets (λ h. h.wasmer_gas)

  unfoldable pub append_log : Log → Host M WS (Unit {0})
  unfolding charge Operations.command_output_append_log
  append_log log h =
      let (logs, cost) = Operations.command_output_append_log log (taken (host_output h).logs) in
      charge (tt, cost) (with_host_output (record (host_output h) { logs = some logs }) h)

  unfoldable pub set_return_value : Bytes → Host M WS (Unit {0})
  unfolding charge Operations.command_output_set_return_value
  set_return_value value h =
      let (value', cost) = Operations.command_output_set_return_value value in
      charge (tt, cost) (with_host_output (record (host_output h) { return_value = some value' }) h)

  unfoldable pub take_return_value : Host M WS (Option Bytes)
  unfolding Output.take_return_value
  take_return_value h =
      let (value, output) = Output.take_return_value (host_output h) in
      (returned value, with_host_output output h)

module _ {M WS A : Type 0} where
  -- An error of the memory as a value; a panic goes on.
  abbrev pub caught : HostResult A × HostState M WS → HostResult (Option A) × HostState M WS
  caught (returned a, h) = (returned (some a), h)
  caught (failed error, h) = (returned none, h)
  caught (panicked, h) = (panicked, h)

  unfoldable pub attempt : Host M WS A → Host M WS (Option A)
  attempt m h = caught (m h)

module _ {M WS : Type 0} ⦃engine : Engine M⦄ where
  unfoldable pub read_bytes : ℕ → ℕ → Host M WS Bytes
  unfolding charge deduct wasm_memory_read_cost ok_or ◌>>=◌
  read_bytes offset len = do
    memory ← gets (λ h. h.memory)
    bytes ← charge (engine.bytes_at memory offset len, deduct (wasm_memory_read_cost len))
    ok_or FuncError.runtime bytes

  -- The cost is charged whether or not the bytes were written.
  unfoldable pub write_bytes : Env → Bytes → ℕ → Host M WS ℕ
  unfolding write_bytes_to_memory attempt charge deduct wasm_memory_write_cost ok_or ◌>>=◌
  write_bytes env value val_ptr_ptr = do
    written ← attempt (write_bytes_to_memory env value val_ptr_ptr)
    charge (tt, deduct (wasm_memory_write_cost (length value)))
    ok_or FuncError.runtime written

  unfoldable pub sha256 : Bytes → Host M WS Bytes
  unfolding charge hash_receipt
  sha256 input_bytes = charge (hash_receipt engine.sha256_hash input_bytes)

  unfoldable pub keccak256 : Bytes → Host M WS Bytes
  unfolding charge hash_receipt
  keccak256 input_bytes = charge (hash_receipt engine.keccak256_hash input_bytes)

  unfoldable pub ripemd : Bytes → Host M WS Bytes
  unfolding charge hash_receipt
  ripemd input_bytes = charge (hash_receipt engine.ripemd_hash input_bytes)

  unfoldable pub verify_ed25519_signature : Bytes → Bytes → Bytes → Host M WS (Option Bool)
  unfolding charge deduct
  verify_ed25519_signature message signature pub_key = charge (
    engine.verify message signature pub_key,
    deduct (saturating_add 1400000 (saturating_mul (length message) crypto_per_byte)),
  )

module _ {M WS : Type 0} ⦃t : WorldState WS⦄ where
  unfoldable pub ws_get_storage_data : PublicAddress → Bytes → Host M WS (Option Bytes)
  unfolding on_cache Operations.ws_storage_data pure ◌>>=◌
  ws_get_storage_data address key = do
    version ← gets (λ h. h.ctx.gas_meter.version)
    value ← on_cache (Operations.ws_storage_data version address key)
    pure (non_empty value)

  unfoldable pub ws_get_balance : PublicAddress → Host M WS ℕ
  unfolding on_cache Operations.ws_balance
  ws_get_balance address = on_cache (Operations.ws_balance address)

  unfoldable pub ws_set_storage_data : PublicAddress → Bytes → Bytes → Host M WS (Unit {0})
  unfolding on_cache Operations.ws_set_storage_data gets ◌>>=◌
  ws_set_storage_data address key value = do
    version ← gets (λ h. h.ctx.gas_meter.version)
    on_cache (Operations.ws_set_storage_data version address key value)

  unfoldable pub ws_set_balance : PublicAddress → ℕ → Host M WS (Unit {0})
  unfolding on_cache Operations.ws_set_balance
  ws_set_balance address value = on_cache (Operations.ws_set_balance address value)
