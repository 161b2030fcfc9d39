-- ===== src/Contract/Engine.antt =====
-- What the runtime asks of the Wasm engine, of serialization and of the hash functions. A contract in
-- execution is a tree: metered instructions, and calls of host functions with its linear memory.
use pchain_runtime.Prelude.{ℕ, Bool, true, false, Option, List}
use pchain_runtime.Types.{Bytes, Command, Log}

-- The functions of `CBIHostFunctions` (src/contract/cbi_host_functions.rs), with their arguments.
pub data HostCall : Type 0 where
  set : (key_ptr key_len val_ptr val_len : ℕ) → HostCall
  get : (key_ptr key_len val_ptr_ptr : ℕ) → HostCall
  get_network_storage : (key_ptr key_len val_ptr_ptr : ℕ) → HostCall
  balance : HostCall
  block_height : HostCall
  block_timestamp : HostCall
  prev_block_hash : (hash_ptr_ptr : ℕ) → HostCall
  calling_account : (address_ptr_ptr : ℕ) → HostCall
  current_account : (address_ptr_ptr : ℕ) → HostCall
  method : (method_ptr_ptr : ℕ) → HostCall
  arguments : (arguments_ptr_ptr : ℕ) → HostCall
  amount : HostCall
  is_internal_call : HostCall
  transaction_hash : (hash_ptr_ptr : ℕ) → HostCall
  call : (call_input_ptr call_input_len return_ptr_ptr : ℕ) → HostCall
  return_value : (value_ptr value_len : ℕ) → HostCall
  transfer : (transfer_input_ptr : ℕ) → HostCall
  defer_create_deposit : (ptr len : ℕ) → HostCall
  defer_set_deposit_settings : (ptr len : ℕ) → HostCall
  defer_topup_deposit : (ptr len : ℕ) → HostCall
  defer_withdraw_deposit : (ptr len : ℕ) → HostCall
  defer_stake_deposit : (ptr len : ℕ) → HostCall
  defer_unstake_deposit : (ptr len : ℕ) → HostCall
  log : (log_ptr log_len : ℕ) → HostCall
  sha256 : (msg_ptr msg_len digest_ptr_ptr : ℕ) → HostCall
  keccak256 : (msg_ptr msg_len digest_ptr_ptr : ℕ) → HostCall
  ripemd : (msg_ptr msg_len digest_ptr_ptr : ℕ) → HostCall
  verify_ed25519_signature : (msg_ptr msg_len signature_ptr address_ptr : ℕ) → HostCall

-- The functions that `create_importable_view` replaces by those of `not_callable`.
unfoldable pub not_callable : HostCall → Bool
not_callable (HostCall.set _ _ _ _) = true
not_callable HostCall.block_height = true
not_callable HostCall.block_timestamp = true
not_callable (HostCall.prev_block_hash _) = true
not_callable (HostCall.calling_account _) = true
not_callable HostCall.amount = true
not_callable (HostCall.transaction_hash _) = true
not_callable (HostCall.transfer _) = true
not_callable (HostCall.defer_create_deposit _ _) = true
not_callable (HostCall.defer_set_deposit_settings _ _) = true
not_callable (HostCall.defer_topup_deposit _ _) = true
not_callable (HostCall.defer_withdraw_deposit _ _) = true
not_callable (HostCall.defer_stake_deposit _ _) = true
not_callable (HostCall.defer_unstake_deposit _ _) = true
not_callable _ = false

-- An execution, with a memory `M`. The instruction that calls a host function costs at least a point
-- (`Operator::Call` in src/gas/constants.rs): the points are one less than what is metered.
pub data Wasm (M : Type 0) : Type 0 where
  returns : Wasm M
  traps : Wasm M
  instructions : (points : ℕ) → Wasm M → Wasm M
  calls_host : (points : ℕ) → HostCall → M → (ℕ → M → Wasm M) → Wasm M

-- The contract's own `alloc` in execution: it ends with the pointer to a segment.
pub data Alloc (M : Type 0) : Type 0 where
  returns : (segment_ptr : ℕ) → M → Alloc M
  traps : Alloc M
  instructions : (points : ℕ) → Alloc M → Alloc M
  calls_host : (points : ℕ) → HostCall → M → (ℕ → Alloc M) → Alloc M

pub data ModuleBuildError : Type 0 where
  disallowed_opcode_present : ModuleBuildError
  other : ModuleBuildError

pub data ContractValidateError : Type 0 where
  method_not_found : ContractValidateError
  instantiate_error : ContractValidateError

-- An error, or none.
pub record Engine (M : Type 0) : Type 0 where
  pub from_bytecode_checked : Bytes → Option ModuleBuildError
  pub validate_proper_contract : Bytes → Option ContractValidateError
  -- Whether the code compiles, unchecked.
  pub from_bytecode_unchecked : Bytes → Bool
  -- The memory and the entry point of an instance with a gas limit, if it has one.
  pub instantiate : (code : Bytes) (gas_limit : ℕ) → Option (M × Option (Wasm M))
  -- `WasmPtr::deref`, `none` for a pointer that is out of range: the bytes of a segment, the writing
  -- of a segment, and the writing of a `u32`.
  pub bytes_at : M → (offset len : ℕ) → Option Bytes
  pub segment_at : M → (offset len : ℕ) → Option (Bytes → M)
  pub u32_at : M → (offset : ℕ) → Option (ℕ → M)
  -- The call of the exported function `alloc`.
  pub alloc : M → (len : ℕ) → Alloc M
  pub deserialize_command : Bytes → Option Command
  pub deserialize_log : Bytes → Option Log
  pub serialize_arguments : List Bytes → Bytes
  pub sha256_hash : Bytes → Bytes
  pub keccak256_hash : Bytes → Bytes
  pub ripemd_hash : Bytes → Bytes
  -- `none` for a public key that is not one.
  pub verify : (message signature public_key : Bytes) → Option Bool
  pub contract_address_v1 : (signer nonce : ℕ) → ℕ
  pub contract_address_v2 : (signer nonce command_index : ℕ) → ℕ
