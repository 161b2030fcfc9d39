-- ===== src/Contract/Functions.antt =====
-- The host functions of src/contract/host_functions.rs, but for the call of another contract.
use pchain_runtime.Prelude.{
  ℕ, zero, suc, ◌+◌, ◌*◌, Bool, true, false, Option, none, some, List, [], ◌∷◌, length, drop, ltb,
  if◌then◌else◌,
}
use pchain_runtime.Word.{u64_max, saturating_add, checked_sub}
use pchain_runtime.Types.{PublicAddress, Bytes, Command, DeferredCommand}
use pchain_runtime.Cache.World.{WorldState}
use pchain_runtime.Cache.Receipt.{le_bytes}
use pchain_runtime.Gas.CostChange.{deduct, net_cost}
use pchain_runtime.Gas.Constants.{blockchain_log_cost, blockchain_storage_cost}
use pchain_runtime.State.{append_deferred_command}
use pchain_runtime.Contract.Engine.{Engine}
use pchain_runtime.Contract.Memory.{bit}
use pchain_runtime.Contract.Operations
use pchain_runtime.Contract.Operations.{
  read_bytes, write_bytes, remaining_gas, append_log, set_return_value, ws_get_storage_data,
  ws_get_balance, ws_set_storage_data, ws_set_balance,
}
use pchain_runtime.Contract.Host.{
  FuncError, Env, Host, pure, fail, ok_or, returned, deduct_gas, ◌>>=◌, ◌>>◌,
}

-- An address as its 32 bytes, and `u64::from_le_bytes`.
abbrev pub address_bytes : PublicAddress → Bytes
address_bytes a = le_bytes 32 a

unfoldable pub of_le_bytes : Bytes → ℕ
of_le_bytes [] = 0
of_le_bytes (b ∷ bs) = b + 256 * of_le_bytes bs

abbrev pub take : ℕ → Bytes → Bytes
take zero bs = []
take (suc n) [] = []
take (suc n) (b ∷ bs) = b ∷ take n bs

-- The `-1` of an `i64`.
abbrev pub minus_one : ℕ
minus_one = u64_max

abbrev pub is_create_deposit : Command → Bool
is_create_deposit (Command.create_deposit _ _ _) = true
is_create_deposit _ = false

abbrev pub is_set_deposit_settings : Command → Bool
is_set_deposit_settings (Command.set_deposit_settings _ _) = true
is_set_deposit_settings _ = false

abbrev pub is_top_up_deposit : Command → Bool
is_top_up_deposit (Command.top_up_deposit _ _) = true
is_top_up_deposit _ = false

abbrev pub is_withdraw_deposit : Command → Bool
is_withdraw_deposit (Command.withdraw_deposit _ _) = true
is_withdraw_deposit _ = false

abbrev pub is_stake_deposit : Command → Bool
is_stake_deposit (Command.stake_deposit _ _) = true
is_stake_deposit _ = false

abbrev pub is_unstake_deposit : Command → Bool
is_unstake_deposit (Command.unstake_deposit _ _) = true
is_unstake_deposit _ = false

-- `ctx.append_deferred_command`.
unfoldable pub append_deferred : {M WS : Type 0} → DeferredCommand → Host M WS (Unit {0})
unfolding append_deferred_command
append_deferred command h = (returned tt, record h { ctx = append_deferred_command command h.ctx })

-- Charged when the points do not suffice, so that they are all spent.
unfoldable pub check_gas : {M WS : Type 0} → ℕ → Host M WS (Unit {0}) → Host M WS (Unit {0})
unfolding remaining_gas deduct_gas fail ◌>>=◌
check_gas cost then_do = do
  remaining ← remaining_gas
  if ltb remaining cost then (deduct_gas cost >> fail FuncError.gas_exhaustion_error) else then_do

module _ {M WS : Type 0} ⦃engine : Engine M⦄ where
  -- The six `defer_` functions: they differ in the command that they take.
  unfoldable pub defer : (Command → Bool) → Env → ℕ → ℕ → Host M WS ℕ
  unfolding read_bytes ok_or append_deferred fail pure ◌>>=◌
  defer is_kind env input_ptr input_len = do
    serialized_command ← read_bytes input_ptr input_len
    command ← ok_or FuncError.runtime (engine.deserialize_command serialized_command)
    if is_kind command
        then (append_deferred (record { contract_address = env.call_tx.target; command = command })
            >> pure 0)
        else fail FuncError.internal

  unfoldable pub log : ℕ → ℕ → Host M WS ℕ
  unfolding read_bytes ok_or check_gas append_log deduct net_cost blockchain_log_cost pure ◌>>=◌
  log log_ptr log_len = do
    serialized_log ← read_bytes log_ptr log_len
    log ← ok_or FuncError.runtime (engine.deserialize_log serialized_log)
    check_gas (net_cost (deduct (blockchain_log_cost (length log.topic) (length log.value)))).0
        (append_log log)
    pure 0

  unfoldable pub return_value : ℕ → ℕ → Host M WS ℕ
  unfolding read_bytes check_gas set_return_value deduct net_cost blockchain_storage_cost pure ◌>>=◌
  return_value value_ptr value_len = do
    value ← read_bytes value_ptr value_len
    check_gas (net_cost (deduct (blockchain_storage_cost (length value)))).0
        (set_return_value value)
    pure 0

  -- `sha256`, `keccak256` and `ripemd`.
  unfoldable pub hash : Env → (Bytes → Host M WS Bytes) → ℕ → ℕ → ℕ → Host M WS ℕ
  unfolding read_bytes write_bytes pure ◌>>=◌
  hash env digest_of msg_ptr msg_len digest_ptr_ptr = do
    input_bytes ← read_bytes msg_ptr msg_len
    digest ← digest_of input_bytes
    write_bytes env digest digest_ptr_ptr
    pure 0

  unfoldable pub verify_ed25519_signature : ℕ → ℕ → ℕ → ℕ → Host M WS ℕ
  unfolding read_bytes Operations.verify_ed25519_signature ok_or pure ◌>>=◌
  verify_ed25519_signature msg_ptr msg_len signature_ptr address_ptr = do
    message ← read_bytes msg_ptr msg_len
    signature ← read_bytes signature_ptr 64
    address ← read_bytes address_ptr 32
    verified ← Operations.verify_ed25519_signature message signature address
    is_ok ← ok_or FuncError.internal verified
    pure (bit is_ok)

  -- The bytes of a value, with no result.
  unfoldable pub write : Env → Bytes → ℕ → Host M WS ℕ
  unfolding write_bytes pure ◌>>=◌
  write env value ptr = do write_bytes env value ptr; pure 0

  unfoldable pub arguments : Env → Option (List Bytes) → ℕ → Host M WS ℕ
  unfolding write_bytes pure
  arguments env (some args) arguments_ptr_ptr =
      write_bytes env (engine.serialize_arguments args) arguments_ptr_ptr
  arguments env none arguments_ptr_ptr = pure 0

  abbrev pub written_or_minus_one : Env → ℕ → Option Bytes → Host M WS ℕ
  written_or_minus_one env val_ptr_ptr none = pure minus_one
  written_or_minus_one env val_ptr_ptr (some value) = write_bytes env value val_ptr_ptr

module _ {M WS : Type 0} ⦃t : WorldState WS⦄ where
  unfoldable pub transfer_from_contract : PublicAddress → ℕ → PublicAddress → Host M WS (Unit {0})
  unfolding ws_get_balance ws_set_balance ok_or ◌>>=◌
  transfer_from_contract signer amount recipient = do
    from_balance ← ws_get_balance signer
    from_address_new_balance ←
        ok_or FuncError.insufficient_balance (checked_sub from_balance amount)
    ws_set_balance signer from_address_new_balance
    to_address_prev_balance ← ws_get_balance recipient
    ws_set_balance recipient (saturating_add to_address_prev_balance amount)

module _ {M WS : Type 0} ⦃engine : Engine M⦄ ⦃t : WorldState WS⦄ where
  unfoldable pub set : Env → ℕ → ℕ → ℕ → ℕ → Host M WS ℕ
  unfolding read_bytes ws_set_storage_data pure ◌>>=◌
  set env key_ptr key_len val_ptr val_len = do
    key ← read_bytes key_ptr key_len
    new_value ← read_bytes val_ptr val_len
    ws_set_storage_data env.call_tx.target key new_value
    pure 0

  -- `get` of the contract's own storage, and `get_network_storage`.
  unfoldable pub get : Env → PublicAddress → ℕ → ℕ → ℕ → Host M WS ℕ
  unfolding read_bytes write_bytes ws_get_storage_data pure ◌>>=◌
  get env address key_ptr key_len val_ptr_ptr = do
    key ← read_bytes key_ptr key_len
    value ← ws_get_storage_data address key
    written_or_minus_one env val_ptr_ptr value

  unfoldable pub transfer : Env → ℕ → Host M WS ℕ
  unfolding read_bytes transfer_from_contract of_le_bytes pure ◌>>=◌
  transfer env transfer_input_ptr = do
    transfer_bytes ← read_bytes transfer_input_ptr 40
    transfer_from_contract env.call_tx.target (of_le_bytes (drop 32 transfer_bytes))
        (of_le_bytes (take 32 transfer_bytes))
    pure 0
