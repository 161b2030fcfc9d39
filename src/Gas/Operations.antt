-- ===== src/Gas/Operations.antt =====
-- The chargeable operations of src/gas/operations.rs on the world state cache and on the command's
-- output: each returns its result with the change of gas.
use pchain_runtime.Prelude.{ℕ, ◌+◌, Bool, Option, none, some, List, [], ◌∷◌, ◌++◌, length}
use pchain_runtime.Word.{saturating_add}
use pchain_runtime.Types.{PublicAddress, address_len, Bytes, TxnVersion, Log}
use pchain_runtime.Cache.Data.{U32}
use pchain_runtime.Cache.World
use pchain_runtime.Cache.World.{WorldState, WorldStateCache}
use pchain_runtime.Gas.CostChange.{CostChange, deduct, reward, add}
use pchain_runtime.Gas.Constants.{
  account_trie_key_length, get_cost_traverse, get_cost_read, discount_code_read,
  set_cost_delete_old_value, set_cost_write_new_value, set_cost_rehash, blockchain_storage_cost,
  blockchain_log_cost,
}

abbrev pub OperationReceipt : Type 0 → Type 0
OperationReceipt T = T × CostChange

abbrev pub Operation : Type 0 → Type 0 → Type 0
Operation WS T = WorldStateCache WS → OperationReceipt T × WorldStateCache WS

-- `value.as_ref().map_or(0, CacheValue::len)`, for bytes and for a `u32`.
abbrev pub bytes_len_or_0 : Option Bytes → ℕ
bytes_len_or_0 none = 0
bytes_len_or_0 (some v) = length v

abbrev pub u32_len_or_0 : Option U32 → ℕ
u32_len_or_0 none = 0
u32_len_or_0 (some _) = 4

unfoldable pub storage_trie_traversed_key_len : TxnVersion → Bytes → ℕ
storage_trie_traversed_key_len TxnVersion.v1 key =
    account_trie_key_length + address_len + length key
storage_trie_traversed_key_len TxnVersion.v2 key = account_trie_key_length + length key

-- The two steps of every read: the way down to the key, and the value.
unfoldable pub get_cost : ℕ → ℕ → ℕ
unfolding get_cost_traverse get_cost_read
get_cost key_len val_len = saturating_add (get_cost_traverse key_len) (get_cost_read val_len)

-- Steps 2 to 4 of a write in the account trie, in the order of the source.
unfoldable pub account_set_cost : ℕ → ℕ → CostChange
unfolding deduct reward add set_cost_delete_old_value set_cost_write_new_value set_cost_rehash
account_set_cost old_val_len new_val_len =
    add
      (add (reward (set_cost_delete_old_value account_trie_key_length old_val_len new_val_len))
        (deduct (set_cost_write_new_value new_val_len)))
      (deduct (set_cost_rehash account_trie_key_length))

module _ {WS : Type 0} ⦃t : WorldState WS⦄ where
  unfoldable pub ws_storage_data : TxnVersion → PublicAddress → Bytes → Operation WS (Option Bytes)
  unfolding storage_trie_traversed_key_len get_cost deduct World.storage_data
  ws_storage_data version address key cache =
      let (value, cache') = World.storage_data address key cache in
      let key_len = storage_trie_traversed_key_len version key in
      ((value, deduct (get_cost key_len (bytes_len_or_0 value))), cache')

  unfoldable pub ws_set_storage_data :
      TxnVersion → PublicAddress → Bytes → Bytes → Operation WS (Unit {0})
  unfolding ws_storage_data add reward set_cost_delete_old_value set_cost_write_new_value
      set_cost_rehash World.set_storage_data
  ws_set_storage_data version address key value cache =
      let (receipt, cache') = ws_storage_data version address key cache in
      let key_len = storage_trie_traversed_key_len version key in
      let cost =
        add
          (add
            (add receipt.1 (
              reward (set_cost_delete_old_value key_len (bytes_len_or_0 receipt.0) (length value))))
            (deduct (set_cost_write_new_value (length value))))
          (deduct (set_cost_rehash key_len)) in
      ((tt, cost), World.set_storage_data address key value cache')

  unfoldable pub ws_contains_storage_data : TxnVersion → PublicAddress → Bytes → Operation WS Bool
  unfolding storage_trie_traversed_key_len get_cost_traverse deduct World.contains_storage_data
  ws_contains_storage_data version address key cache = (
    (
      World.contains_storage_data address key cache,
      deduct (get_cost_traverse (storage_trie_traversed_key_len version key)),
    ),
    cache,
  )

  unfoldable pub ws_balance : PublicAddress → Operation WS ℕ
  unfolding get_cost deduct World.balance
  ws_balance address cache =
      let (value, cache') = World.balance address cache in
      ((value, deduct (get_cost account_trie_key_length 8)), cache')

  unfoldable pub ws_set_balance : PublicAddress → ℕ → Operation WS (Unit {0})
  unfolding ws_balance account_set_cost World.set_balance
  ws_set_balance address balance cache =
      let (receipt, cache') = ws_balance address cache in
      ((tt, add receipt.1 (account_set_cost 8 8)), World.set_balance address balance cache')

  unfoldable pub ws_cbi_version : PublicAddress → Operation WS (Option U32)
  unfolding get_cost deduct World.cbi_version
  ws_cbi_version address cache =
      let (value, cache') = World.cbi_version address cache in
      ((value, deduct (get_cost account_trie_key_length (u32_len_or_0 value))), cache')

  unfoldable pub ws_set_cbi_version : PublicAddress → U32 → Operation WS (Unit {0})
  unfolding ws_cbi_version account_set_cost World.set_cbi_version
  ws_set_cbi_version address version cache =
      let (receipt, cache') = ws_cbi_version address cache in
      (
        (tt, add receipt.1 (account_set_cost (u32_len_or_0 receipt.0) 4)),
        World.set_cbi_version address version cache',
      )

  unfoldable pub ws_cached_contract_code : PublicAddress → Operation WS (Option Bytes)
  unfolding get_cost deduct discount_code_read World.contract_code
  ws_cached_contract_code address cache =
      let (value, cache') = World.contract_code address cache in
      (
        (
          value,
          deduct (discount_code_read (get_cost account_trie_key_length (bytes_len_or_0 value))),
        ),
        cache',
      )

  unfoldable pub ws_set_contract_code : PublicAddress → Bytes → Operation WS (Unit {0})
  unfolding ws_cached_contract_code account_set_cost World.set_contract_code
  ws_set_contract_code address code cache =
      let (receipt, cache') = ws_cached_contract_code address cache in
      (
        (tt, add receipt.1 (account_set_cost (bytes_len_or_0 receipt.0) (length code))),
        World.set_contract_code address code cache',
      )

-- The operations on one field of the command's output; `as_mut` has filled it before it is written.
unfoldable pub command_output_append_log : Log → List Log → OperationReceipt (List Log)
unfolding deduct blockchain_log_cost
command_output_append_log log logs =
    (logs ++ log ∷ [], deduct (blockchain_log_cost (length log.topic) (length log.value)))

unfoldable pub command_output_set_return_value : Bytes → OperationReceipt Bytes
unfolding deduct blockchain_storage_cost
command_output_set_return_value value = (value, deduct (blockchain_storage_cost (length value)))

-- `command_output_set_amount_withdrawn`, `_staked` and `_unstaked`: a `u64` of eight bytes.
unfoldable pub command_output_set_amount : ℕ → OperationReceipt ℕ
unfolding deduct blockchain_storage_cost
command_output_set_amount amount = (amount, deduct (blockchain_storage_cost 8))
