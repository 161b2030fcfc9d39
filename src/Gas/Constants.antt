-- ===== src/Gas/Constants.antt =====
-- The constants and formulas of src/gas/constants.rs, but the table of Wasm opcodes.
pub mod Laws
use pchain_runtime.Prelude.{
  ℕ, ◌+◌, ◌*◌, ◌/◌, ◌%◌, Bool, ◌||◌, ◌&&◌, List, [], ◌∷◌, length, ltb, nat_beq, if◌then◌else◌,
}
use pchain_runtime.Word.{saturating_add, saturating_mul, as_u64}
use pchain_runtime.Types.{CommandKind}

abbrev pub wasm_memory_write_per64_bits_cost : ℕ
wasm_memory_write_per64_bits_cost = 3

abbrev pub wasm_memory_read_per64_bits_cost : ℕ
wasm_memory_read_per64_bits_cost = 3

unfoldable pub ceil_div_8 : ℕ → ℕ
ceil_div_8 l = saturating_add l 7 / 8

unfoldable pub wasm_memory_read_cost : ℕ → ℕ
unfolding ceil_div_8
wasm_memory_read_cost len =
    let cost = saturating_mul (ceil_div_8 len) wasm_memory_read_per64_bits_cost in
    if nat_beq cost 0 then 1 else cost

unfoldable pub wasm_memory_write_cost : ℕ → ℕ
unfolding ceil_div_8
wasm_memory_write_cost len =
    let cost = saturating_mul (ceil_div_8 len) wasm_memory_write_per64_bits_cost in
    if nat_beq cost 0 then 1 else cost

abbrev pub blockchain_write_per_byte_cost : ℕ
blockchain_write_per_byte_cost = 30

abbrev pub min_recp_size_v1 : ℕ
min_recp_size_v1 = 4

abbrev pub min_recp_size_v2 : ℕ
min_recp_size_v2 = 13

abbrev pub min_cmdrecp_size_v1 : ℕ
min_cmdrecp_size_v1 = 17

abbrev pub min_cmdrecp_size_v2_basic : ℕ
min_cmdrecp_size_v2_basic = 9

abbrev pub min_cmdrecp_size_v2_extended : ℕ
min_cmdrecp_size_v2_extended = 17

abbrev pub account_trie_key_length : ℕ
account_trie_key_length = 33

abbrev pub mpt_write_per_byte_cost : ℕ
mpt_write_per_byte_cost = 2500

abbrev pub mpt_read_per_byte_cost : ℕ
mpt_read_per_byte_cost = 50

abbrev pub mpt_traverse_per_byte_cost : ℕ
mpt_traverse_per_byte_cost = 20

abbrev pub mpt_rehash_per_byte_cost : ℕ
mpt_rehash_per_byte_cost = 130

abbrev pub mpt_write_refund_proportion : ℕ
mpt_write_refund_proportion = 50

abbrev pub mpt_get_code_discount_proportion : ℕ
mpt_get_code_discount_proportion = 50

abbrev pub crypto_sha256_per_byte : ℕ
crypto_sha256_per_byte = 16

unfoldable pub get_cost_traverse : ℕ → ℕ
get_cost_traverse key_len = saturating_mul key_len mpt_traverse_per_byte_cost

unfoldable pub get_cost_read : ℕ → ℕ
get_cost_read value_len = saturating_mul value_len mpt_read_per_byte_cost

unfoldable pub discount_code_read : ℕ → ℕ
discount_code_read cost = saturating_mul cost mpt_get_code_discount_proportion / 100

unfoldable pub set_cost_delete_old_value : ℕ → ℕ → ℕ → ℕ
set_cost_delete_old_value key_len old_val_len new_val_len =
    if (ltb 0 old_val_len || nat_beq old_val_len 0) && ltb 0 new_val_len
    then saturating_mul old_val_len (mpt_write_per_byte_cost * mpt_write_refund_proportion) / 100
    else if ltb 0 old_val_len && nat_beq new_val_len 0
    then saturating_mul (saturating_add key_len old_val_len)
        (mpt_write_per_byte_cost * mpt_write_refund_proportion)
      / 100
    else 0

unfoldable pub set_cost_write_new_value : ℕ → ℕ
set_cost_write_new_value new_val_len = saturating_mul new_val_len mpt_write_per_byte_cost

unfoldable pub set_cost_rehash : ℕ → ℕ
set_cost_rehash key_len = saturating_mul key_len mpt_rehash_per_byte_cost

unfoldable pub cmd_recp_min_size_v2 : CommandKind → ℕ
cmd_recp_min_size_v2 CommandKind.call = min_cmdrecp_size_v2_extended
cmd_recp_min_size_v2 CommandKind.withdraw_deposit = min_cmdrecp_size_v2_extended
cmd_recp_min_size_v2 CommandKind.stake_deposit = min_cmdrecp_size_v2_extended
cmd_recp_min_size_v2 CommandKind.unstake_deposit = min_cmdrecp_size_v2_extended
cmd_recp_min_size_v2 _ = min_cmdrecp_size_v2_basic

unfoldable pub minimum_receipt_size_v1 : List CommandKind → ℕ
minimum_receipt_size_v1 commands =
    saturating_add min_recp_size_v1 (saturating_mul min_cmdrecp_size_v1 (length commands))

-- The `fold` of `minimum_receipt_size_v2`, from the left.
unfoldable pub fold_min_size : ℕ → List CommandKind → ℕ
unfolding cmd_recp_min_size_v2
fold_min_size acc [] = acc
fold_min_size acc (c ∷ cs) = fold_min_size (saturating_add acc (cmd_recp_min_size_v2 c)) cs

unfoldable pub minimum_receipt_size_v2 : List CommandKind → ℕ
unfolding fold_min_size
minimum_receipt_size_v2 commands = saturating_add min_recp_size_v2 (fold_min_size 0 commands)

-- The five read-write operations of signer, proposer and treasury.
unfoldable pub rw_key_cost : ℕ
unfolding get_cost_traverse get_cost_read set_cost_write_new_value set_cost_rehash
rw_key_cost =
    saturating_mul
      (saturating_add
        (saturating_add
          (saturating_add (get_cost_traverse account_trie_key_length) (get_cost_read 8))
          (set_cost_write_new_value 8))
        (set_cost_rehash account_trie_key_length))
      5

unfoldable pub tx_inclusion_cost_v1 : ℕ → List CommandKind → ℕ
unfolding minimum_receipt_size_v1 rw_key_cost
tx_inclusion_cost_v1 tx_size commands =
    saturating_add
      (saturating_mul (saturating_add (as_u64 tx_size) (minimum_receipt_size_v1 commands))
        blockchain_write_per_byte_cost)
      rw_key_cost

unfoldable pub tx_inclusion_cost_v2 : ℕ → List CommandKind → ℕ
unfolding minimum_receipt_size_v2 rw_key_cost
tx_inclusion_cost_v2 tx_size commands =
    saturating_add
      (saturating_mul (saturating_add (as_u64 tx_size) (minimum_receipt_size_v2 commands))
        blockchain_write_per_byte_cost)
      rw_key_cost

unfoldable pub blockchain_storage_cost : ℕ → ℕ
blockchain_storage_cost data_len = saturating_mul data_len blockchain_write_per_byte_cost

unfoldable pub blockchain_log_cost : ℕ → ℕ → ℕ
unfolding ceil_div_8
blockchain_log_cost topic_len val_len =
    let log_len = saturating_add topic_len val_len in
    saturating_add
      (saturating_add (saturating_mul (ceil_div_8 log_len) wasm_memory_read_per64_bits_cost)
        (saturating_mul topic_len crypto_sha256_per_byte))
      (saturating_mul log_len blockchain_write_per_byte_cost)
