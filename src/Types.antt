-- ===== src/Types.antt =====
-- The data of src/types.rs and of pchain_types that the runtime reads. A public address is 32 bytes
-- that are only compared and counted: a number stands for it. Bytes are numbers.

pub mod Receipt
use pchain_runtime.Prelude.{ℕ, Bool, Option, List, map}

abbrev pub PublicAddress : Type 0
PublicAddress = ℕ

-- `address.len()` of `[u8; 32]`.
abbrev pub address_len : ℕ
address_len = 32

abbrev pub Bytes : Type 0
Bytes = List ℕ

pub data TxnVersion : Type 0 where
  v1 v2 : TxnVersion

pub data CommandKind : Type 0 where
  transfer deploy call create_pool set_pool_settings delete_pool create_deposit : CommandKind
  set_deposit_settings top_up_deposit withdraw_deposit stake_deposit unstake_deposit : CommandKind
  next_epoch : CommandKind

-- `pchain_types::blockchain::Command`.
pub data Command : Type 0 where
  transfer : (recipient : PublicAddress) (amount : ℕ) → Command
  deploy : (contract : Bytes) (cbi_version : ℕ) → Command
  call :
      (target : PublicAddress) (method : Bytes) (arguments : Option (List Bytes))
      (amount : Option ℕ)
      → Command
  create_pool : (commission_rate : ℕ) → Command
  set_pool_settings : (commission_rate : ℕ) → Command
  delete_pool : Command
  create_deposit : (operator : PublicAddress) (balance : ℕ) (auto_stake_rewards : Bool) → Command
  set_deposit_settings : (operator : PublicAddress) (auto_stake_rewards : Bool) → Command
  top_up_deposit : (operator : PublicAddress) (amount : ℕ) → Command
  withdraw_deposit : (operator : PublicAddress) (max_amount : ℕ) → Command
  stake_deposit : (operator : PublicAddress) (max_amount : ℕ) → Command
  unstake_deposit : (operator : PublicAddress) (max_amount : ℕ) → Command
  next_epoch : Command

-- `CommandKind::from`.
abbrev pub command_kind : Command → CommandKind
command_kind (Command.transfer _ _) = CommandKind.transfer
command_kind (Command.deploy _ _) = CommandKind.deploy
command_kind (Command.call _ _ _ _) = CommandKind.call
command_kind (Command.create_pool _) = CommandKind.create_pool
command_kind (Command.set_pool_settings _) = CommandKind.set_pool_settings
command_kind Command.delete_pool = CommandKind.delete_pool
command_kind (Command.create_deposit _ _ _) = CommandKind.create_deposit
command_kind (Command.set_deposit_settings _ _) = CommandKind.set_deposit_settings
command_kind (Command.top_up_deposit _ _) = CommandKind.top_up_deposit
command_kind (Command.withdraw_deposit _ _) = CommandKind.withdraw_deposit
command_kind (Command.stake_deposit _ _) = CommandKind.stake_deposit
command_kind (Command.unstake_deposit _ _) = CommandKind.unstake_deposit
command_kind Command.next_epoch = CommandKind.next_epoch

pub record TxnMetadata : Type 0 where
  pub hash : Bytes
  pub version : TxnVersion
  pub command_kinds : List CommandKind
  pub signer : PublicAddress
  pub nonce : ℕ
  pub gas_limit : ℕ
  pub priority_fee_per_gas : ℕ
  pub size : ℕ

-- The fields of a transaction (`TransactionV1`, `TransactionV2`) that the runtime reads, with the
-- length of its serialization.
pub record Transaction : Type 0 where
  pub hash : Bytes
  pub version : TxnVersion
  pub signer : PublicAddress
  pub nonce : ℕ
  pub commands : List Command
  pub gas_limit : ℕ
  pub priority_fee_per_gas : ℕ
  pub serialized_len : ℕ

unfoldable pub txn_metadata : Transaction → TxnMetadata
txn_metadata tx = record {
  hash = tx.hash;
  version = tx.version;
  command_kinds = map command_kind tx.commands;
  signer = tx.signer;
  nonce = tx.nonce;
  gas_limit = tx.gas_limit;
  priority_fee_per_gas = tx.priority_fee_per_gas;
  size = tx.serialized_len;
}

-- What a contract is called with: `base_tx` is the metadata of the transaction, adapted to the call.
pub record CallTx : Type 0 where
  pub base_tx : TxnMetadata
  pub target : PublicAddress
  pub method : Bytes
  pub arguments : Option (List Bytes)
  pub amount : Option ℕ

pub record ValidatorPerformance : Type 0 where
  pub blocks_per_epoch : ℕ
  pub stats : List (PublicAddress × ℕ)

pub record BlockchainParams : Type 0 where
  pub this_block_number : ℕ
  pub prev_block_hash : Bytes
  pub timestamp : ℕ
  pub this_base_fee : ℕ
  pub proposer_address : PublicAddress
  pub treasury_address : PublicAddress
  pub validator_performance : Option ValidatorPerformance

pub record DeferredCommand : Type 0 where
  pub contract_address : PublicAddress
  pub command : Command

pub record Log : Type 0 where
  pub topic : Bytes
  pub value : Bytes

pub record CommandOutput : Type 0 where
  pub logs : List Log
  pub return_value : Bytes
  pub amount_withdrawn : ℕ
  pub amount_staked : ℕ
  pub amount_unstaked : ℕ
