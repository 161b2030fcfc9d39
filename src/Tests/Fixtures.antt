-- ===== src/Tests/Fixtures.antt =====
-- A world state with three accounts, a network account that keeps its values in the storage, and
-- contracts that defer one transfer.
use pchain_runtime.Prelude.{
  ℕ, refl, Bool, true, false, Option, none, some, List, [], ◌∷◌, ◌++◌, map, nat_beq, if◌then◌else◌,
}
use pchain_runtime.Error.{ok}
use pchain_runtime.Types.{
  PublicAddress, Bytes, TxnVersion, TxnMetadata, BlockchainParams, Command, command_kind,
}
use pchain_runtime.Types.Receipt.{CommandReceiptV2}
use pchain_runtime.Cache.World.{WorldState}
use pchain_runtime.Cache.World.Interface.{Accounts, in_memory}
use pchain_runtime.State.{ExecutionState}
use pchain_runtime.Execution.{pure}
use pchain_runtime.Execution.Behaves.{Behaves, Behaves-pure, IsMeterStep-refl}
use pchain_runtime.Network.{NetworkAccount, StorageProgram, Stake, PoolKey}
use pchain_runtime.Executor.{Contracts}
use pchain_runtime.Executor.Frame.{ContractsLaws}
use pchain_runtime.Executor.Transaction.{start}

abbrev pub no_code : PublicAddress → Option Bytes
no_code a = none

-- Account 1 is the signer, 2 the proposer and 3 the treasury.
abbrev pub world : Accounts
world = record {
  balance = λ a. if nat_beq a 1 then 1000000000 else 7;
  nonce = λ a. 0;
  cbi_version = λ a. none;
  code = no_code;
  storage = λ a k. none;
}

abbrev pub params : BlockchainParams
params = record {
  this_block_number = 9;
  prev_block_hash = [];
  timestamp = 1700000000;
  this_base_fee = 8;
  proposer_address = 2;
  treasury_address = 3;
  validator_performance = none;
}

abbrev pub commands : List Command
commands = Command.call 9 [] none none ∷ Command.transfer 4 100 ∷ []

abbrev pub meta_of : ℕ → List Command → TxnMetadata
meta_of gas_limit cs = record {
  hash = [];
  version = TxnVersion.v2;
  command_kinds = map command_kind cs;
  signer = 1;
  nonce = 0;
  gas_limit = gas_limit;
  priority_fee_per_gas = 1;
  size = 200;
}

abbrev pub meta : TxnMetadata
meta = meta_of 5000000 commands

-- A transfer of more than the signer has.
abbrev pub failing : List Command
failing = Command.transfer 4 100 ∷ Command.transfer 4 2000000000 ∷ Command.transfer 4 1 ∷ []

abbrev pub calls : {WS E : Type 0} → Contracts WS E
calls = record {
  deploy = λ i contract version s. (ok tt, s);
  call = λ is_view target method arguments amount s. (
    ok tt,
    record s {
      ctx = record s.ctx {
        deferred_commands =
            s.ctx.deferred_commands
            ++ (record { contract_address = target; command = Command.transfer 5 1 }) ∷ [];
      };
    },
  );
}

calls_call-Behaves :
    {WS E : Type 0} ⦃t : WorldState WS⦄ (is_view : Bool) (target : PublicAddress) (method : Bytes)
    (arguments : Option (List Bytes)) (amount : Option ℕ)
    → Behaves ((calls {WS = WS} {E = E}).call is_view target method arguments amount)
calls_call-Behaves is_view target method arguments amount = record {
  frame = λ s. record {
    txn_meta = refl;
    bd = refl;
    receipt = refl;
    meter = IsMeterStep-refl s.ctx.gas_meter;
  };
  reverted = λ s. tt;
}

pub calls_laws : {WS E : Type 0} ⦃t : WorldState WS⦄ → ContractsLaws (calls {WS = WS} {E = E})
unfolding pure
calls_laws = record {
  deploy-Behaves = λ i contract version. Behaves-pure tt;
  call-Behaves = calls_call-Behaves;
}

abbrev number : Bytes → StorageProgram (Option ℕ)
number key =
    StorageProgram.get key
      (λ v. StorageProgram.done (elim v [ none ↦ none | some [] ↦ none | some (x ∷ _) ↦ some x ]))

abbrev put : Bytes → Bytes → StorageProgram (Unit {0})
put key value = StorageProgram.set key value (StorageProgram.done tt)

abbrev clear : Bytes → StorageProgram (Unit {0})
clear key = StorageProgram.delete key (StorageProgram.done tt)

abbrev has : Bytes → StorageProgram Bool
has key = StorageProgram.contains key StorageProgram.done

abbrev flag : Bytes → StorageProgram (Option Bool)
flag key = StorageProgram.get key (λ v.
    StorageProgram.done (elim v [ none ↦ none | some [] ↦ some false | some (x ∷ _) ↦ some true ]))

abbrev stake : PublicAddress → Bytes → StorageProgram (Option Stake)
stake owner key = StorageProgram.get key (λ v. StorageProgram.done (elim v [
  | none ↦ none
  | some [] ↦ none
  | some (x ∷ _) ↦ some (record { owner = owner; power = x })
]))

abbrev pool_key : PublicAddress → Bytes → StorageProgram (Option PoolKey)
pool_key operator key = StorageProgram.get key (λ v. StorageProgram.done (elim v [
  | none ↦ none
  | some [] ↦ none
  | some (x ∷ _) ↦ some (record { operator = operator; power = x })
]))

abbrev put_stake : Bytes → Option Stake → StorageProgram (Unit {0})
put_stake key none = clear key
put_stake key (some s) = put key (s.power ∷ [])

abbrev count : Bytes → StorageProgram ℕ
count key =
    StorageProgram.get key
      (λ v. StorageProgram.done (elim v [ none ↦ 0 | some [] ↦ 0 | some (x ∷ _) ↦ x ]))

-- Each field at a key of its own, with no order among pools or stakes.
instance abbrev pub in_storage : NetworkAccount
in_storage = record {
  network_address = 0;
  pool_exists = λ o. has (0 ∷ o ∷ []);
  pool_power = λ o. number (0 ∷ o ∷ []);
  pool_commission_rate = λ o. number (1 ∷ o ∷ []);
  pool_operator_stake = λ o. StorageProgram.get (2 ∷ o ∷ []) (λ v. StorageProgram.done (elim v [
    | none ↦ some none
    | some [] ↦ some none
    | some (x ∷ _) ↦ some (some (record { owner = o; power = x }))
  ]));
  pool_set_operator = λ o a. put (3 ∷ o ∷ []) (a ∷ []);
  pool_set_power = λ o p. put (0 ∷ o ∷ []) (p ∷ []);
  pool_set_commission_rate = λ o r. put (1 ∷ o ∷ []) (r ∷ []);
  pool_set_operator_stake = λ o s. put_stake (2 ∷ o ∷ []) s;
  pool_delete = λ o. clear (0 ∷ o ∷ []);
  stakes_get_by = λ o a. stake a (4 ∷ o ∷ a ∷ []);
  stakes_insert_extract = λ o s.
      StorageProgram.set (4 ∷ o ∷ s.owner ∷ []) (s.power ∷ []) (StorageProgram.done (some none));
  stakes_change_key = λ o s. put (4 ∷ o ∷ s.owner ∷ []) (s.power ∷ []);
  stakes_remove_item = λ o a. clear (4 ∷ o ∷ a ∷ []);
  nvp_get_by = λ o. pool_key o (5 ∷ o ∷ []);
  nvp_insert_extract = λ k.
      StorageProgram.set (5 ∷ k.operator ∷ []) (k.power ∷ []) (StorageProgram.done (some none));
  nvp_change_key = λ k. put (5 ∷ k.operator ∷ []) (k.power ∷ []);
  nvp_remove_item = λ o. clear (5 ∷ o ∷ []);
  vp_has_pool = λ v o. has (6 ∷ o ∷ []);
  vp_operator_stake = λ v o. StorageProgram.done none;
  vp_stakes_get_by = λ v o a. stake a (7 ∷ o ∷ a ∷ []);
  deposit_exists = λ o a. has (8 ∷ o ∷ a ∷ []);
  deposit_balance = λ o a. number (8 ∷ o ∷ a ∷ []);
  deposit_auto_stake_rewards = λ o a. flag (9 ∷ o ∷ a ∷ []);
  deposit_set_balance = λ o a b. put (8 ∷ o ∷ a ∷ []) (b ∷ []);
  deposit_set_auto_stake_rewards = λ o a b. put (9 ∷ o ∷ a ∷ []) (if b then 1 ∷ [] else []);
  deposit_delete = λ o a. clear (8 ∷ o ∷ a ∷ []);
  current_epoch = count (10 ∷ []);
  set_current_epoch = λ n. put (10 ∷ []) (n ∷ []);
  vp_length = λ v. count (11 ∷ []);
  vp_has_pool_at = λ v i. has (12 ∷ i ∷ []);
  vp_operator_at = λ v i. number (12 ∷ i ∷ []);
  vp_commission_rate_at = λ v i. number (13 ∷ i ∷ []);
  vp_power_at = λ v i. number (14 ∷ i ∷ []);
  vp_operator_stake_at = λ v i. StorageProgram.done none;
  vp_stakes_length = λ v o. count (15 ∷ o ∷ []);
  vp_stakes_get = λ v o j. stake j (16 ∷ o ∷ j ∷ []);
  vp_clear = λ v. clear (11 ∷ []);
  vp_push = λ v p ss. put (11 ∷ []) (1 ∷ []);
  nvp_length = count (17 ∷ []);
  nvp_get = λ i. pool_key i (18 ∷ i ∷ []);
  pool_operator = λ o. number (3 ∷ o ∷ []);
  stakes_unordered_values = λ o. StorageProgram.done [];
}

-- The states before and after the pre-charge.
abbrev pub before : List Command → ExecutionState Accounts CommandReceiptV2
before cs = start (meta_of 5000000 cs) params world
