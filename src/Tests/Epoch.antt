-- ===== src/Tests/Epoch.antt =====
-- The end of an epoch with one pool in the validator set, another one in the next, and a staker.
use pchain_runtime.Prelude.{
  ℕ, ◌+◌, ◌*◌, ◌≤◌, ◌≡◌, refl, inl, inr, Option, none, some, List, [], ◌∷◌, bytes_eq, nat_eq,
  nat_beq, if◌then◌else◌, arith,
}
use pchain_runtime.Types.{
  PublicAddress, Bytes, TxnVersion, Command, Transaction, BlockchainParams, ValidatorPerformance,
}
use pchain_runtime.Types.Receipt.{ReceiptV2}
use pchain_runtime.HashMap
use pchain_runtime.HashMap.{HashMap}
use pchain_runtime.Cache.Data
use pchain_runtime.Cache.World
use pchain_runtime.Cache.World.Interface.{Accounts, in_memory, in_memory_laws}
use pchain_runtime.Network.{Stake}
use pchain_runtime.Rewards.{issuance, pool_reward}
use pchain_runtime.Rewards.Table.{issuance_rate_reduction_factor}
use pchain_runtime.Rewards.Issuance.{issuance_descending, pool_reward_lem}
use pchain_runtime.Protocol.{add_stakes, stakers_to_reward, operator_reward, next_epoch}
use pchain_runtime.Protocol.Cache.{run_on_cache}
use pchain_runtime.Protocol.Changes.{ValidatorChanges, validator_changes}
use pchain_runtime.Protocol.Validators.{changed_power, validator_changes_lem}
use pchain_runtime.Protocol.Payout.{total_rewards, pool_payout}
use pchain_runtime.Executor.{Transition}
use pchain_runtime.Transition.{has_next_epoch, transition_v2}
use pchain_runtime.Transition.Epoch.{
  epoch_changes, IsEpochTransition, rejected, next_epoch_accepted, next_epoch-rejected,
}
use pchain_runtime.Error.{invalid_next_epoch_command}
use pchain_runtime.NextEpoch.Laws.{IsNextEpoch, next_epoch_receipt_v1}
use pchain_runtime.Transition.Upgrade.{
  failed_with, upgraded, transition_v1_to_v2, upgrade_rejected, transition_v1_to_v2_lem,
}
use pchain_runtime.Tests.Engine.{engine}
use pchain_runtime.Tests.Fixtures.{world, params, in_storage}

issuance_descending_example :
    (now later : ℕ × ℕ) × (issuance 0 1000000 ≡ some now)
    × (issuance 4000 1000000 ≡ some later)
    × (later.0 * now.1 ≤ now.0 * later.1)
issuance_descending_example = issuance_descending 0 4000 1000000 (omega arith) (omega arith)

pool_reward_lem_example :
    (reward : ℕ) × (pool_reward 10 1000000000 5 8 ≡ some reward)
    × (reward * 36500000000 ≤ 1000000000 * 8350000)
pool_reward_lem_example =
    pool_reward_lem 10 1000000000 5 8 (omega arith) (omega arith) (omega arith)

abbrev delegated : List Stake
delegated =
    (record { owner = 4; power = 600000000 }) ∷ (record { owner = 5; power = 300000000 }) ∷ []

pool_payout_example :
    (p : ℕ) × (stakers : List (PublicAddress × ℕ)) × (fees reward : ℕ) × (pool_reward 10 1000000000
        5 8
      ≡ some p)
    × (stakers_to_reward p 10 (add_stakes 100000000 delegated) delegated ≡ some (stakers, fees))
    × (operator_reward p 100000000 (add_stakes 100000000 delegated) fees ≡ some reward)
    × (total_rewards stakers + reward ≤ p)
pool_payout_example =
    pool_payout 10 1000000000 5 8 10 100000000 delegated (omega arith) (omega arith) (omega arith)
      (omega arith) (omega arith)

abbrev old_set : List (PublicAddress × ℕ)
old_set = (1, 10) ∷ (2, 20) ∷ []

abbrev next_set : List (PublicAddress × ℕ)
next_set = (3, 5) ∷ (1, 15) ∷ []

validator_changes_lem_example :
    changed_power (validator_changes old_set next_set) old_set 1 ≡ HashMap.get 1 next_set
unfolding HashMap.get
validator_changes_lem_example =
    validator_changes_lem old_set next_set 1 (refl, (refl, tt)) (refl, (refl, tt))

abbrev entry : HashMap Bytes Bytes → Bytes → Option Bytes
entry [] k = none
entry ((j, v) ∷ m) k = if bytes_eq.same j k then some v else entry m k

-- Pool 1 in the validator set with a stake of account 0, and pool 2 in the next one.
abbrev network_storage : HashMap Bytes Bytes
network_storage =
    (10 ∷ [], 7 ∷ [])
    ∷ (11 ∷ [], 1 ∷ [])
    ∷ (12 ∷ 0 ∷ [], 1 ∷ [])
    ∷ (13 ∷ 0 ∷ [], 10 ∷ [])
    ∷ (14 ∷ 0 ∷ [], 1000000000 ∷ [])
    ∷ (6 ∷ 1 ∷ [], 1 ∷ [])
    ∷ (15 ∷ 1 ∷ [], 1 ∷ [])
    ∷ (16 ∷ 1 ∷ 0 ∷ [], 1000000000 ∷ [])
    ∷ (8 ∷ 1 ∷ 0 ∷ [], 1000000000 ∷ [])
    ∷ (17 ∷ [], 1 ∷ [])
    ∷ (18 ∷ 0 ∷ [], 700 ∷ [])
    ∷ (3 ∷ 0 ∷ [], 2 ∷ [])
    ∷ (1 ∷ 0 ∷ [], 5 ∷ [])
    ∷ (0 ∷ 0 ∷ [], 700 ∷ [])
    ∷ []

abbrev epoch_world : Accounts
epoch_world = record world {
  storage = λ a k. if nat_beq a 0 then entry network_storage k else none;
}

abbrev performance : ValidatorPerformance
performance = record { blocks_per_epoch = 10; stats = (1, 8) ∷ [] }

abbrev epoch_params : BlockchainParams
epoch_params = record params { validator_performance = some performance }

abbrev epoch_end : Transaction
epoch_end = record {
  hash = [];
  version = TxnVersion.v2;
  signer = 1;
  nonce = 0;
  commands = Command.next_epoch ∷ [];
  gas_limit = 0;
  priority_fee_per_gas = 0;
  serialized_len = 100;
}

abbrev changes : ValidatorChanges
changes = record { new_validator_set = (2, 700) ∷ []; remove_validator_set = 1 ∷ [] }

epoch_changes_made : epoch_changes epoch_world performance ≡ some changes
unfolding next_epoch run_on_cache HashMap.get HashMap.insert Data.get World.new Data.empty
    Data.contains issuance_rate_reduction_factor Data.set
epoch_changes_made = refl

next_epoch_accepted_example :
    (tr : Transition Accounts ReceiptV2) × (transition_v2 engine 0 epoch_world epoch_end
        epoch_params
      ≡ some (some tr))
    × IsEpochTransition epoch_world epoch_end changes tr
next_epoch_accepted_example =
    next_epoch_accepted in_memory_laws engine 0 epoch_world epoch_end epoch_params performance
      changes refl refl refl epoch_changes_made

next_epoch-rejected_example :
    transition_v2 engine 0 epoch_world epoch_end params ≡ some (some (rejected epoch_world))
unfolding has_next_epoch
next_epoch-rejected_example =
    next_epoch-rejected engine 0 epoch_world epoch_end params refl (inr (inl refl))

abbrev upgrade : Accounts → Option Accounts
upgrade ws = some ws

abbrev epoch_end_v1 : Transaction
epoch_end_v1 = record epoch_end { version = TxnVersion.v1 }

upgrade_rejected_example :
    transition_v1_to_v2 upgrade epoch_world epoch_end_v1 params
    ≡ some (failed_with invalid_next_epoch_command)
upgrade_rejected_example = upgrade_rejected upgrade epoch_world epoch_end_v1 params (inr (inl refl))

transition_v1_to_v2_lem_example :
    (after : Accounts) × IsNextEpoch 0 1 0 epoch_world after
    × (transition_v1_to_v2 upgrade epoch_world epoch_end_v1 epoch_params
        ≡ some (
            upgraded
              (record {
                new_state = after;
                error = none;
                receipt = some next_epoch_receipt_v1;
                validator_changes = some changes;
              })
              (upgrade after)))
transition_v1_to_v2_lem_example =
    transition_v1_to_v2_lem upgrade in_memory_laws epoch_world epoch_end_v1 epoch_params performance
      changes refl refl refl epoch_changes_made
