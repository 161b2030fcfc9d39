-- ===== src/Protocol.antt =====
-- The command of the next epoch: `next_epoch` of src/commands/protocol.rs, as a program on the network
-- account. It charges no gas.
pub mod Program
pub mod Changes
pub mod Validators
pub mod Payout
pub mod Cache
use pchain_runtime.Prelude.{
  ℕ, ◌/◌, Bool, true, false, not, Option, none, some, List, [], ◌∷◌, ◌++◌, map, ltb, nat_beq,
  nat_eq, if◌then◌else◌,
}
use pchain_runtime.Word
use pchain_runtime.Word.{saturating_add, checked_add}
use pchain_runtime.Types.{PublicAddress, ValidatorPerformance}
use pchain_runtime.HashMap
use pchain_runtime.HashMap.{HashMap}
use pchain_runtime.Network.{NetworkAccount, Stake, Pool, PoolKey, previous, current}
use pchain_runtime.Commands.Power.{operator_power, or_0, stake_of_pool, increase_stake_power}
use pchain_runtime.Rewards
use pchain_runtime.Protocol.Program.{
  Fallible, pure, lift, unwrap, checked, expect, collect, for_each, ◌>>=◌, ◌>>◌,
}
use pchain_runtime.Protocol.Changes.{ValidatorChanges, validator_changes}

-- The stakes of the pools in the validator set, by operator.
abbrev pub StakesOfVp : Type 0
StakesOfVp = HashMap PublicAddress (List Stake)

pub record AutoStake : Type 0 where
  pub operator : PublicAddress
  pub owner : PublicAddress
  pub increase_amount : ℕ

abbrev is_set : Option Bool → Bool
is_set none = false
is_set (some b) = b

abbrev flat : Option (Option Stake) → Option Stake
flat none = none
flat (some s) = s

abbrev pub own_power : Option Stake → ℕ
own_power none = 0
own_power (some s) = s.power

abbrev pub proposed_blocks : ValidatorPerformance → PublicAddress → ℕ
proposed_blocks performance operator = or_0 (HashMap.get operator performance.stats)

unfoldable pub add_stakes : ℕ → List Stake → ℕ
add_stakes total [] = total
add_stakes total (s ∷ ss) = add_stakes (saturating_add total s.power) ss

-- The rewards of the stakers, and the commission fees added to those before.
unfoldable pub reward_stakes : ℕ → ℕ → ℕ → List Stake → ℕ → Option (List (PublicAddress × ℕ) × ℕ)
unfolding Rewards.stake_reward
reward_stakes pool_reward rate total [] fees = some ([], fees)
reward_stakes pool_reward rate total (s ∷ ss) fees =
    Word.◌>>=◌ (Rewards.stake_reward pool_reward rate s.power total) (λ paid.
      Word.◌>>=◌ (reward_stakes pool_reward rate total ss (saturating_add fees paid.1))
        (λ rest. some ((s.owner, paid.0) ∷ rest.0, rest.1)))

-- 1.3, without the writes: no staker is rewarded by a pool with no reward.
unfoldable pub stakers_to_reward : ℕ → ℕ → ℕ → List Stake → Option (List (PublicAddress × ℕ) × ℕ)
unfolding reward_stakes
stakers_to_reward pool_reward rate total stakes =
    if ltb 0 pool_reward then reward_stakes pool_reward rate total stakes 0 else some ([], 0)

-- What the operator of a pool is rewarded: for its own stake, with no commission, and the fees.
unfoldable pub operator_reward : ℕ → ℕ → ℕ → ℕ → Option ℕ
unfolding Rewards.stake_reward
operator_reward pool_reward own total fees =
    Word.◌>>=◌ (Rewards.stake_reward pool_reward 0 own total)
      (λ paid. some (saturating_add paid.0 fees))

module _ ⦃net : NetworkAccount⦄ where
  unfoldable pub read_pool : ℕ → Fallible Pool
  unfolding lift unwrap expect pure ◌>>=◌
  read_pool i = do
    has_pool ← lift (net.vp_has_pool_at current i)
    expect has_pool
    operator ← unwrap (net.vp_operator_at current i)
    commission_rate ← unwrap (net.vp_commission_rate_at current i)
    power ← lift (net.vp_power_at current i)
    operator_stake ← lift (net.vp_operator_stake_at current i)
    pure (record {
      operator = operator;
      commission_rate = commission_rate;
      power = or_0 power;
      operator_stake = flat operator_stake;
    })

  unfoldable pub read_stakes : PublicAddress → Fallible (List Stake)
  unfolding lift unwrap pure collect ◌>>=◌
  read_stakes operator = do
    has_pool ← lift (net.vp_has_pool current operator)
    if not has_pool then pure [] else do
      stakes_length ← lift (net.vp_stakes_length current operator)
      collect 0 stakes_length (λ j. unwrap (net.vp_stakes_get current operator j))

  abbrev add_to_balance : PublicAddress → PublicAddress → ℕ → Option ℕ → Fallible (Unit {0})
  add_to_balance operator owner reward none = pure tt
  add_to_balance operator owner reward (some balance) =
      lift (net.deposit_set_balance operator owner (saturating_add balance reward))

  abbrev auto_stake_of : PublicAddress → PublicAddress → ℕ → Option Bool → List AutoStake
  auto_stake_of operator owner reward setting =
      if is_set setting
      then (record { operator = operator; owner = owner; increase_amount = reward }) ∷ []
      else []

  unfoldable pub pay_stakers : PublicAddress → List (PublicAddress × ℕ) → Fallible (List AutoStake)
  unfolding lift pure ◌>>=◌
  pay_stakers operator [] = pure []
  pay_stakers operator ((owner, reward) ∷ stakers) = do
    balance ← lift (net.deposit_balance operator owner)
    add_to_balance operator owner reward balance
    setting ← lift (net.deposit_auto_stake_rewards operator owner)
    rest ← pay_stakers operator stakers
    pure (auto_stake_of operator owner reward setting ++ rest)

  -- The deposit is made if there is none.
  abbrev set_operator_balance : PublicAddress → ℕ → Option ℕ → Fallible (Unit {0})
  set_operator_balance operator reward (some balance) =
      lift (net.deposit_set_balance operator operator (saturating_add balance reward))
  set_operator_balance operator reward none = do
    lift (net.deposit_set_balance operator operator reward)
    lift (net.deposit_set_auto_stake_rewards operator operator false)

  unfoldable pub pay_operator : PublicAddress → ℕ → Fallible (List AutoStake)
  unfolding lift pure ◌>>=◌
  pay_operator operator reward = do
    balance ← lift (net.deposit_balance operator operator)
    set_operator_balance operator reward balance
    setting ← lift (net.deposit_auto_stake_rewards operator operator)
    pure (auto_stake_of operator operator reward setting)

  -- 1.4
  unfoldable pub reward_operator : Pool → ℕ → ℕ → ℕ → Fallible (List AutoStake)
  unfolding checked pure operator_reward pay_operator ◌>>=◌
  reward_operator pool pool_reward total fees =
      if ltb 0 pool_reward
      then (checked (operator_reward pool_reward (own_power pool.operator_stake) total fees)
          >>= pay_operator pool.operator)
      else pure []

  -- The body of the loop of step 1: the pool's stakes and what is to be staked on.
  unfoldable pub reward_pool :
      ℕ → ValidatorPerformance → ℕ → Pool → Fallible (List Stake × List AutoStake)
  unfolding Rewards.pool_reward checked pure read_stakes add_stakes stakers_to_reward pay_stakers
      reward_operator ◌>>=◌
  reward_pool current_epoch performance pool_length pool = do
    pool_reward ← checked (
        Rewards.pool_reward current_epoch pool.power (proposed_blocks performance pool.operator)
          (performance.blocks_per_epoch / pool_length))
    vp_stakes ← read_stakes pool.operator
    let total_stakes = add_stakes (own_power pool.operator_stake) vp_stakes
    (stakers, fees) ←
        checked (stakers_to_reward pool_reward pool.commission_rate total_stakes vp_stakes)
    from_stakers ← pay_stakers pool.operator stakers
    from_operator ← reward_operator pool pool_reward total_stakes fees
    pure (vp_stakes, from_stakers ++ from_operator)

  unfoldable pub reward_pools :
      ℕ
      → ValidatorPerformance
      → ℕ
      → List Pool
      → StakesOfVp
      → List AutoStake
      → Fallible (StakesOfVp × List AutoStake)
  unfolding pure reward_pool ◌>>=◌
  reward_pools current_epoch performance pool_length [] stakes autos = pure (stakes, autos)
  reward_pools current_epoch performance pool_length (pool ∷ pools) stakes autos = do
    (vp_stakes, more) ← reward_pool current_epoch performance pool_length pool
    reward_pools current_epoch performance pool_length pools
        (HashMap.insert pool.operator vp_stakes stakes) (autos ++ more)

  -- A pool that is gone is skipped, and an error of the increase is ignored.
  unfoldable pub auto_stake : AutoStake → Fallible (Unit {0})
  unfolding lift pure stake_of_pool increase_stake_power ◌>>=◌
  auto_stake a = do
    exists ← lift (net.pool_exists a.operator)
    if not exists then pure tt else do
      pool_power ← lift (net.pool_power a.operator)
      stake_power ← lift (stake_of_pool a.operator a.owner)
      lift (
          increase_stake_power a.operator (or_0 pool_power) a.owner stake_power a.increase_amount
            false)
      pure tt

  -- Step 2, with the `remove(..).unwrap()` of the pool's stakes.
  unfoldable pub push_previous : List Pool → StakesOfVp → Fallible (Unit {0})
  unfolding lift checked pure HashMap.get HashMap.remove ◌>>=◌
  push_previous [] stakes = pure tt
  push_previous (pool ∷ pools) stakes = do
    delegated_stakes ← checked (HashMap.get pool.operator stakes)
    lift (net.vp_push previous pool delegated_stakes)
    push_previous pools (HashMap.remove pool.operator stakes)

  -- The body of the loop of step 3.
  unfoldable pub push_next : ℕ → Fallible (PublicAddress × ℕ)
  unfolding lift unwrap pure ◌>>=◌
  push_next i = do
    key ← unwrap (net.nvp_get i)
    operator ← unwrap (net.pool_operator key.operator)
    commission_rate ← unwrap (net.pool_commission_rate key.operator)
    power ← unwrap (net.pool_power key.operator)
    operator_stake ← unwrap (net.pool_operator_stake key.operator)
    delegated_stakes ← lift (net.stakes_unordered_values key.operator)
    let pool_to_vs : Pool = record {
      operator = operator;
      commission_rate = commission_rate;
      power = power;
      operator_stake = operator_stake;
    }
    lift (net.vp_push current pool_to_vs delegated_stakes)
    pure (operator, power)

  abbrev pub validator_of : Pool → PublicAddress × ℕ
  validator_of pool = (pool.operator, pool.power)

  unfoldable pub next_epoch : ValidatorPerformance → Fallible ValidatorChanges
  unfolding lift checked pure collect for_each read_pool reward_pools auto_stake push_previous
      push_next validator_changes ◌>>=◌
  next_epoch performance = do
    current_epoch ← lift net.current_epoch
    pool_length ← lift (net.vp_length current)
    pools_in_vp ← collect 0 pool_length read_pool
    (stakes_of_vp, auto_stakes) ←
        reward_pools current_epoch performance pool_length pools_in_vp [] []
    for_each auto_stakes auto_stake
    lift (net.vp_clear previous)
    push_previous pools_in_vp stakes_of_vp
    lift (net.vp_clear current)
    next_length ← lift net.nvp_length
    next_validator_set ← collect 0 next_length push_next
    next ← checked (checked_add current_epoch 1)
    lift (net.set_current_epoch next)
    pure (validator_changes (map validator_of pools_in_vp) next_validator_set)
