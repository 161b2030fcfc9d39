-- ===== src/Commands/Staking.antt =====
-- The staking commands of src/commands/staking.rs, each with its guards, its changes and its charges
-- in the order of the source.
use pchain_runtime.Prelude.{
  ℕ, ◌-◌, min, max, Bool, true, false, not, Option, none, some, ltb, nat_beq, nat_eq, if◌then◌else◌,
}
use pchain_runtime.Word.{saturating_add, saturating_sub}
use pchain_runtime.Types.{PublicAddress, TxnVersion}
use pchain_runtime.Error.{
  invalid_pool_policy, pool_already_exists, pool_not_exists, pool_has_no_stakes,
  deposits_already_exists, deposits_not_exists, invalid_deposit_policy, invalid_stake_amount,
  not_enough_balance_for_transfer,
}
use pchain_runtime.Cache.World.{WorldState}
use pchain_runtime.Cache.Receipt.{to_le_bytes}
use pchain_runtime.Gas.CostChange.{deduct, net_cost}
use pchain_runtime.Gas.Constants.{blockchain_storage_cost}
use pchain_runtime.Gas.Meter
use pchain_runtime.Gas.Meter.{GasMeter}
use pchain_runtime.Execution.{
  Execution, pure, gets, metered, metered_, unwrap, abort, abort_if_gas_exhausted, ◌>>=◌, ◌>>◌,
}
use pchain_runtime.Network.{NetworkAccount, ValidatorSet, previous, current}
use pchain_runtime.Network.Meter.{network}
use pchain_runtime.Commands.Power.{
  operator_power, stake_power_of, or_0, stake_of_pool, reduce_stake_power, increase_stake_power,
}

-- `pool.commission_rate() == Some(rate)`, `deposits.auto_stake_rewards() == Some(b)`
abbrev is_rate : ℕ → Option ℕ → Bool
is_rate rate none = false
is_rate rate (some r) = nat_beq r rate

abbrev is_setting : Bool → Option Bool → Bool
is_setting b none = false
is_setting true (some c) = c
is_setting false (some true) = false
is_setting false (some false) = true

-- `CostChange::deduct(blockchain_storage_cost(..)).net_cost().0`, of the eight bytes of a `u64` in
-- both versions.
unfoldable pub amount_cost : ℕ
unfolding deduct net_cost blockchain_storage_cost
amount_cost = (net_cost (deduct (blockchain_storage_cost 8))).0

-- The amount in the command's output, or the charge that exhausts the gas.
unfoldable pub store_amount :
    {WS : Type 0}
    → Bool
    → TxnVersion
    → ℕ
    → (ℕ → GasMeter WS → GasMeter WS)
    → GasMeter WS
    → GasMeter WS
unfolding amount_cost
store_amount true version amount set_amount g = Meter.manually_charge_gas amount_cost g
store_amount false TxnVersion.v1 amount set_amount g =
    Meter.command_output_set_return_value (to_le_bytes amount) g
store_amount false TxnVersion.v2 amount set_amount g = set_amount amount g

module _ {WS E : Type 0} ⦃t : WorldState WS⦄ ⦃net : NetworkAccount⦄ where
  unfoldable pub create_pool : PublicAddress → ℕ → Execution WS E (Unit {0})
  create_pool operator commission_rate =
      if ltb 100 commission_rate then abort invalid_pool_policy else do
        exists ← network (net.pool_exists operator)
        if exists then abort pool_already_exists else do
          network (net.pool_set_operator operator operator)
          network (net.pool_set_power operator 0)
          network (net.pool_set_commission_rate operator commission_rate)
          network (net.pool_set_operator_stake operator none)
          network (net.nvp_insert_extract (record { operator = operator; power = 0 }))
          abort_if_gas_exhausted

  unfoldable pub set_pool_settings : PublicAddress → ℕ → Execution WS E (Unit {0})
  set_pool_settings operator new_commission_rate =
      if ltb 100 new_commission_rate then abort invalid_pool_policy else do
        exists ← network (net.pool_exists operator)
        if not exists then abort pool_not_exists else do
          rate ← network (net.pool_commission_rate operator)
          if is_rate new_commission_rate rate then abort invalid_pool_policy else do
            network (net.pool_set_commission_rate operator new_commission_rate)
            abort_if_gas_exhausted

  unfoldable pub delete_pool : PublicAddress → Execution WS E (Unit {0})
  delete_pool operator = do
    exists ← network (net.pool_exists operator)
    if not exists then abort pool_not_exists else do
      network (net.nvp_remove_item operator)
      network (net.pool_delete operator)
      abort_if_gas_exhausted

  unfoldable pub create_deposit :
      PublicAddress → PublicAddress → ℕ → Bool → Execution WS E (Unit {0})
  create_deposit owner operator balance auto_stake_rewards = do
    pool_exists ← network (net.pool_exists operator)
    if not pool_exists then abort pool_not_exists else do
      exists ← network (net.deposit_exists operator owner)
      if exists then abort deposits_already_exists else do
        owner_balance ← metered (Meter.ws_balance owner)
        if ltb owner_balance balance then abort not_enough_balance_for_transfer else do
          metered_ (Meter.ws_set_balance owner (owner_balance - balance))
          network (net.deposit_set_balance operator owner balance)
          network (net.deposit_set_auto_stake_rewards operator owner auto_stake_rewards)
          abort_if_gas_exhausted

  unfoldable pub set_deposit_settings :
      PublicAddress → PublicAddress → Bool → Execution WS E (Unit {0})
  set_deposit_settings owner operator new_auto_stake_rewards = do
    exists ← network (net.deposit_exists operator owner)
    if not exists then abort deposits_not_exists else do
      setting ← network (net.deposit_auto_stake_rewards operator owner)
      if is_setting new_auto_stake_rewards setting then abort invalid_deposit_policy else do
        network (net.deposit_set_auto_stake_rewards operator owner new_auto_stake_rewards)
        abort_if_gas_exhausted

  unfoldable pub topup_deposit : PublicAddress → PublicAddress → ℕ → Execution WS E (Unit {0})
  topup_deposit owner operator amount = do
    exists ← network (net.deposit_exists operator owner)
    if not exists then abort deposits_not_exists else do
      owner_balance ← metered (Meter.ws_balance owner)
      if ltb owner_balance amount then abort not_enough_balance_for_transfer else do
        metered_ (Meter.ws_set_balance owner (owner_balance - amount))
        found ← network (net.deposit_balance operator owner)
        deposit_balance ← unwrap found
        network (net.deposit_set_balance operator owner (saturating_add deposit_balance amount))
        abort_if_gas_exhausted

  -- The power of the owner's stake in the operator's pool of a validator set; 0 without one.
  unfoldable pub locked_power : ValidatorSet → PublicAddress → PublicAddress → Execution WS E ℕ
  locked_power set operator owner = do
    has_pool ← network (net.vp_has_pool set operator)
    if not has_pool
        then pure 0
        else if nat_beq operator owner
        then (network (net.vp_operator_stake set operator) >>= λ stake.
            pure (or_0 (operator_power stake)))
        else (network (net.vp_stakes_get_by set operator owner) >>= λ stake.
            pure (or_0 (stake_power_of stake)))

  -- The end of the three commands that return an amount: the gas is checked before it is stored.
  unfoldable pub return_amount : ℕ → (ℕ → GasMeter WS → GasMeter WS) → Execution WS E (Unit {0})
  return_amount amount set_amount = do
    version ← gets (λ s. s.txn_meta.version)
    exhausted ← gets (λ s.
        ltb s.txn_meta.gas_limit
          (saturating_add (Meter.total_gas_used s.ctx.gas_meter) amount_cost))
    metered_ (store_amount exhausted version amount set_amount)
    abort_if_gas_exhausted

  unfoldable pub cap_at :
      PublicAddress → PublicAddress → ℕ → ℕ → Option ℕ → Execution WS E (Unit {0})
  cap_at operator owner new_deposit_balance stake_power none = pure tt
  cap_at operator owner new_deposit_balance stake_power (some prev_pool_power) = do
    network (
        reduce_stake_power operator prev_pool_power owner stake_power
          (stake_power - new_deposit_balance))
    pure tt

  unfoldable pub cap_stake_power :
      PublicAddress → PublicAddress → ℕ → Option ℕ → Execution WS E (Unit {0})
  cap_stake_power operator owner new_deposit_balance none = pure tt
  cap_stake_power operator owner new_deposit_balance (some stake_power) =
      if ltb new_deposit_balance stake_power
      then network (net.pool_power operator)
        >>= cap_at operator owner new_deposit_balance stake_power
      else pure tt

  -- Step 5 of `withdraw_deposit`: the stake is capped at what is left of the deposit.
  unfoldable pub cap_stake : PublicAddress → PublicAddress → ℕ → Execution WS E (Unit {0})
  cap_stake operator owner new_deposit_balance = do
    stake ← network (stake_of_pool operator owner)
    cap_stake_power operator owner new_deposit_balance stake

  unfoldable pub withdraw_deposit : PublicAddress → PublicAddress → ℕ → Execution WS E (Unit {0})
  withdraw_deposit owner operator max_amount = do
    exists ← network (net.deposit_exists operator owner)
    if not exists then abort deposits_not_exists else do
      found ← network (net.deposit_balance operator owner)
      deposit_balance ← unwrap found
      prev_epoch_locked_power ← locked_power previous operator owner
      cur_epoch_locked_power ← locked_power current operator owner
      let locked = max prev_epoch_locked_power cur_epoch_locked_power
      let withdrawal_amount = min max_amount (saturating_sub deposit_balance locked)
      let new_deposit_balance = saturating_sub deposit_balance withdrawal_amount
      if nat_beq new_deposit_balance deposit_balance then abort invalid_stake_amount else do
        network (
            if nat_beq new_deposit_balance 0
            then net.deposit_delete operator owner
            else net.deposit_set_balance operator owner new_deposit_balance)
        owner_balance ← metered (Meter.ws_balance owner)
        metered_ (
            Meter.ws_set_balance owner
              (saturating_add owner_balance (deposit_balance - new_deposit_balance)))
        cap_stake operator owner new_deposit_balance
        return_amount withdrawal_amount Meter.command_output_set_amount_withdrawn

  unfoldable pub stake_deposit : PublicAddress → PublicAddress → ℕ → Execution WS E (Unit {0})
  stake_deposit owner operator max_amount = do
    exists ← network (net.deposit_exists operator owner)
    if not exists then abort deposits_not_exists else do
      found ← network (net.deposit_balance operator owner)
      deposit_balance ← unwrap found
      pool_exists ← network (net.pool_exists operator)
      if not pool_exists then abort pool_not_exists else do
        power ← network (net.pool_power operator)
        prev_pool_power ← unwrap power
        stake_power ← network (stake_of_pool operator owner)
        let increase = min max_amount (saturating_sub deposit_balance (or_0 stake_power))
        if nat_beq increase 0 then abort invalid_stake_amount else do
          increased ←
              network
                (increase_stake_power operator prev_pool_power owner stake_power increase true)
          if not increased
              then abort invalid_stake_amount
              else do return_amount increase Meter.command_output_set_amount_staked

  -- The match on `stake_of_pool`, and step 3.
  unfoldable pub unstake :
      PublicAddress → PublicAddress → ℕ → ℕ → Option ℕ → Execution WS E (Unit {0})
  unstake operator owner prev_pool_power max_amount none = abort pool_has_no_stakes
  unstake operator owner prev_pool_power max_amount (some stake_power) = do
    amount ← network (reduce_stake_power operator prev_pool_power owner stake_power max_amount)
    return_amount amount Meter.command_output_set_amount_unstaked

  unfoldable pub unstake_deposit : PublicAddress → PublicAddress → ℕ → Execution WS E (Unit {0})
  unstake_deposit owner operator max_amount = do
    exists ← network (net.deposit_exists operator owner)
    if not exists then abort deposits_not_exists else do
      pool_exists ← network (net.pool_exists operator)
      if not pool_exists then abort pool_not_exists else do
        power ← network (net.pool_power operator)
        prev_pool_power ← unwrap power
        stake ← network (stake_of_pool operator owner)
        unstake operator owner prev_pool_power max_amount stake
