-- ===== src/Commands/Behaves.antt =====
-- Every modelled command keeps what a command must keep.
use pchain_runtime.Prelude.{ℕ, Bool, true, false, Option, none, some, nat_eq}
use pchain_runtime.Types.{PublicAddress, TxnVersion}
use pchain_runtime.Cache.World.{WorldState}
use pchain_runtime.Cache.Receipt.{to_le_bytes}
use pchain_runtime.Gas.Meter.{GasMeter}
use pchain_runtime.Execution.Behaves.{Behaves, behaves_rules, IsMeterStep}
use pchain_runtime.Execution.Steps.{
  IsMeterStep-ws_balance, IsMeterStep-ws_set_balance, IsMeterStep-manually_charge_gas,
  IsMeterStep-command_output_set_return_value, IsMeterStep-command_output_set_amount_withdrawn,
  IsMeterStep-command_output_set_amount_staked, IsMeterStep-command_output_set_amount_unstaked,
}
use pchain_runtime.Network.{NetworkAccount, ValidatorSet}
use pchain_runtime.Network.Meter.{Behaves-network}
use pchain_runtime.Commands.Account.{transfer}
use pchain_runtime.Commands.Staking.{
  create_pool, set_pool_settings, delete_pool, create_deposit, set_deposit_settings, topup_deposit,
  locked_power, amount_cost, store_amount, return_amount, cap_at, cap_stake_power, cap_stake,
  withdraw_deposit, stake_deposit, unstake, unstake_deposit,
}

ruleset command_rules =
    (behaves_rules, Behaves-network, IsMeterStep-ws_balance, IsMeterStep-ws_set_balance)

module _ {WS : Type 0} ⦃t : WorldState WS⦄ where
  -- The two ends of the commands that return an amount: exhausted, and by version.
  store_amount_step :
      (exhausted : Bool) (version : TxnVersion) (amount : ℕ)
      (set_amount : ℕ → GasMeter WS → GasMeter WS)
      → ((x : ℕ) (g : GasMeter WS) → IsMeterStep g (set_amount x g))
      → (g : GasMeter WS) → IsMeterStep g (store_amount exhausted version amount set_amount g)
  unfolding store_amount
  store_amount_step true version amount set_amount h g =
      IsMeterStep-manually_charge_gas amount_cost g
  store_amount_step false TxnVersion.v1 amount set_amount h g =
      IsMeterStep-command_output_set_return_value (to_le_bytes amount) g
  store_amount_step false TxnVersion.v2 amount set_amount h g = h amount g

module _ {WS E : Type 0} ⦃t : WorldState WS⦄ where
  pub transfer-Behaves :
      (recipient : PublicAddress) (amount : ℕ)
      → Behaves (transfer {WS = WS} {E = E} recipient amount)
  unfolding transfer
  transfer-Behaves recipient amount = search command_rules depth 12

module _ {WS E : Type 0} ⦃t : WorldState WS⦄ ⦃net : NetworkAccount⦄ where
  pub create_pool-Behaves :
      (operator : PublicAddress) (rate : ℕ) → Behaves (create_pool {WS = WS} {E = E} operator rate)
  unfolding create_pool
  create_pool-Behaves operator rate = search command_rules depth 20

  pub set_pool_settings-Behaves :
      (operator : PublicAddress) (rate : ℕ)
      → Behaves (set_pool_settings {WS = WS} {E = E} operator rate)
  unfolding set_pool_settings
  set_pool_settings-Behaves operator rate = search command_rules depth 20

  pub delete_pool-Behaves :
      (operator : PublicAddress) → Behaves (delete_pool {WS = WS} {E = E} operator)
  unfolding delete_pool
  delete_pool-Behaves operator = search command_rules depth 20

  pub create_deposit-Behaves :
      (owner operator : PublicAddress) (balance : ℕ) (auto : Bool)
      → Behaves (create_deposit {WS = WS} {E = E} owner operator balance auto)
  unfolding create_deposit
  create_deposit-Behaves owner operator balance auto = search command_rules depth 20

  pub set_deposit_settings-Behaves :
      (owner operator : PublicAddress) (auto : Bool)
      → Behaves (set_deposit_settings {WS = WS} {E = E} owner operator auto)
  unfolding set_deposit_settings
  set_deposit_settings-Behaves owner operator auto = search command_rules depth 20

  pub topup_deposit-Behaves :
      (owner operator : PublicAddress) (amount : ℕ)
      → Behaves (topup_deposit {WS = WS} {E = E} owner operator amount)
  unfolding topup_deposit
  topup_deposit-Behaves owner operator amount = search command_rules depth 20

  locked_power-Behaves :
      (set : ValidatorSet) (operator owner : PublicAddress)
      → Behaves (locked_power {WS = WS} {E = E} set operator owner)
  unfolding locked_power
  locked_power-Behaves set operator owner = search command_rules depth 20

  return_amount-Behaves :
      (amount : ℕ) (set_amount : ℕ → GasMeter WS → GasMeter WS)
      → ((x : ℕ) (g : GasMeter WS) → IsMeterStep g (set_amount x g))
      → Behaves (return_amount {E = E} amount set_amount)
  unfolding return_amount
  return_amount-Behaves amount set_amount h = search (command_rules, store_amount_step, h) depth 20

  cap_at-Behaves :
      (operator owner : PublicAddress) (balance power : ℕ) (pool_power : Option ℕ)
      → Behaves (cap_at {WS = WS} {E = E} operator owner balance power pool_power)
  unfolding cap_at
  cap_at-Behaves operator owner balance power none = search command_rules
  cap_at-Behaves operator owner balance power (some p) = search command_rules

  cap_stake_power-Behaves :
      (operator owner : PublicAddress) (balance : ℕ) (stake : Option ℕ)
      → Behaves (cap_stake_power {WS = WS} {E = E} operator owner balance stake)
  unfolding cap_stake_power
  cap_stake_power-Behaves operator owner balance none = search command_rules
  cap_stake_power-Behaves operator owner balance (some p) =
      search (command_rules, cap_at-Behaves) depth 8

  cap_stake-Behaves :
      (operator owner : PublicAddress) (balance : ℕ)
      → Behaves (cap_stake {WS = WS} {E = E} operator owner balance)
  unfolding cap_stake
  cap_stake-Behaves operator owner balance = search (command_rules, cap_stake_power-Behaves)

  pub withdraw_deposit-Behaves :
      (owner operator : PublicAddress) (max_amount : ℕ)
      → Behaves (withdraw_deposit {WS = WS} {E = E} owner operator max_amount)
  unfolding withdraw_deposit
  withdraw_deposit-Behaves owner operator max_amount =
      search
        (
          command_rules, locked_power-Behaves, cap_stake-Behaves, return_amount-Behaves,
          IsMeterStep-command_output_set_amount_withdrawn,
        )
        depth 30

  pub stake_deposit-Behaves :
      (owner operator : PublicAddress) (max_amount : ℕ)
      → Behaves (stake_deposit {WS = WS} {E = E} owner operator max_amount)
  unfolding stake_deposit
  stake_deposit-Behaves owner operator max_amount =
      search (command_rules, return_amount-Behaves, IsMeterStep-command_output_set_amount_staked)
        depth 30

  unstake-Behaves :
      (owner operator : PublicAddress) (power max_amount : ℕ) (stake : Option ℕ)
      → Behaves (unstake {WS = WS} {E = E} operator owner power max_amount stake)
  unfolding unstake
  unstake-Behaves owner operator power max_amount none = search command_rules
  unstake-Behaves owner operator power max_amount (some p) =
      search (command_rules, return_amount-Behaves, IsMeterStep-command_output_set_amount_unstaked)

  pub unstake_deposit-Behaves :
      (owner operator : PublicAddress) (max_amount : ℕ)
      → Behaves (unstake_deposit {WS = WS} {E = E} owner operator max_amount)
  unfolding unstake_deposit
  unstake_deposit-Behaves owner operator max_amount =
      search (command_rules, unstake-Behaves) depth 30
