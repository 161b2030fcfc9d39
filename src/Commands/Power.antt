-- ===== src/Commands/Power.antt =====
-- The helpers of src/commands/staking.rs that change the power of a stake, of its pool, and the
-- pool's place in the next validator set. They run on any `NetworkAccountStorage`.
use pchain_runtime.Prelude.{
  ℕ, ◌-◌, Bool, true, false, Option, none, some, ltb, leb, nat_beq, if◌then◌else◌,
}
use pchain_runtime.Word.{saturating_add, saturating_sub}
use pchain_runtime.Types.{PublicAddress}
use pchain_runtime.Network.{StorageProgram, done, ◌>>=◌, ◌>>◌, NetworkAccount, Stake, PoolKey}

-- `Some(Some(stake)) => Some(stake.power), _ => None`
abbrev pub operator_power : Option (Option Stake) → Option ℕ
operator_power (some (some stake)) = some stake.power
operator_power (some none) = none
operator_power none = none

abbrev pub stake_power_of : Option Stake → Option ℕ
stake_power_of none = none
stake_power_of (some stake) = some stake.power

-- `unwrap_or(0)` and `map_or(0, |s| s.power)`
abbrev pub or_0 : Option ℕ → ℕ
or_0 none = 0
or_0 (some p) = p

module _ ⦃net : NetworkAccount⦄ where
  unfoldable pub stake_of_pool : PublicAddress → PublicAddress → StorageProgram (Option ℕ)
  unfolding ◌>>=◌
  stake_of_pool operator owner =
      if nat_beq operator owner
      then (net.pool_operator_stake operator >>= λ s. done (operator_power s))
      else (net.stakes_get_by operator owner >>= λ s. done (stake_power_of s))

  -- The stake is removed if no more than the amount is left of it.
  unfoldable pub reduce_stake : PublicAddress → PublicAddress → ℕ → ℕ → StorageProgram ℕ
  unfolding ◌>>=◌
  reduce_stake operator owner stake_power reduce_amount =
      if leb stake_power reduce_amount
      then (if nat_beq operator owner
          then net.pool_set_operator_stake operator none
          else net.stakes_remove_item operator owner)
        >> done stake_power
      else let new_state : Stake = record { owner = owner; power = stake_power - reduce_amount } in
        (if nat_beq operator owner
          then net.pool_set_operator_stake operator (some new_state)
          else net.stakes_change_key operator new_state)
        >> done reduce_amount

  unfoldable pub move_reduced_pool : PublicAddress → ℕ → Option PoolKey → StorageProgram (Unit {0})
  move_reduced_pool operator new_pool_power (some pool_key) =
      if nat_beq new_pool_power 0
      then net.nvp_remove_item operator
      else net.nvp_change_key (record pool_key { power = new_pool_power })
  move_reduced_pool operator new_pool_power none =
      if ltb 0 new_pool_power
      then net.nvp_insert_extract (record { operator = operator; power = new_pool_power })
        >> done tt
      else done tt

  unfoldable pub reduce_stake_power : PublicAddress → ℕ → PublicAddress → ℕ → ℕ → StorageProgram ℕ
  unfolding reduce_stake move_reduced_pool
  reduce_stake_power operator pool_power owner stake_power reduce_amount = do
    amount_unstaked ← reduce_stake operator owner stake_power reduce_amount
    let new_pool_power = saturating_sub pool_power amount_unstaked
    net.pool_set_power operator new_pool_power
    pool_key ← net.nvp_get_by operator
    move_reduced_pool operator new_pool_power pool_key
    done amount_unstaked

  -- What the pool gains by a new delegated stake, or `none` for the `Err` of the insertion.
  abbrev power_added : Bool → ℕ → Option (Option Stake) → Option ℕ
  power_added exit_on_insert_fail increase (some (some replaced)) =
      some (saturating_sub increase replaced.power)
  power_added exit_on_insert_fail increase (some none) = some increase
  power_added exit_on_insert_fail increase none =
      if exit_on_insert_fail then none else some increase

  unfoldable pub increase_stake :
      PublicAddress → PublicAddress → Option ℕ → ℕ → Bool → StorageProgram (Option ℕ)
  unfolding ◌>>=◌
  increase_stake operator owner stake_power increase exit_on_insert_fail =
      if nat_beq operator owner
      then (net.pool_set_operator_stake operator
            (some (record { owner = operator; power = saturating_add (or_0 stake_power) increase }))
          >> done (some increase))
      else elim stake_power [
        | some power ↦
            net.stakes_change_key operator
              (record { owner = owner; power = saturating_add power increase })
            >> done (some increase)
        | none ↦
            net.stakes_insert_extract operator (record { owner = owner; power = increase })
            >>= λ result. done (power_added exit_on_insert_fail increase result)
      ]

  unfoldable pub move_increased_pool :
      PublicAddress → ℕ → Option PoolKey → StorageProgram (Unit {0})
  move_increased_pool operator new_pool_power (some pool_key) =
      net.nvp_change_key (record pool_key { power = new_pool_power })
  move_increased_pool operator new_pool_power none =
      net.nvp_insert_extract (record { operator = operator; power = new_pool_power }) >> done tt

  -- `false` is the code's `Err(())`.
  unfoldable pub increase_pool : PublicAddress → ℕ → Option ℕ → StorageProgram Bool
  unfolding move_increased_pool ◌>>=◌
  increase_pool operator pool_power none = done false
  increase_pool operator pool_power (some power_to_add) = do
    let new_pool_power = saturating_add pool_power power_to_add
    net.pool_set_power operator new_pool_power
    pool_key ← net.nvp_get_by operator
    move_increased_pool operator new_pool_power pool_key
    done true

  unfoldable pub increase_stake_power :
      PublicAddress → ℕ → PublicAddress → Option ℕ → ℕ → Bool → StorageProgram Bool
  unfolding increase_stake increase_pool
  increase_stake_power operator pool_power owner stake_power increase exit_on_insert_fail = do
    power_to_add ← increase_stake operator owner stake_power increase exit_on_insert_fail
    increase_pool operator pool_power power_to_add
