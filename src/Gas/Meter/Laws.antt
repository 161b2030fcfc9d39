-- ===== src/Gas/Meter/Laws.antt =====
-- The gas meter never counts more than the gas limit, and its operations charge gas without touching
-- what the world state cache shows, but for what they write.
use pchain_runtime.Prelude.{
  ℕ, ◌+◌, ◌≤◌, ◌<◌, ◌≡◌, min, refl, List, arith, ◌==◌, nat_eq, if◌then◌else◌,
}
use pchain_runtime.Word.{u64_max}
use pchain_runtime.Error.{ok, err, pre_execution_gas_exhausted}
use pchain_runtime.Types.{PublicAddress, TxnVersion, CommandKind}
use pchain_runtime.Cache.World
use pchain_runtime.Cache.World.{WorldState, WorldStateCache}
use pchain_runtime.Cache.World.Laws.{
  pending, seen_balance, IsValid, pending-balance, balance-seen, balance-IsValid,
  set_balance-IsValid, seen_balance-set_balance,
}
use pchain_runtime.Gas.Meter.{
  GasMeter, new, tx_inclusion_cost, total_gas_used, total_gas_used_for_executed_commands,
  take_current_command_result, charge_txn_pre_exec_inclusion, ws_balance, ws_set_balance,
}

module _ {WS : Type 0} where
  -- The gas counted for inclusion and for finished commands stays within the limit.
  pub record IsWithinLimit (g : GasMeter WS) : Type 0 where
    pub fits : g.gas_used_for_txn_inclusion + g.total_gas_used_for_executed_commands ≤ g.gas_limit
    pub limit : g.gas_limit ≤ u64_max

  -- A new meter is charged for the inclusion exactly if the gas limit covers it: then it is within
  -- its limit and has counted the cost, else it is unchanged and the error is returned.
  pub charge_txn_pre_exec_inclusion_lem :
      (version : TxnVersion) (size : ℕ) (kinds : List CommandKind) (cache : WorldStateCache WS)
      (gas_limit : ℕ)
      → gas_limit ≤ u64_max
      → let cost = tx_inclusion_cost version size kinds in
        let g = new version cache gas_limit in
        let (result, g') = charge_txn_pre_exec_inclusion version size kinds g in
        (cost ≤ gas_limit
          → (result ≡ ok tt) × IsWithinLimit g' × (total_gas_used_for_executed_commands g' ≡ cost))
        × (gas_limit < cost → (result ≡ err pre_execution_gas_exhausted) × (g' ≡ g))
  unfolding charge_txn_pre_exec_inclusion new total_gas_used_for_executed_commands
  charge_txn_pre_exec_inclusion_lem version size kinds cache gas_limit h =
      (λ c. ground arith, λ c. ground arith)

  -- Finishing a command on a meter within its limit moves its gas to the total, clamped: the meter
  -- stays within the limit, the total is then the theoretical one or the limit, whichever is less,
  -- and the receipt shows by how much it grew.
  pub take_current_command_result_lem :
      (g : GasMeter WS)
      → IsWithinLimit g
      → let (result, g') = take_current_command_result g in
        IsWithinLimit g'
        × (total_gas_used_for_executed_commands g' ≡ min (total_gas_used g) g.gas_limit)
        × (total_gas_used_for_executed_commands g'
            ≡ total_gas_used_for_executed_commands g + result.0)
        × (total_gas_used g' ≡ total_gas_used_for_executed_commands g')
  unfolding take_current_command_result total_gas_used
  take_current_command_result_lem g h = ground arith

module _ {WS : Type 0} ⦃t : WorldState WS⦄ where
  pub ws_balance-seen :
      (a : PublicAddress) (g : GasMeter WS)
      → IsValid g.ws_cache
      → (ws_balance a g).0 ≡ seen_balance (pending g.ws_cache) a
  unfolding ws_balance
  ws_balance-seen a g h = balance-seen a g.ws_cache h

  pub pending-ws_balance :
      (a : PublicAddress) (g : GasMeter WS)
      → pending (ws_balance a g).1.ws_cache ≡ pending g.ws_cache
  unfolding ws_balance
  pending-ws_balance a g = pending-balance a g.ws_cache

  pub seen-ws_set_balance :
      (a : PublicAddress) (b : ℕ) (g : GasMeter WS) (j : PublicAddress)
      → seen_balance (pending (ws_set_balance a b g).ws_cache) j
        ≡ (if a == j then b else seen_balance (pending g.ws_cache) j)
  unfolding ws_set_balance
  seen-ws_set_balance a b g j =
      rw (seen_balance-set_balance a b (World.balance a g.ws_cache).1 j)
        (rw (pending-balance a g.ws_cache) refl)

  pub ws_balance-IsValid :
      (a : PublicAddress) (g : GasMeter WS)
      → IsValid g.ws_cache
      → IsValid (ws_balance a g).1.ws_cache
  unfolding ws_balance
  ws_balance-IsValid a g h = balance-IsValid a h

  pub ws_set_balance-IsValid :
      (a : PublicAddress) (b : ℕ) (g : GasMeter WS)
      → IsValid g.ws_cache
      → IsValid (ws_set_balance a b g).ws_cache
  unfolding ws_set_balance
  ws_set_balance-IsValid a b g h = set_balance-IsValid a b (balance-IsValid a h)
