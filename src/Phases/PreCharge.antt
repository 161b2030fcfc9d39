-- ===== src/Phases/PreCharge.antt =====
-- The pre-charge phase, on every outcome.
use pchain_runtime.Prelude.{ℕ, ◌+◌, ◌-◌, ◌*◌, ◌≤◌, ◌<◌, ◌≡◌, ◌≢◌, ◌⊎◌, arith, nat_eq}
use pchain_runtime.Word.{u64_max}
use pchain_runtime.Error.{
  Result, ok, err, panic, wrong_nonce, not_enough_balance_for_gas_limit,
  pre_execution_gas_exhausted,
}
use pchain_runtime.Cache.World.{WorldState}
use pchain_runtime.Gas.Meter.{tx_inclusion_cost}
use pchain_runtime.State.{ExecutionState}
use pchain_runtime.Execution.Behaves.{cache_of}
use pchain_runtime.Phases.{pre_charge}

module _ {WS E : Type 0} ⦃t : WorldState WS⦄ where
  abbrev pub inclusion_cost : ExecutionState WS E → ℕ
  inclusion_cost s = tx_inclusion_cost s.txn_meta.version s.txn_meta.size s.txn_meta.command_kinds

  abbrev pub fee_per_gas : ExecutionState WS E → ℕ
  fee_per_gas s = s.bd.this_base_fee + s.txn_meta.priority_fee_per_gas

  abbrev pub signer_balance : ExecutionState WS E → ℕ
  signer_balance s = t.balance (cache_of s).ws s.txn_meta.signer

  abbrev pub signer_nonce : ExecutionState WS E → ℕ
  signer_nonce s = t.nonce (cache_of s).ws s.txn_meta.signer

  -- Everything that a successful pre-charge has checked, and what it has written.
  pub record IsPreCharged (s s' : ExecutionState WS E) : Type 0 where
    pub covered : inclusion_cost s ≤ s.ctx.gas_meter.gas_limit
    pub counted : s'.ctx.gas_meter.gas_used_for_txn_inclusion ≡ inclusion_cost s
    pub nonce : s.txn_meta.nonce ≡ signer_nonce s
    pub fits : s.txn_meta.gas_limit * fee_per_gas s ≤ u64_max
    pub fee_fits : fee_per_gas s ≤ u64_max
    pub affordable : s.txn_meta.gas_limit * fee_per_gas s ≤ signer_balance s
    pub paid :
        (cache_of s').ws
        ≡ t.set_balance
            (cache_of s).ws
            s.txn_meta.signer
            (signer_balance s - s.txn_meta.gas_limit * fee_per_gas s)

  abbrev pub PreChargeOutcome :
      ExecutionState WS E → Result (Unit {0}) × ExecutionState WS E → Type 0
  PreChargeOutcome s (ok _, s') = IsPreCharged s s'
  PreChargeOutcome s (err e, s') =
      (cache_of s' ≡ cache_of s)
      × ((e ≡ pre_execution_gas_exhausted) × (s.ctx.gas_meter.gas_limit < inclusion_cost s)
          ⊎ (e ≡ wrong_nonce) × (s.txn_meta.nonce ≢ signer_nonce s)
          ⊎ (e ≡ not_enough_balance_for_gas_limit)
            × ((u64_max < fee_per_gas s)
                ⊎ (u64_max < s.txn_meta.gas_limit * fee_per_gas s)
                ⊎ (signer_balance s < s.txn_meta.gas_limit * fee_per_gas s)))
  PreChargeOutcome s (panic, s') = ⊥

  -- The pre-charge never panics. If it succeeds, the gas limit covers the inclusion cost, the nonce
  -- is the signer's, the whole pre-charge is free of overflow and within the signer's balance, and
  -- exactly it was taken from that balance. If it fails, the cache and the world state below it are
  -- unchanged and the error names the condition that does not hold.
  pub pre_charge_lem : (s : ExecutionState WS E) → PreChargeOutcome s (pre_charge s)
  unfolding pre_charge
  pre_charge_lem s = ground arith

  -- The conditions under which it succeeds.
  pub pre_charge_ok :
      (s : ExecutionState WS E)
      → inclusion_cost s ≤ s.ctx.gas_meter.gas_limit
      → s.txn_meta.nonce ≡ signer_nonce s
      → fee_per_gas s ≤ u64_max
      → s.txn_meta.gas_limit * fee_per_gas s ≤ u64_max
      → s.txn_meta.gas_limit * fee_per_gas s ≤ signer_balance s
      → pre_charge s ≡ (ok tt, (pre_charge s).1)
  unfolding pre_charge
  pre_charge_ok s covered counted fee_fits fits affordable = ground arith
