-- ===== src/Phases.antt =====
-- The phases of a transaction before and after its commands: src/execution/execute_commands/phases.rs.
pub mod PreCharge
pub mod Charge
use pchain_runtime.Prelude.{ℕ, ◌/◌, min, Option, none, some, not, nat_beq, nat_eq, if◌then◌else◌}
use pchain_runtime.Word.{
  saturating_add, saturating_sub, checked_add, checked_sub, checked_mul, ◌>>=◌,
}
use pchain_runtime.Error.{Result, ok, err, panic, wrong_nonce, not_enough_balance_for_gas_limit}
use pchain_runtime.Cache.World
use pchain_runtime.Cache.World.{WorldState, WorldStateCache}
use pchain_runtime.Gas.Meter
use pchain_runtime.State.{ExecutionState}
use pchain_runtime.Execution.{Execution}

-- rewards_formulas.rs
abbrev pub treasury_cut_of_base_fee_num : ℕ
treasury_cut_of_base_fee_num = 20

abbrev pub treasury_cut_of_base_fee_denom : ℕ
treasury_cut_of_base_fee_denom = 100

-- `origin_balance - gas_limit * (base_fee + priority_fee)`, `none` for an overflow or a short balance.
unfoldable pub pre_charged_balance : ℕ → ℕ → ℕ → ℕ → Option ℕ
pre_charged_balance origin_balance gas_limit base_fee priority_fee = do
  fee ← checked_add base_fee priority_fee
  pre_charge ← checked_mul gas_limit fee
  checked_sub origin_balance pre_charge

abbrev pub set_cache :
    {WS E : Type 0} → WorldStateCache WS → ExecutionState WS E → ExecutionState WS E
set_cache c s = record s {
  ctx = record s.ctx { gas_meter = record s.ctx.gas_meter { ws_cache = c } };
}

pub record NewBalances : Type 0 where
  pub signer : ℕ
  pub proposer : ℕ
  pub treasury : ℕ

module _ {WS E : Type 0} ⦃t : WorldState WS⦄ where
  unfoldable pub set_pre_charged : Option ℕ → Execution WS E (Unit {0})
  set_pre_charged none s = (err not_enough_balance_for_gas_limit, s)
  set_pre_charged (some balance) s =
      let cache = s.ctx.gas_meter.ws_cache in
      (ok tt, set_cache (record cache { ws = t.set_balance cache.ws s.txn_meta.signer balance }) s)

  unfoldable pub pre_charge_signer : Result (Unit {0}) → Execution WS E (Unit {0})
  unfolding set_pre_charged pre_charged_balance
  pre_charge_signer (ok _) s =
      let ws = s.ctx.gas_meter.ws_cache.ws in
      if not (nat_beq s.txn_meta.nonce (t.nonce ws s.txn_meta.signer))
      then (err wrong_nonce, s)
      else set_pre_charged
          (pre_charged_balance (t.balance ws s.txn_meta.signer) s.txn_meta.gas_limit
            s.bd.this_base_fee s.txn_meta.priority_fee_per_gas)
          s
  pre_charge_signer (err e) s = (err e, s)
  pre_charge_signer panic s = (panic, s)

  unfoldable pub pre_charge : Execution WS E (Unit {0})
  unfolding pre_charge_signer Meter.charge_txn_pre_exec_inclusion
  pre_charge s =
      let (result, gas_meter) =
        Meter.charge_txn_pre_exec_inclusion s.txn_meta.version s.txn_meta.size
          s.txn_meta.command_kinds s.ctx.gas_meter in
      pre_charge_signer result (record s { ctx = record s.ctx { gas_meter = gas_meter } })

  -- The world state with the three balances and the signer's nonce committed.
  unfoldable pub commit_charge : ExecutionState WS E → WS → ℕ → ℕ → ℕ → WS
  commit_charge s ws new_signer new_proposer new_treasury =
      let ws₁ = t.set_balance ws s.txn_meta.signer new_signer in
      let ws₂ = t.set_balance ws₁ s.bd.proposer_address new_proposer in
      let ws₃ = t.set_balance ws₂ s.bd.treasury_address new_treasury in
      t.set_nonce ws₃ s.txn_meta.signer (saturating_add (t.nonce ws₃ s.txn_meta.signer) 1)

  abbrev pub gas_paid : ExecutionState WS E → ℕ
  gas_paid s = min (Meter.total_gas_used_for_executed_commands s.ctx.gas_meter) s.txn_meta.gas_limit

  -- The new balances, from those found for signer, proposer and treasury. `none` is the panic of an
  -- overflow.
  unfoldable pub new_balances : ExecutionState WS E → ℕ → ℕ → ℕ → Option NewBalances
  new_balances s signer_balance proposer_found treasury_found =
      let signer = s.txn_meta.signer in
      let gas_used = gas_paid s in
      let gas_unused = saturating_sub s.txn_meta.gas_limit gas_used in
      do
        fee ← checked_add s.bd.this_base_fee s.txn_meta.priority_fee_per_gas
        refund ← checked_mul gas_unused fee
        new_signer ← checked_add signer_balance refund
        tip ← checked_mul gas_used s.txn_meta.priority_fee_per_gas
        let proposer_balance =
            if nat_beq signer s.bd.proposer_address then new_signer else proposer_found
        let new_proposer = saturating_add proposer_balance tip
        burnt ← checked_mul gas_used s.bd.this_base_fee
        cut ← checked_mul burnt treasury_cut_of_base_fee_num
        let treasury_balance =
            if nat_beq s.bd.proposer_address s.bd.treasury_address
            then new_proposer
            else if nat_beq signer s.bd.treasury_address
            then new_signer
            else treasury_found
        some (record {
          signer = new_signer;
          proposer = new_proposer;
          treasury = saturating_add treasury_balance (cut / treasury_cut_of_base_fee_denom);
        })

  abbrev pub finish_charge :
      ExecutionState WS E → WorldStateCache WS → Option NewBalances → Option (ExecutionState WS E)
  finish_charge s c none = none
  finish_charge s c (some b) =
      some (set_cache (record c { ws = commit_charge s c.ws b.signer b.proposer b.treasury }) s)

  unfoldable pub charge : ExecutionState WS E → Option (ExecutionState WS E)
  charge s =
      let (signer_balance, c₁) = World.purge_balance s.txn_meta.signer s.ctx.gas_meter.ws_cache in
      let (proposer_found, c₂) = World.purge_balance s.bd.proposer_address c₁ in
      let (treasury_found, c₃) = World.purge_balance s.bd.treasury_address c₂ in
      finish_charge s c₃ (new_balances s signer_balance proposer_found treasury_found)
