-- ===== src/Executor/Settlement.antt =====
-- The world state that a transaction leaves, and its receipt.
use mathlib.Core.Option.{some_inj}
use pchain_runtime.Prelude.{◌≡◌, refl, ap, ◌∙◌, Option, none, some, arith, nat_eq}
use pchain_runtime.Error.{TransitionError, Result, ok, err, panic}
use pchain_runtime.Types.{PublicAddress, TxnMetadata}
use pchain_runtime.Cache.World
use pchain_runtime.Cache.World.{WorldState, WorldStateCache}
use pchain_runtime.Cache.World.Interface.{WorldStateLaws, Accounts}
use pchain_runtime.Cache.World.Laws.{
  pending, seen_balance, IsValid, HasUniqueWrites, IsValid-HasUniqueWrites, purge_balance-IsValid,
}
use pchain_runtime.Cache.World.Commit.{commit_to_world_state_lem}
use pchain_runtime.Cache.Receipt.{ReceiptFormat}
use pchain_runtime.Gas.Meter
use pchain_runtime.State.{ExecutionState, finalize_receipt}
use pchain_runtime.Execution.Behaves.{cache_of}
use pchain_runtime.Phases.{charge}
use pchain_runtime.Phases.Charge.{settled, seen-charge, charge_inversion}
use pchain_runtime.Executor.{
  Transition, handle_abort, handle_charge, charge_and_finalize, transition,
}
use pchain_runtime.Executor.Order.{conclude}

module _ {WS E : Type 0} ⦃t : WorldState WS⦄ (laws : WorldStateLaws WS) where
  -- What the charge phase keeps.
  pub record IsCharged (s s' : ExecutionState WS E) : Type 0 where
    pub unique : HasUniqueWrites (cache_of s')
    pub receipt : s'.receipt ≡ s.receipt
    pub txn_meta : s'.txn_meta ≡ s.txn_meta
    pub gas :
        Meter.total_gas_used_for_executed_commands s'.ctx.gas_meter
        ≡ Meter.total_gas_used_for_executed_commands s.ctx.gas_meter

  charge-IsCharged :
      (s s' : ExecutionState WS E) → IsValid (cache_of s) → charge s ≡ some s' → IsCharged s s'
  unfolding charge Meter.total_gas_used_for_executed_commands
  charge-IsCharged s s' h e =
      let c₁ = (World.purge_balance s.txn_meta.signer (cache_of s)).1 in
      let c₂ = (World.purge_balance s.bd.proposer_address c₁).1 in
      let c₃ = (World.purge_balance s.bd.treasury_address c₂).1 in
      let valid = purge_balance-IsValid s.bd.treasury_address c₂ (
        purge_balance-IsValid s.bd.proposer_address c₁
          (purge_balance-IsValid s.txn_meta.signer (cache_of s) h)) in
      let (b, made, e') = charge_inversion laws s c₃ _ e in
      let u = IsValid-HasUniqueWrites valid in
      rw (← e') (record {
        unique = record {
          balances = u.balances;
          cbi_versions = u.cbi_versions;
          contract_codes = u.contract_codes;
          storage_data = u.storage_data;
        };
        receipt = refl;
        txn_meta = refl;
        gas = refl;
      })

  finalize_receipt_inversion :
      {R : Type 0} (format : ReceiptFormat E R) (s : ExecutionState WS E) (ws : WS) (r : R)
      → finalize_receipt format s ≡ some (ws, r)
      → (ws ≡ World.commit_to_world_state (cache_of s))
        × (format.into_receipt s.receipt
              (Meter.total_gas_used_for_executed_commands s.ctx.gas_meter)
              s.txn_meta.command_kinds
            ≡ some r)
  unfolding finalize_receipt
  finalize_receipt_inversion format s ws r e = ground arith

  finalize_receipt_balance :
      {R : Type 0} (format : ReceiptFormat E R) (s : ExecutionState WS E) (ws : WS) (r : R)
      → HasUniqueWrites (cache_of s)
      → finalize_receipt format s ≡ some (ws, r)
      → (j : PublicAddress) → t.balance ws j ≡ seen_balance (pending (cache_of s)) j
  finalize_receipt_balance format s ws r u e j =
      ap (λ x. t.balance x j) (finalize_receipt_inversion format s ws r e).0
      ∙ ap (λ (v : Accounts). v.balance j) (commit_to_world_state_lem laws (cache_of s) u)

  module _ {R : Type 0} (format : ReceiptFormat E R) where
    -- The end of a transaction that has passed the pre-charge: its charge and its receipt.
    pub record IsSettled (s : ExecutionState WS E) (tr : Transition WS R) : Type 0 where
      pub balance : (j : PublicAddress) → t.balance tr.new_state j ≡ settled s j
      pub receipt :
          (r : R) × (tr.receipt ≡ some r)
          × (format.into_receipt s.receipt
                (Meter.total_gas_used_for_executed_commands s.ctx.gas_meter)
                s.txn_meta.command_kinds
              ≡ some r)

    transition-IsSettled :
        (s s' : ExecutionState WS E) (error : Option TransitionError) (o : Option (WS × R))
        {tr : Transition WS R}
        → IsValid (cache_of s)
        → charge s ≡ some s'
        → finalize_receipt format s' ≡ o
        → transition error o ≡ some tr
        → IsSettled s tr
    transition-IsSettled s s' error none h e f g = cc
    transition-IsSettled s s' error (some (ws, r)) h e f g =
        let charged = charge-IsCharged s s' h e in
        rw (← some_inj.0 g) (record {
          balance = λ j.
              finalize_receipt_balance format s' ws r charged.unique f j ∙ seen-charge laws s h e j;
          receipt = (
            r,
            refl,
            let made = (finalize_receipt_inversion format s' ws r f).1 in
                let kinds = ap (λ (m : TxnMetadata). m.command_kinds) charged.txn_meta in
                let receipt = charged.receipt in let gas = charged.gas in cc,
          );
        })

    settle-IsSettled :
        (s : ExecutionState WS E) (error : Option TransitionError)
        (o : Option (ExecutionState WS E)) {tr : Transition WS R}
        → IsValid (cache_of s)
        → charge s ≡ o
        → charge_and_finalize format error o ≡ some tr
        → IsSettled s tr
    settle-IsSettled s error none h e g = cc
    settle-IsSettled s error (some s') h e g =
        transition-IsSettled s s' error (finalize_receipt format s') h e refl g

    -- A transaction that has ended without a panic over a coherent cache, by success or by the
    -- failure of a command, leaves every account with the balance that its pending changes show,
    -- plus the refund of unused gas to the signer, the tip to the proposer and the cut of the base
    -- fee to the treasury; and its receipt is that of the receipts and the gas counted so far.
    pub conclude-IsSettled :
        (out : Result (Unit {0}) × ExecutionState WS E) {tr : Transition WS R}
        → IsValid (cache_of out.1)
        → conclude format out ≡ some tr
        → IsSettled out.1 tr
    unfolding handle_charge handle_abort
    conclude-IsSettled (ok _, s) h e = settle-IsSettled s none (charge s) h refl e
    conclude-IsSettled (err error, s) h e = settle-IsSettled s (some error) (charge s) h refl e
    conclude-IsSettled (panic, s) h e = cc
