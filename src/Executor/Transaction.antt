-- ===== src/Executor/Transaction.antt =====
-- A whole transaction, from the world state it starts with to the one it leaves and its receipt.
use pchain_runtime.Prelude.{
  ℕ, ◌+◌, ◌-◌, ◌*◌, ◌≤◌, ◌≡◌, ◌≢◌, refl, sym, ap, subst, ◌∙◌, none, some, List, [], map, length,
  length-map, max, arith, nat_eq,
}
use pchain_runtime.Word.{u64_max}
use pchain_runtime.Error.{TransitionError, Result, ok, err, panic}
use pchain_runtime.Types.{PublicAddress, Command, command_kind, TxnMetadata, BlockchainParams}
use pchain_runtime.Types.Receipt.{ReceiptV2, CommandReceiptV2}
use pchain_runtime.HashMap
use pchain_runtime.Cache.Data
use pchain_runtime.Cache.World
use pchain_runtime.Cache.World.{WorldState, WorldStateCache}
use pchain_runtime.Cache.World.Interface.{WorldStateLaws}
use pchain_runtime.Cache.World.Laws.{pending, seen_balance, IsValid, new-IsValid}
use pchain_runtime.Cache.Receipt.{ReceiptFormat, format_v2}
use pchain_runtime.Cache.Receipt.Laws.{into_receipt_v2-length, into_receipt_v2_panics}
use pchain_runtime.Gas.Meter
use pchain_runtime.Gas.Meter.Laws.{IsWithinLimit}
use pchain_runtime.State.{ExecutionState, new_state, new_context, finalize_receipt}
use pchain_runtime.Execution.Behaves.{cache_of, IsReverted}
use pchain_runtime.Network.{NetworkAccount}
use pchain_runtime.Phases.{pre_charge, pre_charge_signer, set_pre_charged, pre_charged_balance}
use pchain_runtime.Phases.Charge.{settled_from}
use pchain_runtime.Executor.{Contracts, Transition, handle_precharge_error, without_receipt}
use pchain_runtime.Executor.Order.{run_all, conclude, outcome_of}
use pchain_runtime.Executor.Run.{run_all-Keeps}
use pchain_runtime.Executor.Frame.{ContractsLaws, Counted, least_receipts}
use pchain_runtime.Executor.Settlement.{conclude-IsSettled}

new_ws : {V : Type 0} (ws : V) → (World.new ws).ws ≡ ws
unfolding World.new
new_ws ws = refl

module _ {WS : Type 0} ⦃t : WorldState WS⦄ where
  -- The world state after the pre-charge: the signer has paid for all the gas it may use.
  abbrev pub pre_charged_ws : TxnMetadata → BlockchainParams → WS → WS
  pre_charged_ws meta bd ws =
      t.set_balance ws meta.signer
        (t.balance ws meta.signer - meta.gas_limit * (bd.this_base_fee + meta.priority_fee_per_gas))

  seen_balance-new :
      (c : WorldStateCache WS) (ws : WS)
      → c ≡ World.new c.ws
      → c.ws ≡ ws
      → seen_balance (pending c) ≡ t.balance ws
  unfolding World.new HashMap.get Data.empty
  seen_balance-new c ws h e =
      ap (λ (d : WorldStateCache WS). seen_balance (pending d)) h ∙ ap t.balance e

module _ {WS E : Type 0} ⦃t : WorldState WS⦄ where
  -- The state that a transaction is executed in (src/transition.rs).
  abbrev pub start : TxnMetadata → BlockchainParams → WS → ExecutionState WS E
  start meta bd ws = new_state meta bd (new_context meta.version ws meta.gas_limit)

  -- The state after a successful pre-charge.
  record IsStarted (meta : TxnMetadata) (bd : BlockchainParams) (ws : WS) (s : ExecutionState WS E)
      : Type 0 where
    pub cache : cache_of s ≡ World.new (pre_charged_ws meta bd ws)
    pub txn_meta : s.txn_meta ≡ meta
    pub gas_limit : s.ctx.gas_meter.gas_limit ≡ meta.gas_limit
    pub receipt : s.receipt ≡ []
    pub limit : IsWithinLimit s.ctx.gas_meter

  pre_charge-IsStarted :
      (meta : TxnMetadata) (bd : BlockchainParams) (ws : WS) {s : ExecutionState WS E}
      → meta.gas_limit ≤ u64_max
      → pre_charge (start meta bd ws) ≡ (ok tt, s)
      → IsStarted meta bd ws s
  unfolding pre_charge new_state new_context Meter.new Meter.charge_txn_pre_exec_inclusion
      pre_charge_signer set_pre_charged pre_charged_balance World.new
  pre_charge-IsStarted meta bd ws h e = record {
    cache = ground arith;
    txn_meta = ground arith;
    gas_limit = ground arith;
    receipt = ground arith;
    limit = record { fits = ground arith; limit = ground arith };
  }

module _ {WS E R : Type 0} (format : ReceiptFormat E R) ⦃t : WorldState WS⦄ ⦃net : NetworkAccount⦄
    (contracts : Contracts WS E) (contract_laws : ContractsLaws contracts) where
  run_started :
      (meta : TxnMetadata) (bd : BlockchainParams) (ws : WS) (cs : List Command)
      {s : ExecutionState WS E}
      → IsStarted meta bd ws s
      → let out = run_all format contracts cs 0 s in
        IsValid (cache_of out.1)
        × IsWithinLimit out.1.ctx.gas_meter
        × (out.1.txn_meta ≡ meta)
        × (out.1.ctx.gas_meter.gas_limit ≡ meta.gas_limit)
        × ((cache_of out.1).ws ≡ pre_charged_ws meta bd ws)
        × Counted (least_receipts cs) (length cs) out.0 0 (length out.1.receipt)
  run_started meta bd ws cs {s} h =
      let k = run_all-Keeps format contracts contract_laws cs 0 s in
      (
        k.frame.valid (rw h.cache (new-IsValid (pre_charged_ws meta bd ws))),
        k.frame.limit h.limit,
        k.frame.txn_meta ∙ h.txn_meta,
        k.frame.gas_limit ∙ h.gas_limit,
        k.frame.ws
            ∙ ap (λ (c : WorldStateCache WS). c.ws) h.cache
            ∙ new_ws (pre_charged_ws meta bd ws),
        subst
            (λ n.
              Counted (least_receipts cs) (length cs) (run_all format contracts cs 0 s).0 n
                (length (run_all format contracts cs 0 s).1.receipt))
            (ap length h.receipt) k.receipts,
      )

  -- If a command fails in a transaction whose gas limit is a `u64` and whose pre-charge succeeded,
  -- over a world state that meets the laws and with contract commands that meet theirs, and the
  -- transaction ends without a panic, the new world state has every balance as the pre-charge left
  -- it, plus the refund, the tip and the treasury's cut.
  pub failed_balance :
      WorldStateLaws WS
      → (meta : TxnMetadata) (bd : BlockchainParams) (ws : WS) (cs : List Command)
        (s : ExecutionState WS E) {s' : ExecutionState WS E} {error : TransitionError}
        {tr : Transition WS R}
      → meta.gas_limit ≤ u64_max
      → pre_charge (start meta bd ws) ≡ (ok tt, s)
      → run_all format contracts cs 0 s ≡ (err error, s')
      → outcome_of format contracts cs (pre_charge (start meta bd ws)) ≡ some tr
      → (j : PublicAddress)
      → t.balance tr.new_state j ≡ settled_from (t.balance (pre_charged_ws meta bd ws)) s' j
  failed_balance laws meta bd ws cs s {s'} {error} {tr} h p e f j =
      let started = pre_charge-IsStarted meta bd ws h p in
      let (valid, _, _, _, below, _) = run_started meta bd ws cs started in
      let concluded =
        subst (λ x. conclude format x ≡ some tr) e
          (subst (λ x. outcome_of format contracts cs x ≡ some tr) p f) in
      let settled =
        conclude-IsSettled laws format (err error, s') (subst (λ x. IsValid (cache_of x.1)) e valid)
          concluded in
      let reverted =
        subst (λ x. IsReverted x.0 x.1) e
          (run_all-Keeps format contracts contract_laws cs 0 s).reverted in
      let ws' = subst (λ x. (cache_of x.1).ws ≡ pre_charged_ws meta bd ws) e below in
      settled.balance j
      ∙ ap (λ b. settled_from b s' j)
          (seen_balance-new (cache_of s') (pre_charged_ws meta bd ws) reverted ws')

-- The receipt of a transaction that was executed has one command receipt for each command, whether it
-- succeeded, failed or was not reached, and no more gas than the limit.
module _ {WS : Type 0} ⦃t : WorldState WS⦄ ⦃net : NetworkAccount⦄
    (contracts : Contracts WS CommandReceiptV2) (contract_laws : ContractsLaws contracts) where
  Counted-max :
      {A : Type 0} (r : Result A) (least most after : ℕ)
      → r ≢ panic
      → Counted least most r 0 after
      → max after most ≡ most
  Counted-max (ok _) least most after h c = omega arith
  Counted-max (err _) least most after h c = omega arith
  Counted-max panic least most after h c = absurd (h refl)

  conclude_not_panic :
      (out : Result (Unit {0}) × ExecutionState WS CommandReceiptV2) {tr : Transition WS ReceiptV2}
      → conclude format_v2 out ≡ some tr
      → out.0 ≢ panic
  conclude_not_panic (ok _, s) e h = cc
  conclude_not_panic (err error, s) e h = cc
  conclude_not_panic (panic, s) e h = cc

  -- A V2 transaction, over a world state and with contract commands that meet their laws, whose gas
  -- limit is a `u64`, whose pre-charge succeeded and which ended without a panic has a receipt with
  -- exactly one command receipt for each command and no more gas than the limit.
  pub receipt_v2_lem :
      WorldStateLaws WS
      → (meta : TxnMetadata) (bd : BlockchainParams) (ws : WS) (cs : List Command)
        (s : ExecutionState WS CommandReceiptV2) {tr : Transition WS ReceiptV2}
      → meta.gas_limit ≤ u64_max
      → meta.command_kinds ≡ map command_kind cs
      → pre_charge (start meta bd ws) ≡ (ok tt, s)
      → outcome_of format_v2 contracts cs (pre_charge (start meta bd ws)) ≡ some tr
      → (r : ReceiptV2) × (tr.receipt ≡ some r)
        × (length r.command_receipts ≡ length cs)
        × (r.gas_used ≤ meta.gas_limit)
  unfolding Meter.total_gas_used_for_executed_commands
  receipt_v2_lem laws meta bd ws cs s {tr} h kinds p f =
      let started = pre_charge-IsStarted meta bd ws h p in
      let out = run_all format_v2 contracts cs 0 s in
      let (valid, limit, same, gas, _, counted) =
        run_started format_v2 contracts contract_laws meta bd ws cs started in
      let concluded = subst (λ x. outcome_of format_v2 contracts cs x ≡ some tr) p f in
      let settled = conclude-IsSettled laws format_v2 out valid concluded in
      let (r, shown, made) = settled.receipt in
      let (used, len) =
        into_receipt_v2-length out.1.receipt
          (Meter.total_gas_used_for_executed_commands out.1.ctx.gas_meter)
          out.1.txn_meta.command_kinds made in
      let most = Counted-max out.0 _ _ _ (conclude_not_panic out concluded) counted in
      (
        r,
        shown,
        omega (
          arith,
          len,
          most,
          length-map command_kind cs,
          ap length (ap (λ (m : TxnMetadata). m.command_kinds) same ∙ kinds),
        ),
        omega (arith, used, limit.fits, gas),
      )

  failed-start :
      (meta : TxnMetadata) (bd : BlockchainParams) (ws : WS)
      {s : ExecutionState WS CommandReceiptV2} {error : TransitionError}
      → pre_charge (start meta bd ws) ≡ (err error, s)
      → (s.receipt ≡ []) × (s.txn_meta ≡ meta)
  unfolding pre_charge new_state new_context Meter.new Meter.charge_txn_pre_exec_inclusion
      pre_charge_signer set_pre_charged pre_charged_balance World.new
  failed-start meta bd ws e = (ground arith, ground arith)

  finalize_receipt_panics :
      (s : ExecutionState WS CommandReceiptV2)
      → s.receipt ≡ []
      → s.txn_meta.command_kinds ≢ []
      → finalize_receipt format_v2 s ≡ none
  unfolding finalize_receipt
  finalize_receipt_panics s e h =
      let none_made =
        (into_receipt_v2_panics s.receipt
            (Meter.total_gas_used_for_executed_commands s.ctx.gas_meter) s.txn_meta.command_kinds).1
          (e, h) in
      rw (none_made, finalize_receipt) refl

  -- A V2 transaction with at least one command panics whenever its pre-charge fails: no receipt is
  -- returned, and no error.
  pub failed_pre_charge_panics :
      (meta : TxnMetadata) (bd : BlockchainParams) (ws : WS) (cs : List Command)
      {s : ExecutionState WS CommandReceiptV2} {error : TransitionError}
      → meta.command_kinds ≢ []
      → pre_charge (start meta bd ws) ≡ (err error, s)
      → outcome_of format_v2 contracts cs (pre_charge (start meta bd ws)) ≡ none
  unfolding handle_precharge_error
  failed_pre_charge_panics meta bd ws cs {s} {error} h p =
      let (receipt, same) = failed-start meta bd ws p in
      ap (outcome_of format_v2 contracts cs) p
      ∙ ap (without_receipt error)
          (finalize_receipt_panics s receipt (subst (λ m. m.command_kinds ≢ []) (sym same) h))
