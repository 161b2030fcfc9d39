-- ===== src/Executor/Run.antt =====
-- What each command keeps, and all of them.
use pchain_runtime.Prelude.{
  ℕ, ◌+◌, ◌≡◌, sym, ap, subst, ◌∙◌, false, none, some, List, [], ◌∷◌, length, arith,
}
use pchain_runtime.Error.{Result, ok, err, panic}
use pchain_runtime.Types.{PublicAddress, Command, DeferredCommand}
use pchain_runtime.Cache.World
use pchain_runtime.Cache.World.{WorldState}
use pchain_runtime.Cache.World.Laws.{IsValid}
use pchain_runtime.Cache.Receipt.{ReceiptFormat}
use pchain_runtime.Gas.Meter.Laws.{IsWithinLimit}
use pchain_runtime.State.{ExecutionState}
use pchain_runtime.Execution.{pure, continue, ◌>>=◌, ◌>>◌}
use pchain_runtime.Execution.Behaves.{
  Behaves, SameCounters, IsFrame, IsReverted, cache_of, Behaves-unwrap_failed,
}
use pchain_runtime.Network.{NetworkAccount}
use pchain_runtime.Commands.Behaves.{
  transfer-Behaves, create_pool-Behaves, set_pool_settings-Behaves, delete_pool-Behaves,
  create_deposit-Behaves, set_deposit_settings-Behaves, topup_deposit-Behaves,
  withdraw_deposit-Behaves, stake_deposit-Behaves, unstake_deposit-Behaves,
}
use pchain_runtime.Executor.{
  Contracts, ExecutableCommand, transaction_command, deferred_command, execute, kind_of,
  consume_and_execute, finish_command, run_command,
}
use pchain_runtime.Executor.Order.{run_deferred, run_all, to_list}
use pchain_runtime.Executor.Frame.{
  IsTxnFrame-refl, IsTxnFrame-trans, IsFrame-IsTxnFrame, receipts_of, least_receipts, Counted,
  Keeps, Keeps-least, continue-Keeps, ContractsLaws, handle_command_execution_result_lem,
}

module _ {WS E R : Type 0} (format : ReceiptFormat E R) ⦃t : WorldState WS⦄ ⦃net : NetworkAccount⦄
    (contracts : Contracts WS E) (laws : ContractsLaws contracts) where
  -- Every command, sent or deferred, of an account or of staking, runs on the cache alone, and an
  -- error has dropped every pending change of the transaction.
  pub execute-Behaves :
      (i : ℕ) (actor : PublicAddress) (c : Command) → Behaves (execute contracts i actor c)
  unfolding execute
  execute-Behaves i actor (Command.transfer recipient amount) = transfer-Behaves recipient amount
  execute-Behaves i actor (Command.deploy contract cbi_version) =
      laws.deploy-Behaves i contract cbi_version
  execute-Behaves i actor (Command.call target method arguments amount) =
      laws.call-Behaves false target method arguments amount
  execute-Behaves i actor (Command.create_pool rate) = create_pool-Behaves actor rate
  execute-Behaves i actor (Command.set_pool_settings rate) = set_pool_settings-Behaves actor rate
  execute-Behaves i actor Command.delete_pool = delete_pool-Behaves actor
  execute-Behaves i actor (Command.create_deposit operator balance auto) =
      create_deposit-Behaves actor operator balance auto
  execute-Behaves i actor (Command.set_deposit_settings operator auto) =
      set_deposit_settings-Behaves actor operator auto
  execute-Behaves i actor (Command.top_up_deposit operator amount) =
      topup_deposit-Behaves actor operator amount
  execute-Behaves i actor (Command.withdraw_deposit operator max_amount) =
      withdraw_deposit-Behaves actor operator max_amount
  execute-Behaves i actor (Command.stake_deposit operator max_amount) =
      stake_deposit-Behaves actor operator max_amount
  execute-Behaves i actor (Command.unstake_deposit operator max_amount) =
      unstake_deposit-Behaves actor operator max_amount
  execute-Behaves i actor Command.next_epoch = Behaves-unwrap_failed

  finish_command-Keeps :
      (c : ExecutableCommand) (s u : ExecutionState WS E) (r : Result (Unit {0}))
      → IsFrame s u
      → IsReverted r u
      → Keeps (receipts_of c) (receipts_of c) s (finish_command format c r u)
  unfolding finish_command
  finish_command-Keeps c s u (ok _) p e =
      let (frame, _, receipts) = handle_command_execution_result_lem format (kind_of c) none c u in
      record {
        frame = IsTxnFrame-trans (IsFrame-IsTxnFrame p) frame;
        reverted = tt;
        receipts = receipts ∙ ap (λ xs. length xs + receipts_of c) p.receipt;
      }
  finish_command-Keeps c s u (err error) p e =
      let (frame, same, receipts) =
        handle_command_execution_result_lem format (kind_of c) (some error) c u in
      let counted = receipts ∙ ap (λ xs. length xs + receipts_of c) p.receipt in
      record {
        frame = IsTxnFrame-trans (IsFrame-IsTxnFrame p) frame;
        reverted = same ∙ e ∙ ap (λ x. World.new x.ws) (sym same);
        receipts = (omega (arith, counted), omega (arith, counted));
      }
  finish_command-Keeps c s u panic p e = record {
    frame = IsFrame-IsTxnFrame p;
    reverted = tt;
    receipts = tt;
  }

  run_command-Keeps :
      (c : ExecutableCommand) (i : ℕ) (s : ExecutionState WS E)
      → Keeps (receipts_of c) (receipts_of c) s (run_command format contracts c i s)
  unfolding run_command consume_and_execute
  run_command-Keeps (transaction_command c) i s =
      let b = execute-Behaves i s.txn_meta.signer c in
      finish_command-Keeps (transaction_command c) s _ _ (b.frame s) (b.reverted s)
  run_command-Keeps (deferred_command d) i s =
      let b = execute-Behaves i d.contract_address d.command in
      finish_command-Keeps (deferred_command d) s _ _ (b.frame s) (b.reverted s)

  run_deferred-Keeps :
      (ds : List DeferredCommand) (i : ℕ) (s : ExecutionState WS E)
      → Keeps 0 0 s (run_deferred format contracts ds i s)
  unfolding run_deferred pure ◌>>=◌
  run_deferred-Keeps [] i s = record {
    frame = IsTxnFrame-refl s;
    reverted = tt;
    receipts = omega arith;
  }
  run_deferred-Keeps (d ∷ ds) i s =
      let (r, u) = run_command format contracts (deferred_command d) i s in
      continue-Keeps s u r (λ _. run_deferred format contracts ds i) (omega arith)
        (run_command-Keeps (deferred_command d) i s) (λ _. run_deferred-Keeps ds i u)

  then_run_all :
      (cs : List Command) (i : ℕ) (ds : List DeferredCommand) (s : ExecutionState WS E)
      → ((u : ExecutionState WS E)
          → Keeps (least_receipts cs) (length cs) u (run_all format contracts cs i u))
      → Keeps 0
          (length cs)
          s
          ((run_deferred format contracts ds i >> run_all format contracts cs i) s)
  unfolding ◌>>=◌
  then_run_all cs i ds s ih =
      let (r, u) = run_deferred format contracts ds i s in
      subst (λ n. Keeps 0 n s (continue r (λ _. run_all format contracts cs i) u)) (omega arith)
        (continue-Keeps s u r (λ _. run_all format contracts cs i) (omega arith)
          (run_deferred-Keeps ds i s) (λ _. Keeps-least (run_all format contracts cs i u) (ih u)))

  pub run_all-Keeps :
      (cs : List Command) (i : ℕ) (s : ExecutionState WS E)
      → Keeps (least_receipts cs) (length cs) s (run_all format contracts cs i s)
  unfolding run_all pure ◌>>=◌
  run_all-Keeps [] i s = record { frame = IsTxnFrame-refl s; reverted = tt; receipts = omega arith }
  run_all-Keeps (c ∷ cs) i s =
      let (r, u) = run_command format contracts (transaction_command c) i s in
      let after = λ (ds : List DeferredCommand).
        run_deferred format contracts ds (i + 1) >> run_all format contracts cs (i + 1) in
      subst (λ n. Keeps 1 n s (continue r (λ deferred. after (to_list deferred)) u)) (omega arith)
        (continue-Keeps s u r (λ deferred. after (to_list deferred)) (omega arith)
          (run_command-Keeps (transaction_command c) i s)
          (λ deferred. then_run_all cs (i + 1) (to_list deferred) u (run_all-Keeps cs (i + 1))))

  -- Whatever a single command does and however it ends, over a coherent cache: the cache stays
  -- coherent, the world state below it and the gas counted before are untouched, and after an error
  -- no pending change is left.
  pub execute_keeps :
      (i : ℕ) (actor : PublicAddress) (c : Command) (s : ExecutionState WS E)
      → IsValid (cache_of s)
      → let (r, s') = execute contracts i actor c s in
        IsValid (cache_of s')
        × ((cache_of s').ws ≡ (cache_of s).ws)
        × SameCounters s.ctx.gas_meter s'.ctx.gas_meter
        × IsReverted r s'
  execute_keeps i actor c s h =
      let b = execute-Behaves i actor c in
      let p = b.frame s in (p.meter.valid h, p.meter.same.ws, p.meter.same, b.reverted s)

  -- All the commands of a transaction, over a coherent cache and a meter within its limit: both
  -- stay so, nothing is written to the world state below the cache, after an error no pending
  -- change is left, and a success adds exactly one receipt for each command, a failure at most that
  -- many and at least one.
  pub run_all_keeps :
      (cs : List Command) (i : ℕ) (s : ExecutionState WS E)
      → IsValid (cache_of s)
      → IsWithinLimit s.ctx.gas_meter
      → let (r, s') = run_all format contracts cs i s in
        IsValid (cache_of s')
        × IsWithinLimit s'.ctx.gas_meter
        × ((cache_of s').ws ≡ (cache_of s).ws)
        × IsReverted r s'
        × Counted (least_receipts cs) (length cs) r (length s.receipt) (length s'.receipt)
  run_all_keeps cs i s h l =
      let k = run_all-Keeps cs i s in
      (k.frame.valid h, k.frame.limit l, k.frame.ws, k.reverted, k.receipts)
