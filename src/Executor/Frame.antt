-- ===== src/Executor/Frame.antt =====
-- What the commands of a transaction keep, from the pre-charge to the charge: the world state below
-- the cache, the gas limit, and one receipt for each command.
use pchain_runtime.Prelude.{
  ℕ, ◌+◌, ◌≤◌, ◌≡◌, refl, ◌∙◌, Bool, Option, List, [], ◌∷◌, length, length-append,
  length-update_last, arith,
}
use pchain_runtime.Error.{TransitionError, Result, ok, err, panic}
use pchain_runtime.Types.{PublicAddress, Bytes, Command, CommandKind}
use pchain_runtime.Cache.World.{WorldState}
use pchain_runtime.Cache.World.Laws.{IsValid}
use pchain_runtime.Cache.Receipt.{
  ReceiptFormat, Buffer, push_command_receipt, push_deferred_command_receipt,
}
use pchain_runtime.Gas.Meter
use pchain_runtime.Gas.Meter.Laws.{IsWithinLimit, take_current_command_result_lem}
use pchain_runtime.State.{
  ExecutionState, finalize_cmd_receipt_collect_deferred, finalize_deferred_cmd_receipt,
  complete_cmd_execution,
}
use pchain_runtime.Execution.{Execution, continue}
use pchain_runtime.Execution.Behaves.{Behaves, IsFrame, IsReverted, cache_of}
use pchain_runtime.Executor.{
  Contracts, ExecutableCommand, transaction_command, deferred_command, is_txn_sent,
  handle_command_execution_result,
}

-- The commands that run contracts keep what every other command keeps: they work on the cache
-- through the gas meter, and an error has dropped the pending changes.
pub record ContractsLaws {WS E : Type 0} ⦃t : WorldState WS⦄ (contracts : Contracts WS E)
    : Type 0 where
  pub deploy-Behaves :
      (i : ℕ) (contract : Bytes) (cbi_version : ℕ)
      → Behaves (contracts.deploy i contract cbi_version)
  pub call-Behaves :
      (is_view : Bool) (target : PublicAddress) (method : Bytes) (arguments : Option (List Bytes))
      (amount : Option ℕ)
      → Behaves (contracts.call is_view target method arguments amount)

pub record IsTxnFrame {WS E : Type 0} ⦃t : WorldState WS⦄ (s s' : ExecutionState WS E)
    : Type 0 where
  pub txn_meta : s'.txn_meta ≡ s.txn_meta
  pub bd : s'.bd ≡ s.bd
  pub gas_limit : s'.ctx.gas_meter.gas_limit ≡ s.ctx.gas_meter.gas_limit
  pub ws : (cache_of s').ws ≡ (cache_of s).ws
  pub valid : IsValid (cache_of s) → IsValid (cache_of s')
  pub limit : IsWithinLimit s.ctx.gas_meter → IsWithinLimit s'.ctx.gas_meter

module _ {WS E : Type 0} ⦃t : WorldState WS⦄ where
  pub IsTxnFrame-refl : (s : ExecutionState WS E) → IsTxnFrame s s
  IsTxnFrame-refl s = record {
    txn_meta = refl;
    bd = refl;
    gas_limit = refl;
    ws = refl;
    valid = λ h. h;
    limit = λ h. h;
  }

  pub IsTxnFrame-trans :
      {s u v : ExecutionState WS E} → IsTxnFrame s u → IsTxnFrame u v → IsTxnFrame s v
  IsTxnFrame-trans p q = record {
    txn_meta = q.txn_meta ∙ p.txn_meta;
    bd = q.bd ∙ p.bd;
    gas_limit = q.gas_limit ∙ p.gas_limit;
    ws = q.ws ∙ p.ws;
    valid = λ h. q.valid (p.valid h);
    limit = λ h. q.limit (p.limit h);
  }

  pub IsFrame-IsTxnFrame : {s s' : ExecutionState WS E} → IsFrame s s' → IsTxnFrame s s'
  IsFrame-IsTxnFrame p = record {
    txn_meta = p.txn_meta;
    bd = p.bd;
    gas_limit = p.meter.same.gas_limit;
    ws = p.meter.same.ws;
    valid = p.meter.valid;
    limit = λ h. record {
      fits =
          omega (arith, h.fits, p.meter.same.inclusion, p.meter.same.total, p.meter.same.gas_limit);
      limit = omega (arith, h.limit, p.meter.same.gas_limit);
    };
  }

  complete-IsTxnFrame :
      (s : ExecutionState WS E) (receipt : Buffer E)
      → IsTxnFrame s (record s { ctx = (complete_cmd_execution s.ctx).1; receipt = receipt })
  unfolding complete_cmd_execution Meter.take_current_command_result
  complete-IsTxnFrame s receipt = record {
    txn_meta = refl;
    bd = refl;
    gas_limit = refl;
    ws = refl;
    valid = λ h. h;
    limit = λ h. (take_current_command_result_lem s.ctx.gas_meter h).0;
  }

-- The fewest receipts that a failed run has added.
abbrev pub least_receipts : List Command → ℕ
least_receipts [] = 0
least_receipts (_ ∷ _) = 1

-- How many receipts a command adds.
abbrev pub receipts_of : ExecutableCommand → ℕ
receipts_of (transaction_command _) = 1
receipts_of (deferred_command _) = 0

module _ {WS E R : Type 0} (format : ReceiptFormat E R) ⦃t : WorldState WS⦄ where
  -- The end of a command, whatever its result.
  abbrev Finished : ExecutableCommand → ExecutionState WS E → ExecutionState WS E → Type 0
  Finished c s s' =
      IsTxnFrame s s'
      × (cache_of s' ≡ cache_of s)
      × (length s'.receipt ≡ length s.receipt + receipts_of c)

  pub handle_command_execution_result_lem :
      (kind : CommandKind) (result : Option TransitionError) (c : ExecutableCommand)
      (s : ExecutionState WS E)
      → Finished c s (handle_command_execution_result format kind result (is_txn_sent c) s).1
  unfolding handle_command_execution_result finalize_cmd_receipt_collect_deferred
      finalize_deferred_cmd_receipt complete_cmd_execution Meter.take_current_command_result
      push_command_receipt push_deferred_command_receipt
  handle_command_execution_result_lem kind result (transaction_command c) s =
      (complete-IsTxnFrame s _, refl, length-append s.receipt _)
  handle_command_execution_result_lem kind result (deferred_command d) s =
      (complete-IsTxnFrame s _, refl, omega (arith, length-update_last _ s.receipt))

-- The number of receipts before and after: the most are added by a success, and an error adds no
-- fewer than the least.
abbrev pub Counted : {A : Type 0} → ℕ → ℕ → Result A → ℕ → ℕ → Type 0
Counted least most (ok _) before after = after ≡ before + most
Counted least most (err _) before after = (before + least ≤ after) × (after ≤ before + most)
Counted least most panic before after = Unit

pub record Keeps {WS E A : Type 0} ⦃t : WorldState WS⦄ (least most : ℕ) (s : ExecutionState WS E)
    (out : Result A × ExecutionState WS E) : Type 0 where
  pub frame : IsTxnFrame s out.1
  pub reverted : IsReverted out.0 out.1
  pub receipts : Counted least most out.0 (length s.receipt) (length out.1.receipt)

Counted-add :
    {A : Type 0} (least most more before mid after : ℕ) (r : Result A)
    → least ≤ most
    → mid ≡ before + most
    → Counted 0 more r mid after
    → Counted least (most + more) r before after
Counted-add least most more before mid after (ok _) le e h = omega arith
Counted-add least most more before mid after (err _) le e h = (omega arith, omega arith)
Counted-add least most more before mid after panic le e h = tt

module _ {WS E A B : Type 0} ⦃t : WorldState WS⦄ where
  pub continue-Keeps :
      {least most more : ℕ} (s u : ExecutionState WS E) (r : Result A) (f : A → Execution WS E B)
      → least ≤ most
      → Keeps least most s (r, u)
      → ((a : A) → Keeps 0 more u (f a u))
      → Keeps least (most + more) s (continue r f u)
  continue-Keeps s u (ok a) f le p q =
      let (r, v) = f a u in
      record {
        frame = IsTxnFrame-trans p.frame (q a).frame;
        reverted = (q a).reverted;
        receipts = Counted-add _ _ _ _ _ _ r le p.receipts (q a).receipts;
      }
  continue-Keeps s u (err error) f le p q = record {
    frame = p.frame;
    reverted = p.reverted;
    receipts = (p.receipts.0, omega (arith, p.receipts.1));
  }
  continue-Keeps s u panic f le p q = record { frame = p.frame; reverted = tt; receipts = tt }

Counted-least :
    {A : Type 0} (least most before after : ℕ) (r : Result A)
    → Counted least most r before after
    → Counted 0 most r before after
Counted-least least most before after (ok _) h = h
Counted-least least most before after (err _) h = (omega arith, h.1)
Counted-least least most before after panic h = tt

pub Keeps-least :
    {WS E A : Type 0} ⦃t : WorldState WS⦄ {least most : ℕ} {s : ExecutionState WS E}
    (out : Result A × ExecutionState WS E)
    → Keeps least most s out
    → Keeps 0 most s out
Keeps-least (r, u) h = record {
  frame = h.frame;
  reverted = h.reverted;
  receipts = Counted-least _ _ _ _ r h.receipts;
}
