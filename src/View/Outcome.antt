-- ===== src/View/Outcome.antt =====
-- What a view returns.
use pchain_runtime.Prelude.{
  ℕ, ◌≤◌, ◌≡◌, refl, sym, subst, true, false, Bool-cases, inl, inr, ◌⊎◌, Option, none, some, List,
  [], arith,
}
use pchain_runtime.Word.{u64_max}
use pchain_runtime.Error.{TransitionError, Result, ok, err, panic}
use pchain_runtime.Types.{PublicAddress, Bytes, Log}
use pchain_runtime.Types.Receipt.{CommandReceiptV2}
use pchain_runtime.Cache.World
use pchain_runtime.Cache.World.{WorldState}
use pchain_runtime.Cache.World.Laws.{pending}
use pchain_runtime.Cache.Receipt.{exit_code_of_v2}
use pchain_runtime.Gas.Meter
use pchain_runtime.Gas.Meter.{GasMeter}
use pchain_runtime.Gas.Meter.Laws.{IsWithinLimit}
use pchain_runtime.State.{ExecutionState, new_state, new_context, complete_cmd_execution}
use pchain_runtime.Execution.Behaves.{cache_of, SameCounters}
use pchain_runtime.Network.{NetworkAccount}
use pchain_runtime.Contract.Engine.{Engine}
use pchain_runtime.Contract.Steps.{AreDepositCommands}
use pchain_runtime.Commands.Contract.{call}
use pchain_runtime.Commands.Contract.Laws.{call-Behaves}
use pchain_runtime.Commands.Contract.Served.{is_panic, Serves-call}
use pchain_runtime.View.{ended_v2, view_receipt_v2, view_state, execute_view_v2, view_v2}

module _ {WS : Type 0} where
  -- The gas of a finished command fits the limit.
  taken-le-limit :
      (g : GasMeter WS) → IsWithinLimit g → (Meter.take_current_command_result g).0.0 ≤ g.gas_limit
  unfolding Meter.take_current_command_result
  taken-le-limit g h = ground (arith, h.fits, h.limit)

-- A receipt of a call with the error's exit code, and gas within the limit.
pub record IsViewReceipt (gas_limit : ℕ) (receipt : CommandReceiptV2)
    (error : Option TransitionError) : Type 0 where
  pub gas_used : ℕ
  pub logs : List Log
  pub return_value : Bytes
  pub made : receipt ≡ CommandReceiptV2.call (exit_code_of_v2 error) gas_used logs return_value
  pub limited : gas_used ≤ gas_limit

-- What a view returns, as long as it does not panic.
abbrev pub IsViewOutcome : ℕ → Option (CommandReceiptV2 × Option TransitionError) → Type 0
IsViewOutcome gas_limit out =
    (receipt : CommandReceiptV2) × (error : Option TransitionError) × (out ≡ some (receipt, error))
    × IsViewReceipt gas_limit receipt error

module _ {WS : Type 0} where
  ended-IsViewReceipt :
      (gas_limit : ℕ) (error : Option TransitionError) (s : ExecutionState WS CommandReceiptV2)
      → IsWithinLimit s.ctx.gas_meter
      → s.ctx.gas_meter.gas_limit ≡ gas_limit
      → IsViewReceipt gas_limit (ended_v2 error s).0 error
  unfolding complete_cmd_execution
  ended-IsViewReceipt gas_limit error s h e = record {
    gas_used = (Meter.take_current_command_result s.ctx.gas_meter).0.0;
    logs = (Meter.take_current_command_result s.ctx.gas_meter).0.1.logs;
    return_value = (Meter.take_current_command_result s.ctx.gas_meter).0.1.return_value;
    made = refl;
    limited =
        subst (λ n. (Meter.take_current_command_result s.ctx.gas_meter).0.0 ≤ n) e
          (taken-le-limit s.ctx.gas_meter h);
  }

  view_receipt-IsViewOutcome :
      (gas_limit : ℕ) (r : Result (Unit {0})) (s : ExecutionState WS CommandReceiptV2)
      → is_panic r ≡ false
      → IsWithinLimit s.ctx.gas_meter
      → s.ctx.gas_meter.gas_limit ≡ gas_limit
      → IsViewOutcome gas_limit (view_receipt_v2 r s)
  unfolding view_receipt_v2
  view_receipt-IsViewOutcome gas_limit (ok _) s p h e =
      ((ended_v2 none s).0, none, refl, ended-IsViewReceipt gas_limit none s h e)
  view_receipt-IsViewOutcome gas_limit (err error) s p h e = (
    (ended_v2 (some error) s).0,
    some error,
    refl,
    ended-IsViewReceipt gas_limit (some error) s h e,
  )
  view_receipt-IsViewOutcome gas_limit panic s p h e = absurd (cc p)

  panics-none :
      (r : Result (Unit {0})) (s : ExecutionState WS CommandReceiptV2)
      → is_panic r ≡ true
      → view_receipt_v2 r s ≡ none
  unfolding view_receipt_v2
  panics-none (ok _) s p = absurd (cc p)
  panics-none (err e) s p = absurd (cc p)
  panics-none panic s p = refl

module _ {WS : Type 0} where
  -- The meter of a view, after a step of it.
  view-IsWithinLimit :
      (ws : WS) (gas_limit : ℕ) (g : GasMeter WS)
      → gas_limit ≤ u64_max
      → SameCounters (view_state {E = CommandReceiptV2} ws gas_limit).ctx.gas_meter g
      → IsWithinLimit g × (g.gas_limit ≡ gas_limit)
  unfolding view_state new_state new_context Meter.new
  view-IsWithinLimit ws gas_limit g h k = (
    record {
      fits = omega (arith, k.inclusion, k.total, k.gas_limit);
      limit = omega (arith, k.gas_limit);
    },
    k.gas_limit,
  )

module _ {M WS : Type 0} (engine : Engine M) ⦃t : WorldState WS⦄ ⦃net : NetworkAccount⦄ where
  -- The result of the call that a view makes.
  abbrev pub view_result : WS → ℕ → PublicAddress → Bytes → Option (List Bytes) → Result (Unit {0})
  view_result ws gas_limit target method arguments =
      (call engine true target method arguments none
        (view_state {E = CommandReceiptV2} ws gas_limit)).0

  view_v2_returns :
      (ws : WS) (gas_limit : ℕ) (target : PublicAddress) (method : Bytes)
      (arguments : Option (List Bytes))
      → gas_limit ≤ u64_max
      → is_panic (view_result ws gas_limit target method arguments) ≡ false
      → IsViewOutcome gas_limit (view_v2 engine ws gas_limit target method arguments)
  unfolding view_v2 execute_view_v2
  view_v2_returns ws gas_limit target method arguments h p =
      let s = view_state ws gas_limit in
      let m = call engine true target method arguments none in
      let (within, limit) =
        view-IsWithinLimit ws gas_limit (m s).1.ctx.gas_meter h
          ((call-Behaves engine true target method arguments none).frame s).meter.same in
      view_receipt-IsViewOutcome gas_limit (m s).0 (m s).1 p within limit

  view_v2_panics :
      (ws : WS) (gas_limit : ℕ) (target : PublicAddress) (method : Bytes)
      (arguments : Option (List Bytes))
      → is_panic (view_result ws gas_limit target method arguments) ≡ true
      → view_v2 engine ws gas_limit target method arguments ≡ none
  unfolding view_v2 execute_view_v2
  view_v2_panics ws gas_limit target method arguments p =
      let s = view_state ws gas_limit in
      let m = call engine true target method arguments none in panics-none (m s).0 (m s).1 p

  -- A view with a gas limit that fits in a `u64` either has a call that panics, and then panics
  -- too, or it returns a receipt of a call, whose exit code is that of the error that is returned
  -- with it, and whose gas is at most the gas limit.
  pub view_v2_lem :
      (ws : WS) (gas_limit : ℕ) (target : PublicAddress) (method : Bytes)
      (arguments : Option (List Bytes))
      → gas_limit ≤ u64_max
      → (is_panic (view_result ws gas_limit target method arguments) ≡ true)
          × (view_v2 engine ws gas_limit target method arguments ≡ none)
        ⊎ IsViewOutcome gas_limit (view_v2 engine ws gas_limit target method arguments)
  view_v2_lem ws gas_limit target method arguments h =
      elim (Bool-cases (is_panic (view_result ws gas_limit target method arguments))) [
        | inl p ↦ inl (p, view_v2_panics ws gas_limit target method arguments p)
        | inr p ↦ inr (view_v2_returns ws gas_limit target method arguments h p)
      ]

module _ {M WS E : Type 0} (engine : Engine M) ⦃t : WorldState WS⦄ ⦃net : NetworkAccount⦄ where
  -- A call in a view, from a state with nothing pending over the world state and nothing deferred,
  -- ends with nothing pending over that world state and nothing deferred, whatever the contract
  -- does, and whether it succeeds or fails.
  pub call_view :
      (ws : WS) (s : ExecutionState WS E) (target : PublicAddress) (method : Bytes)
      (arguments : Option (List Bytes))
      → pending (cache_of s) ≡ pending (World.new ws)
      → s.ctx.deferred_commands ≡ []
      → let s' = (call engine true target method arguments none s).1 in
        (pending (cache_of s') ≡ pending (World.new ws)) × (s'.ctx.deferred_commands ≡ [])
  call_view ws s target method arguments h k =
      let served =
        ((Serves-call engine true target method arguments none (λ v. refl)).step ws s (record {
          deposits = subst AreDepositCommands (sym k) tt;
          untouched = λ v. record { nothing_pending = h; nothing_deferred = k };
        })).untouched
          refl in
      (served.nothing_pending, served.nothing_deferred)

  -- A call in a transaction, from a state with nothing deferred, leaves deferred only commands that
  -- are one of the six that change a deposit, whatever the contract does and however the call ends.
  pub call-deferred :
      (s : ExecutionState WS E) (target : PublicAddress) (method : Bytes)
      (arguments : Option (List Bytes)) (amount : Option ℕ)
      → s.ctx.deferred_commands ≡ []
      → AreDepositCommands
          (call engine false target method arguments amount s).1.ctx.deferred_commands
  call-deferred s target method arguments amount k =
      ((Serves-call engine false target method arguments amount (λ v. absurd (cc v))).step
        (cache_of s).ws s
        (record {
          deposits = subst AreDepositCommands (sym k) tt;
          untouched = λ v. absurd (cc v);
        })).deposits
