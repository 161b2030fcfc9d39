-- ===== src/Execution.antt =====
-- The running of a command: a state passed on, with an error or a panic in place of a result
-- (src/execution/abort.rs). An `Err` comes with the state that the code leaves behind.
pub mod Behaves
pub mod Steps
use pchain_runtime.Prelude.{Option, none, some, ltb, if◌then◌else◌}
use pchain_runtime.Error.{TransitionError, Result, ok, err, panic, execution_proper_gas_exhausted}
use pchain_runtime.Gas.Meter
use pchain_runtime.Gas.Meter.{GasMeter}
use pchain_runtime.State.{TransitionContext, ExecutionState, revert_changes}

abbrev pub Execution : Type 0 → Type 0 → Type 0 → Type 0
Execution WS E A = ExecutionState WS E → Result A × ExecutionState WS E

module _ {WS E A : Type 0} where
  unfoldable pub pure : A → Execution WS E A
  pure a s = (ok a, s)

  unfoldable pub unwrap_failed : Execution WS E A
  unwrap_failed s = (panic, s)

  unfoldable pub gets : (ExecutionState WS E → A) → Execution WS E A
  gets f s = (ok (f s), s)

  -- An operation of the gas meter.
  unfoldable pub metered : (GasMeter WS → A × GasMeter WS) → Execution WS E A
  metered f s =
      let (a, g) = f s.ctx.gas_meter in (ok a, record s { ctx = record s.ctx { gas_meter = g } })

  -- `abort!`: all pending changes are dropped, and the error is returned.
  unfoldable pub abort : TransitionError → Execution WS E A
  unfolding revert_changes
  abort error s = (err error, record s { ctx = revert_changes s.ctx })

module _ {WS E A B : Type 0} where
  abbrev pub continue : Result A → (A → Execution WS E B) → Execution WS E B
  continue (ok a) f s = f a s
  continue (err e) f s = (err e, s)
  continue panic f s = (panic, s)

  infixl 10 ◌>>=◌ ◌>>◌
  unfoldable pub ◌>>=◌ : Execution WS E A → (A → Execution WS E B) → Execution WS E B
  unfolding pure unwrap_failed gets metered abort
  ◌>>=◌ m f s = let (r, s') = m s in continue r f s'

  abbrev pub ◌>>◌ : Execution WS E A → Execution WS E B → Execution WS E B
  m >> n = m >>= λ _. n

-- `Option::unwrap`.
unfoldable pub unwrap : {WS E A : Type 0} → Option A → Execution WS E A
unfolding unwrap_failed pure
unwrap none = unwrap_failed
unwrap (some a) = pure a

module _ {WS E : Type 0} where
  -- An operation of the gas meter with no result.
  unfoldable pub metered_ : (GasMeter WS → GasMeter WS) → Execution WS E (Unit {0})
  metered_ f s = (ok tt, record s { ctx = record s.ctx { gas_meter = f s.ctx.gas_meter } })

  unfoldable pub abort_if_gas_exhausted : Execution WS E (Unit {0})
  unfolding abort Meter.total_gas_used
  abort_if_gas_exhausted s =
      if ltb s.txn_meta.gas_limit (Meter.total_gas_used s.ctx.gas_meter)
      then abort execution_proper_gas_exhausted s
      else (ok tt, s)
