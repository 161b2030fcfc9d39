-- ===== src/Commands/Contract/Served.antt =====
-- What a call of a contract can leave behind besides its writes: deferred commands that change deposits,
-- and in a view nothing at all.
use pchain_runtime.Prelude.{
  ltb, ℕ, suc, ◌≡◌, refl, ap, ◌∙◌, Bool, true, false, Option, none, some, List, [], nat_eq,
  if◌then◌else◌,
}
use pchain_runtime.Error.{execution_proper_gas_exhausted, TransitionError, Result, ok, err, panic}
use pchain_runtime.Types.{PublicAddress, Bytes, CallTx}
use pchain_runtime.Cache.World
use pchain_runtime.Cache.World.{WorldState}
use pchain_runtime.Cache.World.Laws
use pchain_runtime.Cache.World.Laws.{Pending, pending, revert-new}
use pchain_runtime.Gas.Meter
use pchain_runtime.Gas.Meter.{GasMeter}
use pchain_runtime.State.{ExecutionState}
use pchain_runtime.Execution.{
  Execution, pure, gets, metered, metered_, abort, abort_if_gas_exhausted, continue, ◌>>=◌,
}
use pchain_runtime.Execution.Behaves.{cache_of}
use pchain_runtime.Network.{NetworkAccount}
use pchain_runtime.Contract.Engine.{Engine}
use pchain_runtime.Contract.Call.{
  MethodCallError, MethodResult, result_panicked, Instance, ws_cached_contract, call_instance,
}
use pchain_runtime.Contract.Run.{run_wasm}
use pchain_runtime.Contract.Runs.{call_instance-step, call_instance-calm}
use pchain_runtime.Contract.Wasm.{run_wasm-RunnerKeeps}
use pchain_runtime.Contract.Steps.{AreDepositCommands, WritesSafely}
use pchain_runtime.Commands.Contract.{
  contract_result, or_abort, transfer_amount, environment, instantiate, run_contract, after_call,
  call_method, call, transition_error,
}

abbrev pub is_panic : {A : Type 0} → Result A → Bool
is_panic (ok a) = false
is_panic (err e) = false
is_panic panic = true

module _ {WS : Type 0} where
  -- Nothing is pending over the world state, and nothing is deferred.
  pub record IsUntouched {E : Type 0} (ws : WS) (s : ExecutionState WS E) : Type 0 where
    pub nothing_pending : pending (cache_of s) ≡ pending (World.new ws)
    pub nothing_deferred : s.ctx.deferred_commands ≡ []

  pub record IsServed {E : Type 0} (view : Bool) (ws : WS) (s : ExecutionState WS E) : Type 0 where
    pub deposits : AreDepositCommands s.ctx.deferred_commands
    pub untouched : view ≡ true → IsUntouched ws s

  -- Under the condition `S` there is no panic either.
  pub record Serves {E A : Type 0} (S : Type 0) (view : Bool) (m : Execution WS E A) : Type 0 where
    pub step : (ws : WS) (s : ExecutionState WS E) → IsServed view ws s → IsServed view ws (m s).1
    pub returns : S → (s : ExecutionState WS E) → is_panic (m s).0 ≡ false

module _ {WS E A : Type 0} ⦃t : WorldState WS⦄ where
  Serves-abort :
      {S : Type 0} (view : Bool) (e : TransitionError)
      → Serves S view (abort {WS = WS} {E = E} {A = A} e)
  unfolding abort World.new
  Serves-abort view e = record {
    step = λ ws s h. record {
      deposits = h.deposits;
      untouched = λ v. record {
        nothing_pending =
            ap pending (revert-new (cache_of s))
            ∙ ap (λ w. pending (World.new w))
                (ap (λ (p : Pending WS). p.ws) (h.untouched v).nothing_pending);
        nothing_deferred = (h.untouched v).nothing_deferred;
      };
    };
    returns = λ q s. refl;
  }

module _ {WS E A : Type 0} where
  Serves-pure : {S : Type 0} (view : Bool) (a : A) → Serves S view (pure {WS = WS} {E = E} a)
  unfolding pure
  Serves-pure view a = record { step = λ ws s h. h; returns = λ q s. refl }

  Serves-gets : {S : Type 0} (view : Bool) (f : ExecutionState WS E → A) → Serves S view (gets f)
  unfolding gets
  Serves-gets view f = record { step = λ ws s h. h; returns = λ q s. refl }

  -- An operation of the gas meter that leaves the pending writes alone.
  Serves-metered :
      {S : Type 0} (view : Bool) (f : GasMeter WS → A × GasMeter WS)
      → ((g : GasMeter WS) → pending (f g).1.ws_cache ≡ pending g.ws_cache)
      → Serves S view (metered {E = E} f)
  unfolding metered
  Serves-metered view f k = record {
    step = λ ws s h. record {
      deposits = h.deposits;
      untouched = λ v. record {
        nothing_pending = k s.ctx.gas_meter ∙ (h.untouched v).nothing_pending;
        nothing_deferred = (h.untouched v).nothing_deferred;
      };
    };
    returns = λ q s. refl;
  }

  -- Outside a view any operation of the gas meter will do.
  Serves-free :
      {S : Type 0} (f : GasMeter WS → A × GasMeter WS) → Serves S false (metered {E = E} f)
  unfolding metered
  Serves-free f = record {
    step = λ ws s h. record { deposits = h.deposits; untouched = λ v. absurd (cc v) };
    returns = λ q s. refl;
  }

  Serves-if :
      {S : Type 0} (view test : Bool) {m n : Execution WS E A}
      → Serves S view m
      → Serves S view n
      → Serves S view (if test then m else n)
  Serves-if view true h k = h
  Serves-if view false h k = k

module _ {WS E : Type 0} where
  Serves-free_ : {S : Type 0} (f : GasMeter WS → GasMeter WS) → Serves S false (metered_ {E = E} f)
  unfolding metered_
  Serves-free_ f = record {
    step = λ ws s h. record { deposits = h.deposits; untouched = λ v. absurd (cc v) };
    returns = λ q s. refl;
  }

  test-Serves :
      {S : Type 0} (view test : Bool) (m n : Execution WS E (Unit {0})) (ws : WS)
      (s : ExecutionState WS E)
      → Serves S view m
      → Serves S view n
      → IsServed view ws s
      → IsServed view ws (if test then m s else n s).1
  test-Serves view true m n ws s h k e = h.step ws s e
  test-Serves view false m n ws s h k e = k.step ws s e

module _ {WS E : Type 0} ⦃t : WorldState WS⦄ where
  test-returns :
      {A : Type 0} (test : Bool) (m n : Execution WS E A) (s : ExecutionState WS E)
      → is_panic (m s).0 ≡ false
      → is_panic (n s).0 ≡ false
      → is_panic (if test then m s else n s).0 ≡ false
  test-returns true m n s h k = h
  test-returns false m n s h k = k

  Serves-exhausted :
      {S : Type 0} (view : Bool) → Serves S view (abort_if_gas_exhausted {WS = WS} {E = E})
  unfolding abort_if_gas_exhausted pure abort
  Serves-exhausted {S} view = record {
    step = λ ws s h.
        test-Serves {S = S} view (ltb s.txn_meta.gas_limit (Meter.total_gas_used s.ctx.gas_meter))
          (abort execution_proper_gas_exhausted) (pure tt) ws s
          (Serves-abort view execution_proper_gas_exhausted) (Serves-pure view tt) h;
    returns = λ q s.
        test-returns (ltb s.txn_meta.gas_limit (Meter.total_gas_used s.ctx.gas_meter))
          (abort execution_proper_gas_exhausted) (pure tt) s refl refl;
  }

module _ {WS E A B : Type 0} where
  continue-Serves :
      {S : Type 0} (view : Bool) (r : Result A) (f : A → Execution WS E B)
      → ((a : A) → Serves S view (f a))
      → (ws : WS) (s : ExecutionState WS E) → IsServed view ws s
      → IsServed view ws (continue r f s).1
  continue-Serves view (ok a) f k ws s h = (k a).step ws s h
  continue-Serves view (err e) f k ws s h = h
  continue-Serves view panic f k ws s h = h

  continue-returns :
      {S : Type 0} (q : S) (view : Bool) (r : Result A) (f : A → Execution WS E B)
      → ((a : A) → Serves S view (f a))
      → (s : ExecutionState WS E) → is_panic r ≡ false
      → is_panic (continue r f s).0 ≡ false
  continue-returns q view (ok a) f k s h = (k a).returns q s
  continue-returns q view (err e) f k s h = refl
  continue-returns q view panic f k s h = h

  Serves-bind :
      {S : Type 0} (view : Bool) {m : Execution WS E A} {f : A → Execution WS E B}
      → Serves S view m
      → ((a : A) → Serves S view (f a))
      → Serves S view (m >>= f)
  unfolding ◌>>=◌
  Serves-bind view {m} {f} hm hf = record {
    step = λ ws s h. continue-Serves view (m s).0 f hf ws (m s).1 (hm.step ws s h);
    returns = λ q s. continue-returns q view (m s).0 f hf (m s).1 (hm.returns q s);
  }

ruleset serves_rules =
    (Serves-pure, Serves-gets, Serves-abort, Serves-if, Serves-exhausted, Serves-bind)

module _ {WS : Type 0} ⦃t : WorldState WS⦄ where
  pending-ws_cbi_version :
      (a : PublicAddress) (g : GasMeter WS)
      → pending (Meter.ws_cbi_version a g).1.ws_cache ≡ pending g.ws_cache
  unfolding Meter.ws_cbi_version
  pending-ws_cbi_version a g = Laws.pending-cbi_version a g.ws_cache

  pending-ws_cached_contract :
      {M : Type 0} (engine : Engine M) (a : PublicAddress) (g : GasMeter WS)
      → pending (Meter.run_operation (ws_cached_contract engine a) g).1.ws_cache
        ≡ pending g.ws_cache
  unfolding Meter.run_operation ws_cached_contract
  pending-ws_cached_contract engine a g = Laws.pending-contract_code a g.ws_cache

module _ {WS E : Type 0} ⦃t : WorldState WS⦄ where
  Serves-or_abort :
      {S : Type 0} {A : Type 0} (view : Bool) (e : TransitionError) (a : Option A)
      → Serves S view (or_abort {WS = WS} {E = E} e a)
  unfolding or_abort
  Serves-or_abort view e none = Serves-abort view e
  Serves-or_abort view e (some a) = Serves-pure view a

  Serves-after_call :
      {S : Type 0} (view : Bool) (e : Option MethodCallError)
      → Serves S view (after_call {WS = WS} {E = E} e)
  unfolding after_call
  Serves-after_call view none = Serves-exhausted view
  Serves-after_call view (some e) = Serves-abort view (transition_error e)

  Serves-transfer_amount :
      {S : Type 0} (view : Bool) (target : PublicAddress) (amount : Option ℕ)
      → (view ≡ true → amount ≡ none)
      → Serves S view (transfer_amount {WS = WS} {E = E} target amount)
  Serves-transfer_amount view target none h = Serves-pure view tt
  Serves-transfer_amount true target (some amount) h = absurd (cc (h refl))
  Serves-transfer_amount false target (some amount) h =
      search (serves_rules, Serves-free, Serves-free_) depth 16

contract_result-returns :
    (r : MethodResult) → result_panicked r ≡ false → is_panic (contract_result r) ≡ false
contract_result-returns MethodResult.completed e = refl
contract_result-returns (MethodResult.errored x) e = refl
contract_result-returns MethodResult.panicked e = absurd (cc e)

module _ {M WS E : Type 0} ⦃engine : Engine M⦄ ⦃t : WorldState WS⦄ ⦃net : NetworkAccount⦄ where
  Serves-instantiate :
      (view : Bool) (target : PublicAddress) (method : Bytes) (arguments : Option (List Bytes))
      (amount : Option ℕ)
      → Serves
          (WritesSafely WS engine)
          view
          (instantiate {M = M} {WS = WS} {E = E} target method arguments amount)
  unfolding instantiate
  Serves-instantiate view target method arguments amount =
      search
        (
          serves_rules, Serves-metered, pending-ws_cbi_version, pending-ws_cached_contract,
          Serves-or_abort,
        )
        depth 24

  Serves-run_contract :
      (view : Bool) (instance : CallTx × Instance M)
      → Serves (WritesSafely WS engine) view (run_contract {WS = WS} {E = E} view instance)
  unfolding run_contract Meter.manually_charge_gas
  Serves-run_contract view (call_tx, instance) = record {
    step = λ ws s h.
        let context =
          call_instance-step (run_wasm-RunnerKeeps (suc call_tx.base_tx.gas_limit))
            (environment view call_tx s.bd) instance s.ctx in
        record {
          deposits = context.deferred h.deposits;
          untouched = λ v. record {
            nothing_pending = (context.unwritten v).pending_kept ∙ (h.untouched v).nothing_pending;
            nothing_deferred =
                (context.unwritten v).deferred_kept ∙ (h.untouched v).nothing_deferred;
          };
        };
    returns = λ q s.
        contract_result-returns
          (call_instance (run_wasm (suc call_tx.base_tx.gas_limit)) (environment view call_tx s.bd)
            instance s.ctx).2
          (call_instance-calm (run_wasm-RunnerKeeps (suc call_tx.base_tx.gas_limit)) q
            (environment view call_tx s.bd) instance s.ctx);
  }

  Serves-call_method :
      (view : Bool) (instance : CallTx × Instance M)
      → Serves (WritesSafely WS engine) view (call_method {WS = WS} {E = E} view instance)
  unfolding call_method
  Serves-call_method view instance =
      search (serves_rules, Serves-run_contract, Serves-after_call) depth 16

module _ {M WS E : Type 0} (engine : Engine M) ⦃t : WorldState WS⦄ ⦃net : NetworkAccount⦄ where
  pub Serves-call :
      (view : Bool) (target : PublicAddress) (method : Bytes) (arguments : Option (List Bytes))
      (amount : Option ℕ)
      → (view ≡ true → amount ≡ none)
      → Serves
          (WritesSafely WS engine)
          view
          (call {WS = WS} {E = E} engine view target method arguments amount)
  unfolding call
  Serves-call view target method arguments amount h =
      search (serves_rules, Serves-transfer_amount, Serves-instantiate, Serves-call_method) depth 12
