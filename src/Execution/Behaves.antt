-- ===== src/Execution/Behaves.antt =====
-- What every command keeps, one rule for each way to build a command: it runs on the cache alone, and
-- an error has dropped every pending change.
use pchain_runtime.Prelude.{
  ◌≡◌, refl, Option, none, some, Bool, true, false, ◌∙◌, if◌then◌else◌, ltb,
}
use pchain_runtime.Error.{TransitionError, Result, ok, err, panic, execution_proper_gas_exhausted}
use pchain_runtime.Cache.World
use pchain_runtime.Cache.World.{WorldState, WorldStateCache}
use pchain_runtime.Cache.World.Laws.{IsValid, new-IsValid, revert-new}
use pchain_runtime.Gas.Meter
use pchain_runtime.Gas.Meter.{GasMeter}
use pchain_runtime.State.{ExecutionState}
use pchain_runtime.Execution.{
  Execution, pure, unwrap, unwrap_failed, gets, metered, metered_, abort, abort_if_gas_exhausted,
  ◌>>=◌, continue,
}

-- The counters that only the end of a command changes, and the world state below the cache.
pub record SameCounters {WS : Type 0} (g g' : GasMeter WS) : Type 0 where
  pub version : g'.version ≡ g.version
  pub gas_limit : g'.gas_limit ≡ g.gas_limit
  pub inclusion : g'.gas_used_for_txn_inclusion ≡ g.gas_used_for_txn_inclusion
  pub total : g'.total_gas_used_for_executed_commands ≡ g.total_gas_used_for_executed_commands
  pub ws : g'.ws_cache.ws ≡ g.ws_cache.ws

-- A step of the gas meter inside a command.
pub record IsMeterStep {WS : Type 0} ⦃t : WorldState WS⦄ (g g' : GasMeter WS) : Type 0 where
  pub same : SameCounters g g'
  pub valid : IsValid g.ws_cache → IsValid g'.ws_cache

-- The transaction and the receipts are left alone, and the meter makes steps.
pub record IsFrame {WS E : Type 0} ⦃t : WorldState WS⦄ (s s' : ExecutionState WS E) : Type 0 where
  pub txn_meta : s'.txn_meta ≡ s.txn_meta
  pub bd : s'.bd ≡ s.bd
  pub receipt : s'.receipt ≡ s.receipt
  pub meter : IsMeterStep s.ctx.gas_meter s'.ctx.gas_meter

abbrev pub cache_of : {WS E : Type 0} → ExecutionState WS E → WorldStateCache WS
cache_of s = s.ctx.gas_meter.ws_cache

-- After an error the cache is that of a new transaction over the same world state.
abbrev pub IsReverted : {WS E A : Type 0} → Result A → ExecutionState WS E → Type 0
IsReverted (ok _) s = Unit
IsReverted (err _) s = cache_of s ≡ World.new (cache_of s).ws
IsReverted panic s = Unit

pub record Behaves {WS E A : Type 0} ⦃t : WorldState WS⦄ (m : Execution WS E A) : Type 0 where
  pub frame : (s : ExecutionState WS E) → IsFrame s (m s).1
  pub reverted : (s : ExecutionState WS E) → IsReverted (m s).0 (m s).1

module _ {WS : Type 0} ⦃t : WorldState WS⦄ where
  pub IsMeterStep-refl : (g : GasMeter WS) → IsMeterStep g g
  IsMeterStep-refl g = record {
    same = record { version = refl; gas_limit = refl; inclusion = refl; total = refl; ws = refl };
    valid = λ h. h;
  }

  pub IsMeterStep-trans :
      {f g h : GasMeter WS} → IsMeterStep f g → IsMeterStep g h → IsMeterStep f h
  IsMeterStep-trans p q = record {
    same = record {
      version = q.same.version ∙ p.same.version;
      gas_limit = q.same.gas_limit ∙ p.same.gas_limit;
      inclusion = q.same.inclusion ∙ p.same.inclusion;
      total = q.same.total ∙ p.same.total;
      ws = q.same.ws ∙ p.same.ws;
    };
    valid = λ v. q.valid (p.valid v);
  }

module _ {WS E : Type 0} ⦃t : WorldState WS⦄ where
  pub IsFrame-refl : (s : ExecutionState WS E) → IsFrame s s
  IsFrame-refl s = record {
    txn_meta = refl;
    bd = refl;
    receipt = refl;
    meter = IsMeterStep-refl s.ctx.gas_meter;
  }

  pub IsFrame-trans : {s u v : ExecutionState WS E} → IsFrame s u → IsFrame u v → IsFrame s v
  IsFrame-trans p q = record {
    txn_meta = q.txn_meta ∙ p.txn_meta;
    bd = q.bd ∙ p.bd;
    receipt = q.receipt ∙ p.receipt;
    meter = IsMeterStep-trans p.meter q.meter;
  }

module _ {WS E A : Type 0} ⦃t : WorldState WS⦄ where
  pub Behaves-pure : (a : A) → Behaves (pure {WS = WS} {E = E} a)
  unfolding pure
  Behaves-pure a = record { frame = λ s. IsFrame-refl s; reverted = λ s. tt }

  pub Behaves-unwrap_failed : Behaves (unwrap_failed {WS = WS} {E = E} {A = A})
  unfolding unwrap_failed
  Behaves-unwrap_failed = record { frame = λ s. IsFrame-refl s; reverted = λ s. tt }

  pub Behaves-gets : (f : ExecutionState WS E → A) → Behaves (gets {WS = WS} {E = E} f)
  unfolding gets
  Behaves-gets f = record { frame = λ s. IsFrame-refl s; reverted = λ s. tt }

  pub Behaves-metered :
      (f : GasMeter WS → A × GasMeter WS)
      → ((g : GasMeter WS) → IsMeterStep g (f g).1)
      → Behaves (metered {E = E} f)
  unfolding metered
  Behaves-metered f h = record {
    frame = λ s. record { txn_meta = refl; bd = refl; receipt = refl; meter = h s.ctx.gas_meter };
    reverted = λ s. tt;
  }

  pub Behaves-abort : (error : TransitionError) → Behaves (abort {WS = WS} {E = E} {A = A} error)
  unfolding abort
  Behaves-abort error = record {
    frame = λ s. record {
      txn_meta = refl;
      bd = refl;
      receipt = refl;
      meter = record {
        same = record {
          version = refl;
          gas_limit = refl;
          inclusion = refl;
          total = refl;
          ws = refl;
        };
        valid = λ _. rw revert-new (new-IsValid (cache_of s).ws);
      };
    };
    reverted = λ s. revert-new (cache_of s);
  }

  pub Behaves-if :
      (b : Bool) (m n : Execution WS E A) → Behaves m → Behaves n → Behaves (if b then m else n)
  Behaves-if true m n hm hn = hm
  Behaves-if false m n hm hn = hn

  test-Behaves :
      (b : Bool) (m n : Execution WS E A) (s : ExecutionState WS E)
      → Behaves m
      → Behaves n
      → let (r, s') = if b then m s else n s in IsFrame s s' × IsReverted r s'
  test-Behaves true m n s hm hn = (hm.frame s, hm.reverted s)
  test-Behaves false m n s hm hn = (hn.frame s, hn.reverted s)

  -- A test on the state.
  pub Behaves-test :
      (b : ExecutionState WS E → Bool) (m n : Execution WS E A)
      → Behaves m
      → Behaves n
      → Behaves (λ s. if b s then m s else n s)
  Behaves-test b m n hm hn = record {
    frame = λ s. (test-Behaves (b s) m n s hm hn).0;
    reverted = λ s. (test-Behaves (b s) m n s hm hn).1;
  }

module _ {WS E A B : Type 0} ⦃t : WorldState WS⦄ where
  continue-Behaves :
      (r : Result A) (f : A → Execution WS E B)
      → ((a : A) → Behaves (f a))
      → (s u : ExecutionState WS E) → IsFrame s u
      → IsReverted r u
      → IsFrame s (continue r f u).1 × IsReverted (continue r f u).0 (continue r f u).1
  continue-Behaves (ok a) f h s u p e = (IsFrame-trans p ((h a).frame u), (h a).reverted u)
  continue-Behaves (err error) f h s u p e = (p, e)
  continue-Behaves panic f h s u p e = (p, tt)

  pub Behaves-bind :
      (m : Execution WS E A) (f : A → Execution WS E B)
      → Behaves m
      → ((a : A) → Behaves (f a))
      → Behaves (m >>= f)
  unfolding ◌>>=◌
  Behaves-bind m f hm hf = record {
    frame = λ s. (continue-Behaves (m s).0 f hf s (m s).1 (hm.frame s) (hm.reverted s)).0;
    reverted = λ s. (continue-Behaves (m s).0 f hf s (m s).1 (hm.frame s) (hm.reverted s)).1;
  }

module _ {WS E : Type 0} ⦃t : WorldState WS⦄ where
  pub Behaves-metered_ :
      (f : GasMeter WS → GasMeter WS)
      → ((g : GasMeter WS) → IsMeterStep g (f g))
      → Behaves (metered_ {E = E} f)
  unfolding metered_
  Behaves-metered_ f h = record {
    frame = λ s. record { txn_meta = refl; bd = refl; receipt = refl; meter = h s.ctx.gas_meter };
    reverted = λ s. tt;
  }

  pub Behaves-abort_if_gas_exhausted : Behaves (abort_if_gas_exhausted {WS = WS} {E = E})
  unfolding abort_if_gas_exhausted pure
  Behaves-abort_if_gas_exhausted =
      Behaves-test (λ s. ltb s.txn_meta.gas_limit (Meter.total_gas_used s.ctx.gas_meter))
        (abort execution_proper_gas_exhausted) (pure tt)
        (Behaves-abort execution_proper_gas_exhausted) (Behaves-pure tt)

pub Behaves-unwrap :
    {WS E A : Type 0} ⦃t : WorldState WS⦄ (o : Option A) → Behaves (unwrap {WS = WS} {E = E} o)
unfolding unwrap
Behaves-unwrap none = Behaves-unwrap_failed
Behaves-unwrap (some a) = Behaves-pure a

pub ruleset behaves_rules = (
  Behaves-unwrap, Behaves-pure, Behaves-unwrap_failed, Behaves-gets, Behaves-abort, Behaves-if,
  Behaves-bind, Behaves-metered, Behaves-metered_, Behaves-abort_if_gas_exhausted,
)
