-- ===== src/Contract/Steps.antt =====
-- What every step of a host function keeps: the counters of the gas meter, the validity of the cache,
-- and, in a view, the pending writes.
use pchain_runtime.Prelude.{
  ℕ, ◌≤◌, ◌≡◌, refl, ◌∙◌, Bool, true, false, Option, none, some, List, [], ◌∷◌, ◌++◌, arith,
  if◌then◌else◌,
}
use pchain_runtime.Types.{Bytes, Command, DeferredCommand}
use pchain_runtime.Cache.World.{WorldState, WorldStateCache}
use pchain_runtime.Cache.World.Laws.{IsValid, pending}
use pchain_runtime.Cache.Output.{CommandOutputCache}
use pchain_runtime.Gas.Operations.{Operation, OperationReceipt}
use pchain_runtime.State.{TransitionContext}
use pchain_runtime.Execution.Behaves.{IsMeterStep, IsMeterStep-refl, IsMeterStep-trans}
use pchain_runtime.Contract.Host.{
  Env, FuncError, HostState, HostResult, Host, pure, fail, ok_or, gets, returned, failed, panicked,
  has_panicked, deduct_gas, continue, subtract_gas, with_host_output, ◌>>=◌, host_cache,
}
use pchain_runtime.Contract.Engine.{Engine}
use pchain_runtime.Contract.Operations.{charge, on_cache, write_bytes}

abbrev pub is_deposit_command : Command → Bool
is_deposit_command (Command.create_deposit _ _ _) = true
is_deposit_command (Command.set_deposit_settings _ _) = true
is_deposit_command (Command.top_up_deposit _ _) = true
is_deposit_command (Command.withdraw_deposit _ _) = true
is_deposit_command (Command.stake_deposit _ _) = true
is_deposit_command (Command.unstake_deposit _ _) = true
is_deposit_command _ = false

-- The deferred commands change deposits, and nothing else.
abbrev pub AreDepositCommands : List DeferredCommand → Type 0
AreDepositCommands [] = Unit
AreDepositCommands (d ∷ ds) = (is_deposit_command d.command ≡ true) × AreDepositCommands ds

pub AreDepositCommands-append :
    (ds : List DeferredCommand) (d : DeferredCommand)
    → AreDepositCommands ds
    → is_deposit_command d.command ≡ true
    → AreDepositCommands (ds ++ d ∷ [])
AreDepositCommands-append [] d h e = (e, tt)
AreDepositCommands-append (x ∷ ds) d h e = (h.0, AreDepositCommands-append ds d h.1 e)

-- What a view leaves alone.
pub record IsUnwritten {WS : Type 0} (c c' : TransitionContext WS) : Type 0 where
  pub pending_kept : pending c'.gas_meter.ws_cache ≡ pending c.gas_meter.ws_cache
  pub deferred_kept : c'.deferred_commands ≡ c.deferred_commands

pub record IsContextStep {WS : Type 0} ⦃t : WorldState WS⦄ (view : Bool)
    (c c' : TransitionContext WS) : Type 0 where
  pub meter : IsMeterStep c.gas_meter c'.gas_meter
  pub current : c'.gas_meter.gas_used_for_current_command ≡ c.gas_meter.gas_used_for_current_command
  pub deferred : AreDepositCommands c.deferred_commands → AreDepositCommands c'.deferred_commands
  pub unwritten : view ≡ true → IsUnwritten c c'

pub record IsHostStep {M WS : Type 0} ⦃t : WorldState WS⦄ (view : Bool) (h h' : HostState M WS)
    : Type 0 where
  pub context : IsContextStep view h.ctx h'.ctx
  pub points : h'.wasmer_gas ≤ h.wasmer_gas

module _ {WS : Type 0} ⦃t : WorldState WS⦄ where
  pub IsContextStep-refl : (view : Bool) (c : TransitionContext WS) → IsContextStep view c c
  IsContextStep-refl view c = record {
    meter = IsMeterStep-refl c.gas_meter;
    current = refl;
    deferred = λ h. h;
    unwritten = λ e. record { pending_kept = refl; deferred_kept = refl };
  }

  pub IsContextStep-trans :
      {view : Bool} {a b c : TransitionContext WS}
      → IsContextStep view a b
      → IsContextStep view b c
      → IsContextStep view a c
  IsContextStep-trans p q = record {
    meter = IsMeterStep-trans p.meter q.meter;
    current = q.current ∙ p.current;
    deferred = λ h. q.deferred (p.deferred h);
    unwritten = λ e. record {
      pending_kept = (q.unwritten e).pending_kept ∙ (p.unwritten e).pending_kept;
      deferred_kept = (q.unwritten e).deferred_kept ∙ (p.unwritten e).deferred_kept;
    };
  }

module _ {M WS : Type 0} ⦃t : WorldState WS⦄ where
  pub IsHostStep-refl : (view : Bool) (h : HostState M WS) → IsHostStep view h h
  IsHostStep-refl view h = record { context = IsContextStep-refl view h.ctx; points = omega arith }

  pub IsHostStep-trans :
      {view : Bool} {a b c : HostState M WS}
      → IsHostStep view a b
      → IsHostStep view b c
      → IsHostStep view a c
  IsHostStep-trans p q = record {
    context = IsContextStep-trans p.context q.context;
    points = omega (arith, p.points, q.points);
  }

  -- Points spent, in the same context.
  pub IsHostStep-subtract_gas :
      (view : Bool) (amount : ℕ) (h : HostState M WS) → IsHostStep view h (subtract_gas amount h)
  unfolding subtract_gas
  IsHostStep-subtract_gas view amount h = record {
    context = IsContextStep-refl view h.ctx;
    points = omega arith;
  }

module _ {M WS : Type 0} ⦃t : WorldState WS⦄ where
  -- A change of the command's output.
  pub IsHostStep-output :
      (view : Bool) (output : CommandOutputCache) (h : HostState M WS)
      → IsHostStep view h (with_host_output output h)
  IsHostStep-output view output h = record {
    context = record {
      meter = record {
        same = record {
          version = refl;
          gas_limit = refl;
          inclusion = refl;
          total = refl;
          ws = refl;
        };
        valid = λ d. d;
      };
      current = refl;
      deferred = λ d. d;
      unwritten = λ e. record { pending_kept = refl; deferred_kept = refl };
    };
    points = omega arith;
  }

-- Under the condition `S` there is no panic either.
pub record Keeps {M WS A : Type 0} ⦃t : WorldState WS⦄ (S : Type 0) (view : Bool) (m : Host M WS A)
    : Type 0 where
  pub step : (h : HostState M WS) → IsHostStep view h (m h).1
  pub calm : S → (h : HostState M WS) → has_panicked (m h).0 ≡ false

-- A step of the cache alone.
pub record IsCacheStep {WS : Type 0} ⦃t : WorldState WS⦄ (view : Bool) (c c' : WorldStateCache WS)
    : Type 0 where
  pub ws : c'.ws ≡ c.ws
  pub valid : IsValid c → IsValid c'
  pub unwritten : view ≡ true → pending c' ≡ pending c

module _ {M WS A : Type 0} ⦃t : WorldState WS⦄ where
  pub Keeps-pure : {S : Type 0} (view : Bool) (a : A) → Keeps S view (pure {M = M} {WS = WS} a)
  unfolding pure
  Keeps-pure view a = record { step = λ h. IsHostStep-refl view h; calm = λ s h. refl }

  pub Keeps-fail :
      {S : Type 0} (view : Bool) (e : FuncError) → Keeps S view (fail {M = M} {WS = WS} {A = A} e)
  unfolding fail
  Keeps-fail view e = record { step = λ h. IsHostStep-refl view h; calm = λ s h. refl }

  pub Keeps-gets : {S : Type 0} (view : Bool) (f : HostState M WS → A) → Keeps S view (gets f)
  unfolding gets
  Keeps-gets view f = record { step = λ h. IsHostStep-refl view h; calm = λ s h. refl }

  pub Keeps-ok_or :
      {S : Type 0} (view : Bool) (e : FuncError) (a : Option A)
      → Keeps S view (ok_or {M = M} {WS = WS} e a)
  unfolding ok_or
  Keeps-ok_or view e none = Keeps-fail view e
  Keeps-ok_or view e (some a) = Keeps-pure view a

  pub Keeps-charge :
      {S : Type 0} (view : Bool) (r : OperationReceipt A)
      → Keeps S view (charge {M = M} {WS = WS} r)
  unfolding charge
  Keeps-charge view (a, change) = record {
    step = λ h. IsHostStep-subtract_gas view _ h;
    calm = λ s h. refl;
  }

  pub Keeps-on_cache :
      {S : Type 0} (view : Bool) (op : Operation WS A)
      → ((c : WorldStateCache WS) → IsCacheStep view c (op c).1)
      → Keeps S view (on_cache {M = M} op)
  unfolding on_cache charge subtract_gas
  Keeps-on_cache view op k = record {
    step = λ h. record {
      context = record {
        meter = record {
          same = record {
            version = refl;
            gas_limit = refl;
            inclusion = refl;
            total = refl;
            ws = (k (host_cache h)).ws;
          };
          valid = (k (host_cache h)).valid;
        };
        current = refl;
        deferred = λ d. d;
        unwritten =
            λ e. record { pending_kept = (k (host_cache h)).unwritten e; deferred_kept = refl };
      };
      points = omega arith;
    };
    calm = λ s h. refl;
  }

  pub Keeps-if :
      {S : Type 0} (view test : Bool) {m n : Host M WS A}
      → Keeps S view m
      → Keeps S view n
      → Keeps S view (if test then m else n)
  Keeps-if view true h k = h
  Keeps-if view false h k = k

  -- Behind a guard.
  pub Keeps-guard :
      {S : Type 0} (view test : Bool) {m n : Host M WS A}
      → Keeps S view m
      → (test ≡ false → Keeps S view n)
      → Keeps S view (if test then m else n)
  Keeps-guard view true h k = h
  Keeps-guard view false h k = k refl

  -- What writes is not reached in a view.
  pub Keeps-write :
      {S : Type 0} (view : Bool) {m : Host M WS A}
      → (view ≡ true → true ≡ false)
      → Keeps S false m
      → Keeps S view m
  Keeps-write true h k = absurd (cc (h refl))
  Keeps-write false h k = k

module _ {M WS : Type 0} ⦃t : WorldState WS⦄ where
  pub Keeps-deduct_gas :
      {S : Type 0} (view : Bool) (amount : ℕ) → Keeps S view (deduct_gas {M = M} {WS = WS} amount)
  unfolding deduct_gas
  Keeps-deduct_gas view amount = record {
    step = λ h. IsHostStep-subtract_gas view amount h;
    calm = λ s h. refl;
  }

module _ {M WS A B : Type 0} ⦃t : WorldState WS⦄ where
  continue-Keeps :
      {S : Type 0} (view : Bool) (r : HostResult A) (f : A → Host M WS B)
      → ((a : A) → Keeps S view (f a))
      → (h : HostState M WS) → IsHostStep view h (continue r f h).1
  continue-Keeps view (returned a) f k h = (k a).step h
  continue-Keeps view (failed e) f k h = IsHostStep-refl view h
  continue-Keeps view panicked f k h = IsHostStep-refl view h

  continue-calm :
      {S : Type 0} (view : Bool) (r : HostResult A) (f : A → Host M WS B)
      → ((a : A) → Keeps S view (f a))
      → S
      → (h : HostState M WS) → has_panicked r ≡ false
      → has_panicked (continue r f h).0 ≡ false
  continue-calm view (returned a) f k s h e = (k a).calm s h
  continue-calm view (failed e) f k s h d = refl
  continue-calm view panicked f k s h e = e

  pub Keeps-bind :
      {S : Type 0} (view : Bool) {m : Host M WS A} {f : A → Host M WS B}
      → Keeps S view m
      → ((a : A) → Keeps S view (f a))
      → Keeps S view (m >>= f)
  unfolding ◌>>=◌
  Keeps-bind view {m} {f} hm hf = record {
    step = λ h. IsHostStep-trans (hm.step h) (continue-Keeps view (m h).0 f hf (m h).1);
    calm = λ s h. continue-calm view (m h).0 f hf s (m h).1 (hm.calm s h);
  }

-- No write of a host function to the memory panics.
pub record WritesSafely {M : Type 0} (WS : Type 0) (engine : Engine M) : Type 0 where
  pub safe :
      (env : Env) (value : Bytes) (p : ℕ) (h : HostState M WS)
      → has_panicked (write_bytes ⦃engine = engine⦄ env value p h).0 ≡ false

pub ruleset host_rules = (
  Keeps-pure, Keeps-fail, Keeps-gets, Keeps-ok_or, Keeps-charge, Keeps-deduct_gas, Keeps-if,
  Keeps-bind,
)
