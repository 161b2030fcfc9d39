-- ===== src/Contract/Wasm.antt =====
-- The running of a contract keeps what its host functions keep, and as much fuel as the instance has
-- points is enough for it: more changes nothing.
use pchain_runtime.Prelude.{
  ℕ, zero, suc, ◌-◌, ◌≤◌, ◌≡◌, refl, false, Bool, Bool-cases, inl, inr, ltb, arith,
}
use pchain_runtime.Cache.World.{WorldState}
use pchain_runtime.Network.{NetworkAccount}
use pchain_runtime.Contract.Engine.{Engine, Wasm, returns, traps, instructions, calls_host}
use pchain_runtime.Contract.Host.{
  Env, HostState, HostResult, returned, failed, panicked, has_panicked,
}
use pchain_runtime.Contract.Call.{Outcome, outcome_panicked, Runner, import}
use pchain_runtime.Contract.Run.{exhausted, metered, resume, run_instance, run_wasm}
use pchain_runtime.Contract.Steps.{
  WritesSafely, IsHostStep, IsContextStep-refl, IsHostStep-trans, IsHostStep-refl,
}
use pchain_runtime.Contract.Runs.{RunnerKeeps, Keeps-import}

module _ {M WS : Type 0} ⦃engine : Engine M⦄ ⦃t : WorldState WS⦄ ⦃net : NetworkAccount⦄ where
  metered-step :
      (view : Bool) (memory : M) (points : ℕ) (h : HostState M WS)
      → points ≤ h.wasmer_gas
      → IsHostStep view h (record h { wasmer_gas = points; memory = memory })
  metered-step view memory points h e = record {
    context = IsContextStep-refl view h.ctx;
    points = e;
  }

  exhausted-step : (view : Bool) (h : HostState M WS) → IsHostStep view h (exhausted h).1
  exhausted-step view h = record { context = IsContextStep-refl view h.ctx; points = omega arith }

  metered-steps :
      (view : Bool) (points : ℕ) (h : HostState M WS)
      (next : HostState M WS → Outcome × HostState M WS)
      → ((h' : HostState M WS) → IsHostStep view h' (next h').1)
      → IsHostStep view h (metered points h next).1
  unfolding metered
  metered-steps view points h next k = elim (Bool-cases (ltb h.wasmer_gas points)) [
    | inl e ↦ rw e (exhausted-step view h)
    | inr e ↦ rw e (
        IsHostStep-trans (metered-step view h.memory (h.wasmer_gas - points) h (omega arith))
          (k (record h { wasmer_gas = h.wasmer_gas - points })))
  ]

  resume-step :
      (view : Bool) (h : HostState M WS) (r : HostResult ℕ × HostState M WS)
      (next : ℕ → HostState M WS → Outcome × HostState M WS)
      → IsHostStep view h r.1
      → ((v : ℕ) (h' : HostState M WS) → IsHostStep view h' (next v h').1)
      → IsHostStep view h (resume r next).1
  resume-step view h (returned v, h') next e k = IsHostStep-trans e (k v h')
  resume-step view h (failed error, h') next e k = e
  resume-step view h (panicked, h') next e k = e

  metered-calm :
      (points : ℕ) (h : HostState M WS) (next : HostState M WS → Outcome × HostState M WS)
      → ((h' : HostState M WS) → outcome_panicked (next h').0 ≡ false)
      → outcome_panicked (metered points h next).0 ≡ false
  unfolding metered
  metered-calm points h next k = elim (Bool-cases (ltb h.wasmer_gas points)) [
    | inl e ↦ rw e refl
    | inr e ↦ rw e (k (record h { wasmer_gas = h.wasmer_gas - points }))
  ]

  resume-calm :
      (r : HostResult ℕ × HostState M WS) (next : ℕ → HostState M WS → Outcome × HostState M WS)
      → has_panicked r.0 ≡ false
      → ((v : ℕ) (h : HostState M WS) → outcome_panicked (next v h).0 ≡ false)
      → outcome_panicked (resume r next).0 ≡ false
  resume-calm (returned v, h) next e k = k v h
  resume-calm (failed error, h) next e k = refl
  resume-calm (panicked, h) next e k = absurd (cc e)

  run_instance-step :
      (run : Runner M WS)
      → RunnerKeeps run
      → (env : Env) (wasm : Wasm M) (h : HostState M WS)
      → IsHostStep env.is_view h (run_instance run env wasm h).1
  unfolding run_instance
  run_instance-step run k env returns h = IsHostStep-refl env.is_view h
  run_instance-step run k env traps h = IsHostStep-refl env.is_view h
  run_instance-step run k env (instructions points next) h =
      metered-steps env.is_view points h (λ h'. run_instance run env next h')
        (λ h'. run_instance-step run k env next h')
  run_instance-step run k env (calls_host points c memory next) h =
      let after : ℕ → HostState M WS → Outcome × HostState M WS =
        λ v h''. run_instance run env (next v h''.memory) h'' in
      metered-steps env.is_view (suc points) h
        (λ h'. resume (import run env c (record h' { memory = memory })) after)
        (λ h'.
          resume-step env.is_view h' (import run env c (record h' { memory = memory })) after
            (IsHostStep-trans (metered-step env.is_view memory h'.wasmer_gas h' (omega arith))
              ((Keeps-import run k env c).step (record h' { memory = memory })))
            (λ v h''. run_instance-step run k env (next v h''.memory) h''))

  run_instance-calm :
      (run : Runner M WS)
      → RunnerKeeps run
      → WritesSafely WS engine
      → (env : Env) (wasm : Wasm M) (h : HostState M WS)
      → outcome_panicked (run_instance run env wasm h).0 ≡ false
  unfolding run_instance
  run_instance-calm run k s env returns h = refl
  run_instance-calm run k s env traps h = refl
  run_instance-calm run k s env (instructions points next) h =
      metered-calm points h (λ h'. run_instance run env next h')
        (λ h'. run_instance-calm run k s env next h')
  run_instance-calm run k s env (calls_host points c memory next) h =
      let after : ℕ → HostState M WS → Outcome × HostState M WS =
        λ v h''. run_instance run env (next v h''.memory) h'' in
      metered-calm (suc points) h
        (λ h'. resume (import run env c (record h' { memory = memory })) after)
        (λ h'.
          resume-calm (import run env c (record h' { memory = memory })) after
            ((Keeps-import run k env c).calm s (record h' { memory = memory }))
            (λ v h''. run_instance-calm run k s env (next v h''.memory) h''))

  pub run_wasm-RunnerKeeps : (fuel : ℕ) → RunnerKeeps (run_wasm {M = M} {WS = WS} fuel)
  unfolding run_wasm
  run_wasm-RunnerKeeps zero = record {
    step = λ env wasm h. exhausted-step env.is_view h;
    calm = λ s env wasm h. refl;
  }
  run_wasm-RunnerKeeps (suc fuel) = record {
    step = λ env wasm h. run_instance-step (run_wasm fuel) (run_wasm-RunnerKeeps fuel) env wasm h;
    calm =
        λ s env wasm h. run_instance-calm (run_wasm fuel) (run_wasm-RunnerKeeps fuel) s env wasm h;
  }
