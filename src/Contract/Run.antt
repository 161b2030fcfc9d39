-- ===== src/Contract/Run.antt =====
-- The running of a contract: its instructions are metered, and its calls of host functions served, to
-- any depth of calls among contracts (src/contract/wasmer/instance.rs, src/contract/instance.rs).
use pchain_runtime.Prelude.{ℕ, zero, suc, ◌-◌, none, some, ltb, if◌then◌else◌}
use pchain_runtime.Cache.World.{WorldState}
use pchain_runtime.Network.{NetworkAccount}
use pchain_runtime.Contract.Engine.{Engine, returns, traps, instructions, calls_host}
use pchain_runtime.Contract.Host.{HostState, HostResult, returned, failed}
use pchain_runtime.Contract.Call.{Outcome, Runner, import}

module _ {M WS : Type 0} ⦃engine : Engine M⦄ ⦃t : WorldState WS⦄ ⦃net : NetworkAccount⦄ where
  abbrev pub exhausted : HostState M WS → Outcome × HostState M WS
  exhausted h = (Outcome.trapped none, record h { wasmer_gas = 0 })

  -- Metered instructions: what follows them runs if there are points for them.
  unfoldable pub metered :
      ℕ → HostState M WS → (HostState M WS → Outcome × HostState M WS) → Outcome × HostState M WS
  metered points h next =
      if ltb h.wasmer_gas points
      then exhausted h
      else next (record h { wasmer_gas = h.wasmer_gas - points })

  -- An error of a host function traps the instance.
  abbrev pub resume :
      HostResult ℕ × HostState M WS
      → (ℕ → HostState M WS → Outcome × HostState M WS)
      → Outcome × HostState M WS
  resume (returned value, h) next = next value h
  resume (failed error, h) next = (Outcome.trapped (some error), h)
  resume (HostResult.panicked, h) next = (Outcome.panicked, h)

  -- The instance's own execution, with a way to run the contracts that it calls.
  unfoldable pub run_instance : Runner M WS → Runner M WS
  unfolding import metered
  run_instance run_child env returns h = (Outcome.finished, h)
  run_instance run_child env traps h = (Outcome.trapped none, h)
  run_instance run_child env (instructions points next) h =
      metered points h (λ h'. run_instance run_child env next h')
  run_instance run_child env (calls_host points c memory next) h = metered (suc points) h (λ h'.
      resume (import run_child env c (record h' { memory = memory }))
        (λ value h''. run_instance run_child env (next value h''.memory) h''))

  -- The fuel bounds the depth of calls; every call of a host function costs a point, so as much fuel
  -- as points is enough, and then its end means that no point is left.
  unfoldable pub run_wasm : ℕ → Runner M WS
  unfolding run_instance
  run_wasm zero env wasm h = exhausted h
  run_wasm (suc fuel) env wasm h = run_instance (run_wasm fuel) env wasm h
