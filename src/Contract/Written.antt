-- ===== src/Contract/Written.antt =====
-- The writing of bytes to the memory of an instance keeps what a step must keep.
use pchain_runtime.Prelude.{
  ℕ, suc, ◌-◌, ◌≤◌, Bool, Bool-cases, inl, inr, ◌&&◌, Option, none, some, ltb, arith, if◌then◌else◌,
}
use pchain_runtime.Types.{Bytes}
use pchain_runtime.Cache.World.{WorldState}
use pchain_runtime.Contract.Engine.{Engine, Alloc, not_callable}
use pchain_runtime.Contract.Host.{
  FuncError, Env, HostState, HostResult, Host, returned, failed, panicked, fail, unwrap_failed,
}
use pchain_runtime.Contract.Memory.{
  run_alloc, alloc_metered, alloc_resume, answer_unlocked, set_memory, write_segment, write_offset,
  write_bytes_to_memory,
}
use pchain_runtime.Contract.Operations.{write_bytes, attempt, caught}
use pchain_runtime.Contract.Steps.{
  Keeps, IsHostStep, IsHostStep-refl, IsHostStep-trans, IsContextStep-refl, WritesSafely,
  host_rules,
}
use pchain_runtime.Contract.Charged.{Keeps-read_bytes}

module _ {M WS : Type 0} ⦃t : WorldState WS⦄ where
  memory-step :
      (view : Bool) (points : ℕ) (memory : M) (h : HostState M WS)
      → points ≤ h.wasmer_gas
      → IsHostStep view h (record h { wasmer_gas = points; memory = memory })
  memory-step view points memory h e = record {
    context = IsContextStep-refl view h.ctx;
    points = e;
  }

  alloc_metered-step :
      (view : Bool) (points : ℕ) (h : HostState M WS)
      (next : HostState M WS → HostResult ℕ × HostState M WS)
      → ((h' : HostState M WS) → IsHostStep view h' (next h').1)
      → IsHostStep view h (alloc_metered points h next).1
  alloc_metered-step view points h next k = elim (Bool-cases (ltb h.wasmer_gas points)) [
    | inl e ↦ rw e (memory-step view 0 h.memory h (omega arith))
    | inr e ↦ rw e (
        IsHostStep-trans (memory-step view (h.wasmer_gas - points) h.memory h (omega arith))
          (k (record h { wasmer_gas = h.wasmer_gas - points })))
  ]

  alloc_resume-step :
      (view : Bool) (answer : Option ℕ) (next : ℕ → HostState M WS → HostResult ℕ × HostState M WS)
      (h : HostState M WS)
      → ((v : ℕ) (h' : HostState M WS) → IsHostStep view h' (next v h').1)
      → IsHostStep view h (alloc_resume answer next h).1
  alloc_resume-step view none next h k = IsHostStep-refl view h
  alloc_resume-step view (some v) next h k = k v h

  run_alloc-step :
      (view : Bool) (env : Env) (tree : Alloc M) (h : HostState M WS)
      → IsHostStep view h (run_alloc env tree h).1
  unfolding run_alloc
  run_alloc-step view env (Alloc.returns p memory) h =
      memory-step view h.wasmer_gas memory h (omega arith)
  run_alloc-step view env Alloc.traps h = IsHostStep-refl view h
  run_alloc-step view env (Alloc.instructions points next) h =
      alloc_metered-step view points h (λ h'. run_alloc env next h')
        (λ h'. run_alloc-step view env next h')
  run_alloc-step view env (Alloc.calls_host points c memory next) h =
      let after : HostState M WS → HostResult ℕ × HostState M WS = λ h'.
        if env.is_view && not_callable c
        then (failed FuncError.runtime, record h' { memory = memory })
        else alloc_resume (answer_unlocked env c) (λ v h''. run_alloc env (next v) h'')
            (record h' { memory = memory }) in
      alloc_metered-step view (suc points) h after (λ h'.
        elim (Bool-cases (env.is_view && not_callable c)) [
          | inl e ↦ rw e (memory-step view h'.wasmer_gas memory h' (omega arith))
          | inr e ↦ rw e (
              IsHostStep-trans (memory-step view h'.wasmer_gas memory h' (omega arith)) (
                alloc_resume-step view (answer_unlocked env c) (λ v h''. run_alloc env (next v) h'')
                  (record h' { memory = memory }) (λ v h''. run_alloc-step view env (next v) h'')))
        ])

  never :
      {A : Type 0} {m : Host M WS A} (view : Bool)
      → ((h : HostState M WS) → IsHostStep view h (m h).1)
      → Keeps ⊥ view m
  never view k = record { step = k; calm = λ s h. absurd s }

  set_memory-step :
      (view : Bool) (memory : M) (h : HostState M WS) → IsHostStep view h (set_memory memory h).1
  unfolding set_memory
  set_memory-step view memory h = memory-step view h.wasmer_gas memory h (omega arith)

  write_segment-step :
      (view : Bool) (value : Bytes) (segment : Option (Bytes → M)) (h : HostState M WS)
      → IsHostStep view h (write_segment value segment h).1
  unfolding write_segment fail
  write_segment-step view value none h = IsHostStep-refl view h
  write_segment-step view value (some segment) h = set_memory-step view (segment value) h

  write_offset-step :
      (view : Bool) (offset : ℕ) (segment : Option (ℕ → M)) (h : HostState M WS)
      → IsHostStep view h (write_offset offset segment h).1
  unfolding write_offset unwrap_failed
  write_offset-step view offset none h = IsHostStep-refl view h
  write_offset-step view offset (some segment) h = set_memory-step view (segment offset) h

module _ {M WS A : Type 0} ⦃t : WorldState WS⦄ where
  caught-step :
      (view : Bool) (h : HostState M WS) (r : HostResult A × HostState M WS)
      → IsHostStep view h r.1
      → IsHostStep view h (caught r).1
  caught-step view h (returned a, h') e = e
  caught-step view h (failed error, h') e = e
  caught-step view h (panicked, h') e = e

  Keeps-attempt : (view : Bool) {m : Host M WS A} → Keeps ⊥ view m → Keeps ⊥ view (attempt m)
  unfolding attempt
  Keeps-attempt view {m} k = record {
    step = λ h. caught-step view h (m h) (k.step h);
    calm = λ s h. absurd s;
  }

module _ {M WS : Type 0} ⦃engine : Engine M⦄ ⦃t : WorldState WS⦄ where
  Keeps-run_alloc :
      (view : Bool) (env : Env) (tree : Alloc M) → Keeps ⊥ view (run_alloc {WS = WS} env tree)
  Keeps-run_alloc view env tree = never view (run_alloc-step view env tree)

  Keeps-write_segment :
      (view : Bool) (value : Bytes) (segment : Option (Bytes → M))
      → Keeps ⊥ view (write_segment {WS = WS} value segment)
  Keeps-write_segment view value segment = never view (write_segment-step view value segment)

  Keeps-write_offset :
      (view : Bool) (offset : ℕ) (segment : Option (ℕ → M))
      → Keeps ⊥ view (write_offset {WS = WS} offset segment)
  Keeps-write_offset view offset segment = never view (write_offset-step view offset segment)

  written-Keeps :
      (view : Bool) (env : Env) (value : Bytes) (p : ℕ)
      → Keeps ⊥ view (write_bytes {M = M} {WS = WS} env value p)
  unfolding write_bytes write_bytes_to_memory
  written-Keeps view env value p =
      search (host_rules, Keeps-attempt, Keeps-run_alloc, Keeps-write_segment, Keeps-write_offset)
        depth 24

  pub Keeps-write_bytes :
      (view : Bool) (env : Env) (value : Bytes) (p : ℕ)
      → Keeps (WritesSafely WS engine) view (write_bytes {M = M} {WS = WS} env value p)
  Keeps-write_bytes view env value p = record {
    step = λ h. (written-Keeps view env value p).step h;
    calm = λ s h. s.safe env value p h;
  }

pub ruleset memory_rules = (host_rules, Keeps-read_bytes, Keeps-write_bytes)
