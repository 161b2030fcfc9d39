-- ===== src/Contract/Fuel.antt =====
-- As much fuel as an instance has points, and one more, is enough for it: more changes nothing.
use pchain_runtime.Prelude.{
  ℕ, zero, suc, ◌+◌, ◌&&◌, ◌-◌, ◌≤◌, ◌<◌, ◌≡◌, refl, ap, ◌∙◌, Bool, true, false, Bool-cases, inl,
  inr, none, some, ltb, arith, if◌then◌else◌,
}
use pchain_runtime.Cache.World.{WorldState}
use pchain_runtime.Word.{saturating_sub}
use pchain_runtime.State.{TransitionContext}
use pchain_runtime.Types.{Bytes}
use pchain_runtime.Network.{NetworkAccount}
use pchain_runtime.Contract.Engine.{
  Engine, HostCall, Wasm, not_callable, returns, traps, instructions, calls_host,
}
use pchain_runtime.Contract.Host.{
  Env, HostState, HostResult, Host, returned, failed, panicked, continue, ◌>>=◌, gets,
}
use pchain_runtime.Contract.Operations.{remaining_gas}
use pchain_runtime.Contract.Call.{
  Outcome, Runner, MethodResult, child_result, method_result, Instance, call_instance, call_child,
  enter_contract, call_contract, call, CallInput, host_function, import,
}
use pchain_runtime.Contract.Run.{metered, resume, run_instance, run_wasm}
use pchain_runtime.Contract.Steps.{Keeps, WritesSafely, Keeps-ok_or, Keeps-on_cache}
use pchain_runtime.Contract.Charged.{Keeps-read_bytes}
use pchain_runtime.Contract.Runs.{
  RunnerKeeps, Keeps-import, Keeps-call_child, transfer_amount-Keeps, cached_contract-step,
}
use pchain_runtime.Contract.Wasm.{run_wasm-RunnerKeeps}

-- Two ways to run a contract agree on instances with fewer points than the bound.
record RunAlike {M WS : Type 0} (bound : ℕ) (r r' : Runner M WS) : Type 0 where
  alike :
      (env : Env) (wasm : Wasm M) (h : HostState M WS)
      → h.wasmer_gas < bound
      → r env wasm h ≡ r' env wasm h

-- So do two host functions.
record ActAlike {M WS A : Type 0} (bound : ℕ) (m m' : Host M WS A) : Type 0 where
  alike : (h : HostState M WS) → h.wasmer_gas < bound → m h ≡ m' h

module _ {M WS A : Type 0} where
  ActAlike-refl : (bound : ℕ) (m : Host M WS A) → ActAlike bound m m
  ActAlike-refl bound m = record { alike = λ h e. refl }

  ActAlike-if :
      (bound : ℕ) (test : Bool) {m m' n n' : Host M WS A}
      → ActAlike bound m m'
      → ActAlike bound n n'
      → ActAlike bound (if test then m else n) (if test then m' else n')
  ActAlike-if bound true h k = h
  ActAlike-if bound false h k = k

module _ {M WS A B : Type 0} ⦃engine : Engine M⦄ ⦃t : WorldState WS⦄ where
  continue-alike :
      (bound : ℕ) (r : HostResult A) {f f' : A → Host M WS B}
      → ((a : A) → ActAlike bound (f a) (f' a))
      → (h : HostState M WS) → h.wasmer_gas < bound
      → continue r f h ≡ continue r f' h
  continue-alike bound (returned a) k h e = (k a).alike h e
  continue-alike bound (failed error) k h e = refl
  continue-alike bound panicked k h e = refl

  ActAlike-bind :
      (bound : ℕ) (view : Bool) {m m' : Host M WS A} {f f' : A → Host M WS B}
      → Keeps (WritesSafely WS engine) view m
      → ActAlike bound m m'
      → ((a : A) → ActAlike bound (f a) (f' a))
      → ActAlike bound (m >>= f) (m' >>= f')
  unfolding ◌>>=◌
  ActAlike-bind bound view {m} {m'} {f} {f'} keeps h k = record {
    alike = λ s e.
        continue-alike bound (m s).0 k (m s).1 (omega (arith, (keeps.step s).points, e))
        ∙ ap (λ (p : HostResult A × HostState M WS). continue p.0 f' p.1) (h.alike s e);
  }

module _ {M WS B : Type 0} where
  ActAlike-remaining_gas :
      (bound : ℕ) {f f' : ℕ → Host M WS B}
      → ((g : ℕ) → g < bound → ActAlike bound (f g) (f' g))
      → ActAlike bound (remaining_gas >>= f) (remaining_gas >>= f')
  unfolding ◌>>=◌ remaining_gas gets
  ActAlike-remaining_gas bound k = record { alike = λ h e. (k h.wasmer_gas e).alike h e }

ruleset alike_rules = (ActAlike-refl, ActAlike-if, ActAlike-remaining_gas, Keeps-ok_or)

module _ {M WS : Type 0} {r r' : Runner M WS} where
  call_instance-alike :
      (bound : ℕ) (env : Env) (instance : Instance M) (ctx : TransitionContext WS)
      → RunAlike bound r r'
      → env.call_tx.base_tx.gas_limit < bound
      → call_instance r env instance ctx ≡ call_instance r' env instance ctx
  unfolding call_instance
  call_instance-alike bound env (memory, none) ctx h e = refl
  call_instance-alike bound env (memory, some entrypoint) ctx h e =
      ap
        (λ (p : Outcome × HostState M WS). (
          p.1.ctx,
          saturating_sub env.call_tx.base_tx.gas_limit p.1.wasmer_gas,
          method_result p.0 p.1.wasmer_gas,
        ))
        (h.alike env entrypoint
          (record { ctx = ctx; wasmer_gas = env.call_tx.base_tx.gas_limit; memory = memory }) e)

module _ {M WS : Type 0} ⦃engine : Engine M⦄ ⦃t : WorldState WS⦄ {r r' : Runner M WS}
    (k : RunnerKeeps r) (bound : ℕ) (h : RunAlike bound r r') where
  call_child-alike :
      (env : Env) (instance : Instance M)
      → env.call_tx.base_tx.gas_limit < bound
      → ActAlike bound (call_child r env instance) (call_child r' env instance)
  unfolding call_child
  call_child-alike env instance e = record {
    alike = λ s _.
        ap
          (λ (p : TransitionContext WS × ℕ × MethodResult).
            (child_result p.1 p.2, record s { ctx = p.0 }))
          (call_instance-alike bound env instance s.ctx h e);
  }

  enter_contract-alike :
      (env : Env) (p : ℕ) (input : CallInput) (code : Bytes)
      → ActAlike bound (enter_contract r env p input code) (enter_contract r' env p input code)
  unfolding enter_contract
  enter_contract-alike env p input code =
      search (alike_rules, ActAlike-bind bound env.is_view, call_child-alike, Keeps-call_child r k)
        depth 20

  call_contract-alike :
      (env : Env) (p : ℕ) (input : CallInput)
      → ActAlike bound (call_contract r env p input) (call_contract r' env p input)
  unfolding call_contract
  call_contract-alike env p input =
      search
        (
          alike_rules,
          ActAlike-bind bound false,
          transfer_amount-Keeps false,
          Keeps-on_cache,
          cached_contract-step,
          enter_contract-alike,
        )
        depth 20

  call-alike : (env : Env) (a b c : ℕ) → ActAlike bound (call r env a b c) (call r' env a b c)
  unfolding call
  call-alike env a b c =
      search (alike_rules, ActAlike-bind bound false, Keeps-read_bytes, call_contract-alike) depth
        12

  -- Only internal calls run a contract.
  host_function-alike :
      ⦃net : NetworkAccount⦄ (env : Env) (c : HostCall)
      → ActAlike bound (host_function r env c) (host_function r' env c)
  unfolding host_function
  host_function-alike env (HostCall.set a b c d) = ActAlike-refl bound _
  host_function-alike env (HostCall.get a b c) = ActAlike-refl bound _
  host_function-alike env (HostCall.get_network_storage a b c) = ActAlike-refl bound _
  host_function-alike env HostCall.balance = ActAlike-refl bound _
  host_function-alike env HostCall.block_height = ActAlike-refl bound _
  host_function-alike env HostCall.block_timestamp = ActAlike-refl bound _
  host_function-alike env (HostCall.prev_block_hash a) = ActAlike-refl bound _
  host_function-alike env (HostCall.calling_account a) = ActAlike-refl bound _
  host_function-alike env (HostCall.current_account a) = ActAlike-refl bound _
  host_function-alike env (HostCall.method a) = ActAlike-refl bound _
  host_function-alike env (HostCall.arguments a) = ActAlike-refl bound _
  host_function-alike env HostCall.amount = ActAlike-refl bound _
  host_function-alike env HostCall.is_internal_call = ActAlike-refl bound _
  host_function-alike env (HostCall.transaction_hash a) = ActAlike-refl bound _
  host_function-alike env (HostCall.call a b c) = call-alike env a b c
  host_function-alike env (HostCall.return_value a b) = ActAlike-refl bound _
  host_function-alike env (HostCall.transfer a) = ActAlike-refl bound _
  host_function-alike env (HostCall.defer_create_deposit a b) = ActAlike-refl bound _
  host_function-alike env (HostCall.defer_set_deposit_settings a b) = ActAlike-refl bound _
  host_function-alike env (HostCall.defer_topup_deposit a b) = ActAlike-refl bound _
  host_function-alike env (HostCall.defer_withdraw_deposit a b) = ActAlike-refl bound _
  host_function-alike env (HostCall.defer_stake_deposit a b) = ActAlike-refl bound _
  host_function-alike env (HostCall.defer_unstake_deposit a b) = ActAlike-refl bound _
  host_function-alike env (HostCall.log a b) = ActAlike-refl bound _
  host_function-alike env (HostCall.sha256 a b c) = ActAlike-refl bound _
  host_function-alike env (HostCall.keccak256 a b c) = ActAlike-refl bound _
  host_function-alike env (HostCall.ripemd a b c) = ActAlike-refl bound _
  host_function-alike env (HostCall.verify_ed25519_signature a b c d) = ActAlike-refl bound _

  import-alike :
      ⦃net : NetworkAccount⦄ (env : Env) (c : HostCall)
      → ActAlike bound (import r env c) (import r' env c)
  unfolding import
  import-alike env c =
      ActAlike-if bound (env.is_view && not_callable c) (ActAlike-refl bound _)
        (host_function-alike env c)

module _ {M WS : Type 0} ⦃engine : Engine M⦄ ⦃t : WorldState WS⦄ ⦃net : NetworkAccount⦄ where
  metered-alike :
      (points : ℕ) (h : HostState M WS) (next next' : HostState M WS → Outcome × HostState M WS)
      → (points ≤ h.wasmer_gas
          → next (record h { wasmer_gas = h.wasmer_gas - points })
            ≡ next' (record h { wasmer_gas = h.wasmer_gas - points }))
      → metered points h next ≡ metered points h next'
  unfolding metered
  metered-alike points h next next' k = elim (Bool-cases (ltb h.wasmer_gas points)) [
    | inl e ↦ rw e refl
    | inr e ↦ rw e (k (ground (arith, e)))
  ]

  resume-alike :
      (r : HostResult ℕ × HostState M WS) (most : ℕ)
      {next next' : ℕ → HostState M WS → Outcome × HostState M WS}
      → r.1.wasmer_gas ≤ most
      → ((v : ℕ) (h : HostState M WS) → h.wasmer_gas ≤ most → next v h ≡ next' v h)
      → resume r next ≡ resume r next'
  resume-alike (returned v, h) most e k = k v h e
  resume-alike (failed error, h) most e k = refl
  resume-alike (panicked, h) most e k = refl

  run_instance-alike :
      {r r' : Runner M WS}
      → RunnerKeeps r
      → (bound : ℕ) → RunAlike bound r r'
      → (env : Env) (wasm : Wasm M) (h : HostState M WS) → h.wasmer_gas ≤ bound
      → run_instance r env wasm h ≡ run_instance r' env wasm h
  unfolding run_instance
  run_instance-alike k bound a env returns h e = refl
  run_instance-alike k bound a env traps h e = refl
  run_instance-alike {r} {r'} k bound a env (instructions points next) h e =
      metered-alike points h (λ h'. run_instance r env next h') (λ h'. run_instance r' env next h')
        (λ p.
          run_instance-alike k bound a env next (record h { wasmer_gas = h.wasmer_gas - points })
            (omega (arith, p, e)))
  run_instance-alike {r} {r'} k bound a env (calls_host points c memory next) h e =
      metered-alike (suc points) h
        (λ h'.
          resume (import r env c (record h' { memory = memory }))
            (λ v h''. run_instance r env (next v h''.memory) h''))
        (λ h'.
          resume (import r' env c (record h' { memory = memory }))
            (λ v h''. run_instance r' env (next v h''.memory) h''))
        (λ p.
          let s : HostState M WS = record h {
            wasmer_gas = h.wasmer_gas - suc points;
            memory = memory;
          } in
          resume-alike (import r env c s) bound
            (omega (arith, ((Keeps-import r k env c).step s).points, p, e))
            (λ v h'' d. run_instance-alike k bound a env (next v h''.memory) h'' d)
          ∙ ap (λ x. resume x (λ v h''. run_instance r' env (next v h''.memory) h''))
              ((import-alike k bound a env c).alike s (omega (arith, p, e))))

  run_wasm-alike :
      (bound fuel fuel' : ℕ)
      → bound ≤ fuel
      → bound ≤ fuel'
      → RunAlike bound (run_wasm {M = M} {WS = WS} fuel) (run_wasm fuel')
  unfolding run_wasm
  run_wasm-alike zero fuel fuel' e e' = record { alike = λ env wasm h d. absurd (omega (arith, d)) }
  run_wasm-alike (suc bound) zero fuel' e e' = absurd (omega (arith, e))
  run_wasm-alike (suc bound) (suc fuel) zero e e' = absurd (omega (arith, e'))
  run_wasm-alike (suc bound) (suc fuel) (suc fuel') e e' = record {
    alike = λ env wasm h d.
        run_instance-alike (run_wasm-RunnerKeeps fuel) bound
          (run_wasm-alike bound fuel fuel' (omega (arith, e)) (omega (arith, e'))) env wasm h
          (omega (arith, d));
  }

  -- Fuel for one unit more than its gas limit is enough for a contract, whatever it does and
  -- however contracts call each other: with any more its call has the same context, gas and error.
  pub call_instance_lem :
      (env : Env) (instance : Instance M) (ctx : TransitionContext WS) (extra : ℕ)
      → let enough = suc env.call_tx.base_tx.gas_limit in
        call_instance (run_wasm (enough + extra)) env instance ctx
        ≡ call_instance (run_wasm enough) env instance ctx
  call_instance_lem env instance ctx extra =
      let enough = suc env.call_tx.base_tx.gas_limit in
      call_instance-alike enough env instance ctx
        (run_wasm-alike enough (enough + extra) enough (omega arith) (omega arith)) (omega arith)
