-- ===== src/Executor/Order.antt =====
-- The order of the commands, and the end of the loop: the stack of executor.rs against a definition
-- with no stack and no fuel.
use pchain_runtime.Prelude.{
  ℕ, ◌+◌, ◌-◌, ◌≤◌, zero, suc, ◌≡◌, refl, ap, subst, ◌∙◌, Option, none, some, List, [], ◌∷◌, ◌++◌,
  map, length, arith,
}
use pchain_runtime.Error.{Result, ok, err, panic}
use pchain_runtime.Types.{Command, DeferredCommand}
use pchain_runtime.Cache.World.{WorldState}
use pchain_runtime.Cache.Receipt.{ReceiptFormat}
use pchain_runtime.State.{ExecutionState}
use pchain_runtime.Execution.{Execution, pure, continue, ◌>>=◌, ◌>>◌}
use pchain_runtime.Network.{NetworkAccount}
use pchain_runtime.Phases.{pre_charge}
use pchain_runtime.Executor.{
  Contracts, ExecutableCommand, transaction_command, deferred_command, ExecutableCommands, new,
  next_command, Transition, handle_abort, handle_charge, run_command, run_commands, push_if_any,
  next_index, finish_command, handle_command_execution_result, execute_commands, run_pre_charged,
  handle_precharge_error,
}
use pchain_runtime.Executor.Stack.{stack_of, stack_of_lem}

-- One more unit of fuel for each command.
abbrev more {ℓ} : {A : Type ℓ} → List A → ℕ → ℕ
more [] fuel = fuel
more (x ∷ xs) fuel = suc (more xs fuel)

more_rest {ℓ} :
    {A : Type ℓ} (xs : List A) (fuel : ℕ) → length xs ≤ fuel → more xs (fuel - length xs) ≡ fuel
more_rest [] fuel h = omega arith
more_rest (x ∷ xs) zero h = absurd (omega arith)
more_rest (x ∷ xs) (suc fuel) h =
    ap suc (ap (more xs) (omega arith) ∙ more_rest xs fuel (omega arith))

from_suc : (P : ℕ → Type 0) (n fuel : ℕ) → suc n ≤ fuel → ((k : ℕ) → n ≤ k → P (suc k)) → P fuel
from_suc P n zero h p = absurd (omega arith)
from_suc P n (suc k) h p = p k (omega arith)

abbrev pub to_list : Option (List DeferredCommand) → List DeferredCommand
to_list none = []
to_list (some commands) = commands

module _ {WS E R : Type 0} (format : ReceiptFormat E R) ⦃t : WorldState WS⦄ where
  -- The charge phase after the commands, by their result; `none` for a panic.
  abbrev pub conclude : Result (Unit {0}) × ExecutionState WS E → Option (Transition WS R)
  conclude (ok _, s) = handle_charge format s
  conclude (err error, s) = handle_abort format s error
  conclude (panic, s) = none

module _ {WS E R : Type 0} (format : ReceiptFormat E R) ⦃t : WorldState WS⦄ ⦃net : NetworkAccount⦄
    (contracts : Contracts WS E) where
  -- The commands of a transaction one after the other, each followed by those it defers.
  unfoldable pub run_deferred : List DeferredCommand → ℕ → Execution WS E (Unit {0})
  run_deferred [] i = pure tt
  run_deferred (d ∷ ds) i = run_command format contracts (deferred_command d) i >> run_deferred ds i

  unfoldable pub run_all : List Command → ℕ → Execution WS E (Unit {0})
  unfolding run_deferred
  run_all [] i = pure tt
  run_all (c ∷ cs) i = do
    deferred ← run_command format contracts (transaction_command c) i
    run_deferred (to_list deferred) (i + 1)
    run_all cs (i + 1)

  abbrev resume :
      ℕ
      → List ExecutableCommand
      → ℕ
      → Result (Unit {0}) × ExecutionState WS E
      → Option (Option (Transition WS R))
  resume fuel queue i (ok _, s) = run_commands format contracts fuel (stack_of queue) i s
  resume fuel queue i (err error, s) = some (handle_abort format s error)
  resume fuel queue i (panic, s) = some none

  abbrev after :
      ℕ
      → List ExecutableCommand
      → ExecutableCommand
      → ℕ
      → Result (Option (List DeferredCommand)) × ExecutionState WS E
      → Option (Option (Transition WS R))
  after fuel queue c i (ok deferred, s) =
      run_commands format contracts fuel
        (stack_of (map deferred_command (to_list deferred) ++ queue))
        (next_index format contracts c i) s
  after fuel queue c i (err error, s) = some (handle_abort format s error)
  after fuel queue c i (panic, s) = some none

  push_if_any_lem :
      (deferred : Option (List DeferredCommand)) (queue : List ExecutableCommand)
      → push_if_any deferred (stack_of queue)
        ≡ stack_of (map deferred_command (to_list deferred) ++ queue)
  push_if_any_lem none queue = refl
  push_if_any_lem (some ds) queue = stack_of_lem.3 ds queue

  after_lem :
      (fuel : ℕ) (c : ExecutableCommand) (queue : List ExecutableCommand) (i : ℕ)
      (r : Result (Option (List DeferredCommand))) (s : ExecutionState WS E)
      → elim r [
        | ok deferred ↦
            run_commands format contracts fuel
              (push_if_any deferred (stack_of queue))
              (next_index format contracts c i)
              s
        | err error ↦ some (handle_abort format s error)
        | panic ↦ some none
      ]
        ≡ after fuel queue c i (r, s)
  after_lem fuel c queue i (ok deferred) s =
      ap (λ rest. run_commands format contracts fuel rest (next_index format contracts c i) s)
        (push_if_any_lem deferred queue)
  after_lem fuel c queue i (err error) s = refl
  after_lem fuel c queue i panic s = refl

  run_commands-next :
      (fuel : ℕ) (stack : ExecutableCommands) (c : ExecutableCommand)
      (queue : List ExecutableCommand) (i : ℕ) (s : ExecutionState WS E)
      → next_command stack ≡ some (c, stack_of queue)
      → run_commands format contracts (suc fuel) stack i s
        ≡ after fuel queue c i (run_command format contracts c i s)
  unfolding run_commands
  run_commands-next fuel stack c queue i s h =
      let (result, s') = run_command format contracts c i s in
      rw (h, run_commands) (after_lem fuel c queue i result s')

  run_commands-cons :
      (fuel : ℕ) (c : ExecutableCommand) (queue : List ExecutableCommand) (i : ℕ)
      (s : ExecutionState WS E)
      → run_commands format contracts (suc fuel) (stack_of (c ∷ queue)) i s
        ≡ after fuel queue c i (run_command format contracts c i s)
  run_commands-cons fuel c queue i s =
      run_commands-next fuel (stack_of (c ∷ queue)) c queue i s (stack_of_lem.2 c queue)

  -- A deferred command defers none.
  run_command-deferred :
      (d : DeferredCommand) (i : ℕ) (s : ExecutionState WS E)
      (deferred : Option (List DeferredCommand))
      → (run_command format contracts (deferred_command d) i s).0 ≡ ok deferred
      → deferred ≡ none
  unfolding run_command finish_command handle_command_execution_result
  run_command-deferred d i s deferred h = ground arith

  after-run_deferred :
      (d : DeferredCommand) (ds : List DeferredCommand) (fuel : ℕ) (queue : List ExecutableCommand)
      (i : ℕ) (r : Result (Option (List DeferredCommand))) (s : ExecutionState WS E)
      → ((deferred : Option (List DeferredCommand)) → r ≡ ok deferred → deferred ≡ none)
      → run_commands format contracts
          (more ds fuel)
          (stack_of (map deferred_command ds ++ queue))
          i
          s
        ≡ resume fuel queue i (run_deferred ds i s)
      → after (more ds fuel) (map deferred_command ds ++ queue) (deferred_command d) i (r, s)
        ≡ resume fuel queue i (continue r (λ _. run_deferred ds i) s)
  after-run_deferred d ds fuel queue i (ok none) s h ih = ih
  after-run_deferred d ds fuel queue i (ok (some x)) s h ih = let e = h (some x) refl in cc
  after-run_deferred d ds fuel queue i (err error) s h ih = refl
  after-run_deferred d ds fuel queue i panic s h ih = refl

  loop-run_deferred :
      (ds : List DeferredCommand) (fuel : ℕ) (queue : List ExecutableCommand) (i : ℕ)
      (s : ExecutionState WS E)
      → run_commands format contracts
          (more ds fuel)
          (stack_of (map deferred_command ds ++ queue))
          i
          s
        ≡ resume fuel queue i (run_deferred ds i s)
  unfolding run_deferred pure ◌>>=◌
  loop-run_deferred [] fuel queue i s = refl
  loop-run_deferred (d ∷ ds) fuel queue i s =
      let (r, s') = run_command format contracts (deferred_command d) i s in
      run_commands-cons (more ds fuel) (deferred_command d) (map deferred_command ds ++ queue) i s
      ∙ after-run_deferred d ds fuel queue i r s' (run_command-deferred d i s)
          (loop-run_deferred ds fuel queue i s')

  -- From some fuel on, the loop computes one result.
  abbrev pub Reaches :
      ExecutableCommands → ℕ → ExecutionState WS E → Option (Transition WS R) → Type 0
  Reaches stack i s result =
      (enough : ℕ) × ((fuel : ℕ)
        → enough ≤ fuel
        → run_commands format contracts fuel stack i s ≡ some result)

  run_commands-nil : (i : ℕ) (s : ExecutionState WS E) → Reaches [] i s (handle_charge format s)
  unfolding run_commands next_command
  run_commands-nil i s = (
    1,
    λ fuel h.
        from_suc (λ n. run_commands format contracts n [] i s ≡ some (handle_charge format s)) 0
          fuel h (λ k _. refl),
  )

  module _ (cs : List Command) (i : ℕ)
      (ih : (s : ExecutionState WS E)
        → Reaches
            (stack_of (map transaction_command cs))
            i
            s
            (conclude format (run_all cs i s))) where
    resume-Reaches :
        (out : Result (Unit {0}) × ExecutionState WS E)
        → (enough : ℕ) × ((fuel : ℕ)
            → enough ≤ fuel
            → resume fuel (map transaction_command cs) i out
              ≡ some (conclude format (continue out.0 (λ _. run_all cs i) out.1)))
    resume-Reaches (ok _, s) = ih s
    resume-Reaches (err error, s) = (0, λ fuel h. refl)
    resume-Reaches (panic, s) = (0, λ fuel h. refl)

    deferred-Reaches :
        (ds : List DeferredCommand) (s : ExecutionState WS E)
        → Reaches
            (stack_of (map deferred_command ds ++ map transaction_command cs))
            i
            s
            (conclude format ((run_deferred ds i >> run_all cs i) s))
    unfolding ◌>>=◌
    deferred-Reaches ds s =
        let (enough, reached) = resume-Reaches (run_deferred ds i s) in
        (
          length ds + enough,
          λ fuel h.
              subst
                (λ n.
                  run_commands format contracts n
                    (stack_of (map deferred_command ds ++ map transaction_command cs)) i s
                  ≡ some (conclude format ((run_deferred ds i >> run_all cs i) s)))
                (more_rest ds fuel (omega arith))
                (loop-run_deferred ds (fuel - length ds) (map transaction_command cs) i s
                  ∙ reached (fuel - length ds) (omega arith)),
        )

  after-Reaches :
      (c : Command) (cs : List Command) (i : ℕ)
      → ((s : ExecutionState WS E)
          → Reaches
              (stack_of (map transaction_command cs))
              (i + 1)
              s
              (conclude format (run_all cs (i + 1) s)))
      → (r : Result (Option (List DeferredCommand))) (s : ExecutionState WS E)
      → (enough : ℕ) × ((fuel : ℕ)
          → enough ≤ fuel
          → after fuel (map transaction_command cs) (transaction_command c) i (r, s)
            ≡ some (
                conclude format (
                  continue r
                    (λ deferred. run_deferred (to_list deferred) (i + 1) >> run_all cs (i + 1))
                    s)))
  after-Reaches c cs i ih (ok deferred) s = deferred-Reaches cs (i + 1) ih (to_list deferred) s
  after-Reaches c cs i ih (err error) s = (0, λ fuel h. refl)
  after-Reaches c cs i ih panic s = (0, λ fuel h. refl)

  run_all-Reaches :
      (cs : List Command) (i : ℕ) (s : ExecutionState WS E)
      → Reaches (stack_of (map transaction_command cs)) i s (conclude format (run_all cs i s))
  unfolding run_all pure ◌>>=◌
  run_all-Reaches [] i s = run_commands-nil i s
  run_all-Reaches (c ∷ cs) i s =
      let (r, s') = run_command format contracts (transaction_command c) i s in
      let (enough, reached) = after-Reaches c cs i (run_all-Reaches cs (i + 1)) r s' in
      (
        suc enough,
        λ fuel h.
            from_suc
              (λ n.
                run_commands format contracts n (stack_of (map transaction_command (c ∷ cs))) i s
                ≡ some (conclude format (run_all (c ∷ cs) i s)))
              enough fuel h
              (λ k le.
                run_commands-cons k (transaction_command c) (map transaction_command cs) i s
                ∙ reached k le),
      )

  -- The whole transaction by its pre-charge, its commands and its charge.
  abbrev pub outcome_of :
      List Command → Result (Unit {0}) × ExecutionState WS E → Option (Transition WS R)
  outcome_of cs (ok _, s) = conclude format (run_all cs 0 s)
  outcome_of cs (err error, s) = handle_precharge_error format s error
  outcome_of cs (panic, s) = none

  run_pre_charged-outcome :
      (cs : List Command) (out : Result (Unit {0}) × ExecutionState WS E)
      → (enough : ℕ) × ((fuel : ℕ)
          → enough ≤ fuel
          → run_pre_charged format contracts fuel cs out ≡ some (outcome_of cs out))
  unfolding run_pre_charged new
  run_pre_charged-outcome cs (ok _, s) = run_all-Reaches cs 0 s
  run_pre_charged-outcome cs (err error, s) = (0, λ fuel h. refl)
  run_pre_charged-outcome cs (panic, s) = (0, λ fuel h. refl)

  -- With enough fuel, and any more, the executor returns the outcome that is defined with no stack
  -- and no fuel: it ends, each command is followed at once by the commands it defers, in their
  -- order, and the first failed one ends the transaction.
  pub execute_commands_lem :
      (s : ExecutionState WS E) (cs : List Command)
      → (enough : ℕ) × ((extra : ℕ)
          → execute_commands format contracts (enough + extra) s cs
            ≡ some (outcome_of cs (pre_charge s)))
  unfolding execute_commands
  execute_commands_lem s cs =
      let (enough, reached) = run_pre_charged-outcome cs (pre_charge s) in
      (enough, λ extra. reached (enough + extra) (omega arith))
