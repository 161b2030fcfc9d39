-- ===== src/Executor/Stack.antt =====
-- The stack of commands of executor.rs against a queue.
use pchain_runtime.Prelude.{
  ◌≡◌, refl, sym, ap, ◌∙◌, none, some, List, [], ◌∷◌, ◌++◌, map, reverse, reverse-append,
  reverse-cons,
}
use pchain_runtime.Types.{Command, DeferredCommand}
use pchain_runtime.Executor.{
  ExecutableCommand, transaction_command, deferred_command, ExecutableCommands, new,
  push_deferred_commands, next_command,
}

next_command-snoc :
    (stack : ExecutableCommands) (c : ExecutableCommand)
    → next_command (stack ++ c ∷ []) ≡ some (c, stack)
unfolding next_command
next_command-snoc [] c = refl
next_command-snoc (d ∷ []) c = refl
next_command-snoc (d ∷ e ∷ stack) c = rw (next_command-snoc (e ∷ stack) c) refl

-- The stack that holds the commands of a queue, the first on top.
abbrev pub stack_of : List ExecutableCommand → ExecutableCommands
stack_of queue = reverse queue

-- The stack implements a queue: a new one holds the commands in their order, it is empty when the
-- queue is, `next_command` takes the front, and deferred commands go to the front, in their order.
pub stack_of_lem :
    ((commands : List Command) → new commands ≡ stack_of (map transaction_command commands))
    × (next_command (stack_of []) ≡ none)
    × ((c : ExecutableCommand) (queue : List ExecutableCommand)
        → next_command (stack_of (c ∷ queue)) ≡ some (c, stack_of queue))
    × ((commands : List DeferredCommand) (queue : List ExecutableCommand)
        → push_deferred_commands commands (stack_of queue)
          ≡ stack_of (map deferred_command commands ++ queue))
unfolding new push_deferred_commands next_command
stack_of_lem = (
  λ commands. refl,
  refl,
  λ c queue. ap next_command (reverse-cons c queue) ∙ next_command-snoc (reverse queue) c,
  λ commands queue. sym (reverse-append (map deferred_command commands) queue),
)
