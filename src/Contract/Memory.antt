-- ===== src/Contract/Memory.antt =====
-- The writing of bytes to the linear memory of an instance: src/contract/wasmer/memory.rs. The
-- instance allocates them itself, in the middle of the host function that writes.
use pchain_runtime.Prelude.{
  ℕ, suc, ◌-◌, Bool, true, false, not, ◌&&◌, Option, none, some, length, nat_beq, ltb,
  if◌then◌else◌,
}
use pchain_runtime.Types.{Bytes}
use pchain_runtime.Contract.Engine.{Engine, HostCall, Alloc, not_callable}
use pchain_runtime.Contract.Host.{
  FuncError, Env, HostState, HostResult, Host, pure, fail, gets, returned, failed, panicked,
  unwrap_failed, ◌>>=◌, ◌>>◌,
}

abbrev pub bit : Bool → ℕ
bit true = 1
bit false = 0

abbrev pub amount_or_0 : Option ℕ → ℕ
amount_or_0 none = 0
amount_or_0 (some a) = a

-- What a host function answers without a lock; `none` for one that locks the context. The function
-- that writes holds that lock, so such a call does not return (`std::sync::Mutex::lock`).
abbrev pub answer_unlocked : Env → HostCall → Option ℕ
answer_unlocked env HostCall.block_height = some env.params_from_blockchain.this_block_number
answer_unlocked env HostCall.block_timestamp = some env.params_from_blockchain.timestamp
answer_unlocked env HostCall.amount = some (amount_or_0 env.call_tx.amount)
answer_unlocked env HostCall.is_internal_call = some (bit (not (nat_beq env.call_counter 0)))
answer_unlocked env (HostCall.arguments _) = elim env.call_tx.arguments [
  | none ↦ some 0
  | some _ ↦ none
]
answer_unlocked env _ = none

module _ {M WS : Type 0} where
  -- Metered, as all instructions of the instance are.
  abbrev pub alloc_metered :
      ℕ
      → HostState M WS
      → (HostState M WS → HostResult ℕ × HostState M WS)
      → HostResult ℕ × HostState M WS
  alloc_metered points h next =
      if ltb h.wasmer_gas points
      then (failed FuncError.runtime, record h { wasmer_gas = 0 })
      else next (record h { wasmer_gas = h.wasmer_gas - points })

  abbrev pub alloc_resume :
      Option ℕ
      → (ℕ → HostState M WS → HostResult ℕ × HostState M WS)
      → HostState M WS
      → HostResult ℕ × HostState M WS
  alloc_resume none next h = (panicked, h)
  alloc_resume (some value) next h = next value h

  -- The call of `alloc`: the pointer to the segment.
  unfoldable pub run_alloc : Env → Alloc M → Host M WS ℕ
  run_alloc env (Alloc.returns segment_ptr memory) h =
      (returned segment_ptr, record h { memory = memory })
  run_alloc env Alloc.traps h = (failed FuncError.runtime, h)
  run_alloc env (Alloc.instructions points next) h =
      alloc_metered points h (λ h'. run_alloc env next h')
  run_alloc env (Alloc.calls_host points c memory next) h = alloc_metered (suc points) h (λ h'.
      if env.is_view && not_callable c
      then (failed FuncError.runtime, record h' { memory = memory })
      else alloc_resume (answer_unlocked env c) (λ value h''. run_alloc env (next value) h'')
          (record h' { memory = memory }))

  unfoldable pub set_memory : M → Host M WS (Unit {0})
  set_memory memory h = (returned tt, record h { memory = memory })

  unfoldable pub write_segment : Bytes → Option (Bytes → M) → Host M WS (Unit {0})
  unfolding set_memory fail
  write_segment value none = fail FuncError.runtime
  write_segment value (some segment) = set_memory (segment value)

  -- The `unwrap` of a pointer that is out of range.
  unfoldable pub write_offset : ℕ → Option (ℕ → M) → Host M WS (Unit {0})
  unfolding set_memory unwrap_failed
  write_offset val_offset none = unwrap_failed
  write_offset val_offset (some segment) = set_memory (segment val_offset)

module _ {M WS : Type 0} ⦃engine : Engine M⦄ where
  -- Every value comes out of a linear memory or a transaction, so its length fits in a `u32`.
  unfoldable pub write_bytes_to_memory : Env → Bytes → ℕ → Host M WS ℕ
  unfolding run_alloc write_segment write_offset pure gets ◌>>=◌
  write_bytes_to_memory env value val_ptr_ptr = do
    before ← gets (λ h. h.memory)
    segment_ptr ← run_alloc env (engine.alloc before (length value))
    allocated ← gets (λ h. h.memory)
    write_segment value (engine.segment_at allocated segment_ptr (length value))
    written ← gets (λ h. h.memory)
    write_offset segment_ptr (engine.u32_at written val_ptr_ptr)
    pure (length value)
