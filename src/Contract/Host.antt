-- ===== src/Contract/Host.antt =====
-- What a host function works on: the environment of the call (src/contract/wasmer/env.rs), the context
-- of the transition, the points left to the instance, and its memory.
use pchain_runtime.Prelude.{ℕ, ◌-◌, Bool, true, false, Option, none, some}
use pchain_runtime.Types.{BlockchainParams, CallTx}
use pchain_runtime.Cache.World.{WorldStateCache}
use pchain_runtime.Cache.Output.{CommandOutputCache}
use pchain_runtime.State.{TransitionContext}

-- The error inside `method_call_error` is never read: only the outermost one is.
pub data FuncError : Type 0 where
  internal : FuncError
  runtime : FuncError
  gas_exhaustion_error : FuncError
  method_call_error : FuncError
  contract_not_found : FuncError
  insufficient_balance : FuncError

pub record Env : Type 0 where
  pub call_counter : ℕ
  pub call_tx : CallTx
  pub params_from_blockchain : BlockchainParams
  pub is_view : Bool

pub record HostState (M WS : Type 0) : Type 0 where
  pub ctx : TransitionContext WS
  -- `WasmerGasGlobal`.
  pub wasmer_gas : ℕ
  pub memory : M

pub data HostResult (A : Type 0) : Type 0 where
  returned : A → HostResult A
  failed : FuncError → HostResult A
  -- The runtime does not go on: a panic, or a lock that is never had.
  panicked : HostResult A

abbrev pub has_panicked : {A : Type 0} → HostResult A → Bool
has_panicked (returned _) = false
has_panicked (failed _) = false
has_panicked panicked = true

abbrev pub Host : Type 0 → Type 0 → Type 0 → Type 0
Host M WS A = HostState M WS → HostResult A × HostState M WS

module _ {M WS : Type 0} where
  abbrev pub host_cache : HostState M WS → WorldStateCache WS
  host_cache h = h.ctx.gas_meter.ws_cache

  abbrev pub with_host_cache : WorldStateCache WS → HostState M WS → HostState M WS
  with_host_cache cache h = record h {
    ctx = record h.ctx { gas_meter = record h.ctx.gas_meter { ws_cache = cache } };
  }

  abbrev pub host_output : HostState M WS → CommandOutputCache
  host_output h = h.ctx.gas_meter.output_cache_of_current_command

  abbrev pub with_host_output : CommandOutputCache → HostState M WS → HostState M WS
  with_host_output output h = record h {
    ctx = record h.ctx {
      gas_meter = record h.ctx.gas_meter { output_cache_of_current_command = output };
    };
  }

  -- `WasmerGasGlobal::subtract_gas`, saturating.
  unfoldable pub subtract_gas : ℕ → HostState M WS → HostState M WS
  subtract_gas amount h = record h { wasmer_gas = h.wasmer_gas - amount }

module _ {M WS A : Type 0} where
  unfoldable pub pure : A → Host M WS A
  pure a h = (returned a, h)

  unfoldable pub fail : FuncError → Host M WS A
  fail error h = (failed error, h)

  unfoldable pub unwrap_failed : Host M WS A
  unwrap_failed h = (panicked, h)

  unfoldable pub ok_or : FuncError → Option A → Host M WS A
  unfolding pure fail
  ok_or error none = fail error
  ok_or error (some a) = pure a

  -- A look at the state.
  unfoldable pub gets : (HostState M WS → A) → Host M WS A
  gets f h = (returned (f h), h)

module _ {M WS : Type 0} where
  unfoldable pub deduct_gas : ℕ → Host M WS (Unit {0})
  unfolding subtract_gas
  deduct_gas amount h = (returned tt, subtract_gas amount h)

module _ {M WS A B : Type 0} where
  abbrev pub continue : HostResult A → (A → Host M WS B) → Host M WS B
  continue (returned a) f h = f a h
  continue (failed error) f h = (failed error, h)
  continue panicked f h = (panicked, h)

  infixl 10 ◌>>=◌ ◌>>◌
  unfoldable pub ◌>>=◌ : Host M WS A → (A → Host M WS B) → Host M WS B
  ◌>>=◌ m f h = let (r, h') = m h in continue r f h'

  abbrev pub ◌>>◌ : Host M WS A → Host M WS B → Host M WS B
  m >> n = m >>= λ _. n
