-- ===== src/Contract/Frame.antt =====
-- Every host function but the call of a contract keeps what a step must keep; what writes is no view's.
use pchain_runtime.Prelude.{
  ℕ, ◌≡◌, refl, Bool, true, false, Bool-cases, inl, inr, if◌then◌else◌, Option, none, some, List,
  arith, nat_eq, bytes_eq, pair_eq,
}
use pchain_runtime.Types.{PublicAddress, Bytes, Command, DeferredCommand}
use pchain_runtime.Cache.World.{WorldState}
use pchain_runtime.Execution.Behaves.{IsMeterStep-refl}
use pchain_runtime.Contract.Engine.{Engine}
use pchain_runtime.Contract.Host.{FuncError, Env, Host, pure, fail, ◌>>◌}
use pchain_runtime.Contract.Operations.{sha256, keccak256, ripemd}
use pchain_runtime.Contract.Functions
use pchain_runtime.Contract.Functions.{
  append_deferred, check_gas, defer, log, return_value, hash, write, arguments, set, get,
  transfer_from_contract, transfer, written_or_minus_one, minus_one,
}
use pchain_runtime.Contract.Written.{memory_rules, Keeps-write_bytes}
use pchain_runtime.Contract.Charged.{
  Keeps-append_log, Keeps-set_return_value, Keeps-ws_get_storage_data, Keeps-ws_get_balance,
  Keeps-ws_set_storage_data, Keeps-ws_set_balance, Keeps-read_bytes,
}
use pchain_runtime.Contract.Steps.{
  Keeps, WritesSafely, host_rules, is_deposit_command, AreDepositCommands-append, Keeps-pure,
  Keeps-bind, Keeps-fail, Keeps-ok_or,
}

module _ {M WS : Type 0} ⦃t : WorldState WS⦄ where
  pub Keeps-transfer_from_contract :
      {S : Type 0} (a : PublicAddress) (amount : ℕ) (b : PublicAddress)
      → Keeps S false (transfer_from_contract {M = M} {WS = WS} a amount b)
  unfolding transfer_from_contract
  Keeps-transfer_from_contract a amount b =
      search (host_rules, Keeps-ws_get_balance, Keeps-ws_set_balance) depth 16

  Keeps-append_deferred :
      {S : Type 0} (d : DeferredCommand)
      → is_deposit_command d.command ≡ true
      → Keeps S false (append_deferred {M = M} {WS = WS} d)
  unfolding append_deferred
  Keeps-append_deferred d e = record {
    step = λ h. record {
      context = record {
        meter = IsMeterStep-refl h.ctx.gas_meter;
        current = refl;
        deferred = λ k. AreDepositCommands-append h.ctx.deferred_commands d k e;
        unwritten = λ f. absurd (cc f);
      };
      points = omega arith;
    };
    calm = λ s h. refl;
  }

  Keeps-check_gas :
      {S : Type 0} (view : Bool) (cost : ℕ) {m : Host M WS (Unit {0})}
      → Keeps S view m
      → Keeps S view (check_gas cost m)
  unfolding check_gas
  Keeps-check_gas view cost h = search host_rules depth 12

module _ {M WS : Type 0} ⦃engine : Engine M⦄ ⦃t : WorldState WS⦄ where
  pub Keeps-write_value :
      (view : Bool) (env : Env) (value : Bytes) (p : ℕ)
      → Keeps (WritesSafely WS engine) view (write {M = M} {WS = WS} env value p)
  unfolding write
  Keeps-write_value view env value p = search memory_rules depth 8

  pub Keeps-arguments :
      (view : Bool) (env : Env) (args : Option (List Bytes)) (p : ℕ)
      → Keeps (WritesSafely WS engine) view (arguments {M = M} {WS = WS} env args p)
  unfolding arguments
  Keeps-arguments view env none p = search memory_rules depth 8
  Keeps-arguments view env (some args) p = search memory_rules depth 8

  pub Keeps-log :
      (view : Bool) (p l : ℕ) → Keeps (WritesSafely WS engine) view (log {M = M} {WS = WS} p l)
  unfolding log
  Keeps-log view p l = search (memory_rules, Keeps-check_gas, Keeps-append_log) depth 16

  pub Keeps-return_value :
      (view : Bool) (p l : ℕ)
      → Keeps (WritesSafely WS engine) view (return_value {M = M} {WS = WS} p l)
  unfolding return_value
  Keeps-return_value view p l =
      search (memory_rules, Keeps-check_gas, Keeps-set_return_value) depth 16

  pub Keeps-sha256 :
      (view : Bool) (b : Bytes) → Keeps (WritesSafely WS engine) view (sha256 {M = M} {WS = WS} b)
  unfolding sha256
  Keeps-sha256 view b = search host_rules depth 4

  pub Keeps-keccak256 :
      (view : Bool) (b : Bytes)
      → Keeps (WritesSafely WS engine) view (keccak256 {M = M} {WS = WS} b)
  unfolding keccak256
  Keeps-keccak256 view b = search host_rules depth 4

  pub Keeps-ripemd :
      (view : Bool) (b : Bytes) → Keeps (WritesSafely WS engine) view (ripemd {M = M} {WS = WS} b)
  unfolding ripemd
  Keeps-ripemd view b = search host_rules depth 4

  pub Keeps-hash :
      (view : Bool) (env : Env) {digest_of : Bytes → Host M WS Bytes} (p l d : ℕ)
      → ((b : Bytes) → Keeps (WritesSafely WS engine) view (digest_of b))
      → Keeps (WritesSafely WS engine) view (hash env digest_of p l d)
  unfolding hash
  Keeps-hash view env p l d h = search memory_rules depth 16

  pub Keeps-verify :
      (view : Bool) (p l s a : ℕ)
      → Keeps
          (WritesSafely WS engine)
          view
          (Functions.verify_ed25519_signature {M = M} {WS = WS} p l s a)
  unfolding Functions.verify_ed25519_signature
  Keeps-verify view p l s a = search memory_rules depth 20

  pub Keeps-set :
      (env : Env) (a b c d : ℕ)
      → Keeps (WritesSafely WS engine) false (set {M = M} {WS = WS} env a b c d)
  unfolding set
  Keeps-set env a b c d = search (memory_rules, Keeps-ws_set_storage_data) depth 16

  written-Keeps :
      (view : Bool) (env : Env) (p : ℕ) (value : Option Bytes)
      → Keeps (WritesSafely WS engine) view (written_or_minus_one {M = M} {WS = WS} env p value)
  written-Keeps view env p none = Keeps-pure view minus_one
  written-Keeps view env p (some value) = Keeps-write_bytes view env value p

  pub Keeps-get :
      (view : Bool) (env : Env) (address : PublicAddress) (a b c : ℕ)
      → Keeps (WritesSafely WS engine) view (get {M = M} {WS = WS} env address a b c)
  unfolding get
  Keeps-get view env address a b c =
      search (memory_rules, Keeps-ws_get_storage_data, written-Keeps) depth 16

  pub Keeps-transfer :
      (env : Env) (p : ℕ) → Keeps (WritesSafely WS engine) false (transfer {M = M} {WS = WS} env p)
  unfolding transfer
  Keeps-transfer env p = search (memory_rules, Keeps-transfer_from_contract) depth 16

  deferred-Keeps :
      (is_kind : Command → Bool) (env : Env) (command : Command)
      → (is_kind command ≡ true → is_deposit_command command ≡ true)
      → Keeps {A = ℕ} (WritesSafely WS engine) false (
          if is_kind command
          then (append_deferred {M = M} {WS = WS}
                (record { contract_address = env.call_tx.target; command = command })
              >> pure 0)
          else fail FuncError.internal)
  deferred-Keeps is_kind env command k = elim (Bool-cases (is_kind command)) [
    | inl e ↦ rw e (
        Keeps-bind false
          (Keeps-append_deferred
            (record { contract_address = env.call_tx.target; command = command }) (k e))
          (λ _. Keeps-pure false 0))
    | inr e ↦ rw e (Keeps-fail false FuncError.internal)
  ]

  pub Keeps-defer :
      (is_kind : Command → Bool)
      → ((c : Command) → is_kind c ≡ true → is_deposit_command c ≡ true)
      → (env : Env) (p l : ℕ)
      → Keeps (WritesSafely WS engine) false (defer {M = M} {WS = WS} is_kind env p l)
  unfolding defer
  Keeps-defer is_kind k env p l = Keeps-bind false (Keeps-read_bytes false p l) (λ bytes.
      Keeps-bind false (Keeps-ok_or false FuncError.runtime (engine.deserialize_command bytes))
        (λ command. deferred-Keeps is_kind env command (k command)))
