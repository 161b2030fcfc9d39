-- ===== src/Tests/Engine.antt =====
-- An engine whose code is one of four programs: to defer a deposit, to call another contract, to
-- write to the storage, and to ask for the method with a pointer of the code's.
use pchain_runtime.Prelude.{
  zero, suc, true, false, Option, none, some, [], ◌∷◌, drop, ltb, if◌then◌else◌,
}
use pchain_runtime.Types.{Bytes, Command}
use pchain_runtime.Contract.Engine.{Engine, HostCall, Wasm, Alloc}
use pchain_runtime.Contract.Functions.{take}

abbrev command_of : Bytes → Option Command
command_of (zero ∷ operator ∷ balance ∷ []) = some (Command.create_deposit operator balance false)
command_of (suc zero ∷ target ∷ _) = some (Command.call target [] none none)
command_of _ = none

abbrev pub program : Bytes → Option (Wasm Bytes)
program (zero ∷ _) = some (
    Wasm.calls_host 2 (HostCall.defer_create_deposit 0 3) (0 ∷ 7 ∷ 50 ∷ [])
      (λ value memory. Wasm.instructions 10 Wasm.returns))
program (suc zero ∷ target ∷ _) =
    some (Wasm.calls_host 2 (HostCall.call 0 2 0) (1 ∷ target ∷ []) (λ value memory. Wasm.returns))
program (suc (suc zero) ∷ _) =
    some (Wasm.calls_host 2 (HostCall.set 0 1 1 1) (3 ∷ 4 ∷ []) (λ value memory. Wasm.returns))
program (suc (suc (suc zero)) ∷ ptr ∷ _) =
    some (Wasm.calls_host 2 (HostCall.method ptr) [] (λ value memory. Wasm.returns))
program _ = none

-- Its linear memory ends at 1000 for a pointer to write to.
abbrev pub engine : Engine Bytes
engine = record {
  from_bytecode_checked = λ code. none;
  validate_proper_contract = λ code. none;
  from_bytecode_unchecked = λ code. true;
  instantiate = λ code gas_limit. some ([], program code);
  bytes_at = λ memory offset len. some (take len (drop offset memory));
  segment_at = λ memory offset len. some (λ value. memory);
  u32_at = λ memory offset. if ltb offset 1000 then some (λ value. memory) else none;
  alloc = λ memory len. Alloc.instructions 1 (Alloc.returns 0 memory);
  deserialize_command = command_of;
  deserialize_log = λ bytes. some (record { topic = []; value = bytes });
  serialize_arguments = λ args. [];
  sha256_hash = λ bytes. [];
  keccak256_hash = λ bytes. [];
  ripemd_hash = λ bytes. [];
  verify = λ message signature public_key. some true;
  contract_address_v1 = λ signer nonce. 100;
  contract_address_v2 = λ signer nonce command_index. 100;
}

-- A memory that no pointer is out of.
abbrev pub spacious : Engine Bytes
spacious = record engine { u32_at = λ memory offset. some (λ value. memory) }
