-- ===== src/Transition/Outcome.antt =====
-- The receipt of a transaction, from the entry point on.
use pchain_runtime.Prelude.{
  ℕ, ◌+◌, ◌*◌, ◌≤◌, ◌≡◌, ◌≢◌, refl, ap, false, Option, none, some, List, [], ◌∷◌, ◌++◌, map, length,
}
use pchain_runtime.Word.{u64_max}
use pchain_runtime.Types.{Command, Transaction, BlockchainParams, txn_metadata, command_kind}
use pchain_runtime.Error.{ok}
use pchain_runtime.Types.Receipt.{ReceiptV2}
use pchain_runtime.Cache.World.{WorldState}
use pchain_runtime.Cache.World.Interface.{WorldStateLaws}
use pchain_runtime.Cache.Receipt.{format_v2}
use pchain_runtime.Gas.Meter.{tx_inclusion_cost}
use pchain_runtime.State.{new_state, new_context}
use pchain_runtime.Network.{NetworkAccount}
use pchain_runtime.Phases.{pre_charge}
use pchain_runtime.Phases.PreCharge.{pre_charge_ok}
use pchain_runtime.Executor.{Transition, execute_commands_v2}
use pchain_runtime.Contract.Engine.{Engine}
use pchain_runtime.Executor.Wasm.{wasm_contracts, wasm_contracts-ContractsLaws}
use pchain_runtime.Executor.Order.{outcome_of, execute_commands_lem}
use pchain_runtime.Executor.Transaction.{start, receipt_v2_lem}
use pchain_runtime.Transition.{has_next_epoch, initial_state, transition_v2}

abbrev pub HasNoNextEpoch : List Command → Type 0
HasNoNextEpoch cs = (before after : List Command) → cs ≢ before ++ Command.next_epoch ∷ after

HasNoNextEpoch-tail :
    (c : Command) (cs : List Command) → HasNoNextEpoch (c ∷ cs) → HasNoNextEpoch cs
HasNoNextEpoch-tail c cs h before after e = h (c ∷ before) after (ap (λ ds. c ∷ ds) e)

HasNoNextEpoch-has_next_epoch : (cs : List Command) → HasNoNextEpoch cs → has_next_epoch cs ≡ false
unfolding has_next_epoch
HasNoNextEpoch-has_next_epoch [] h = refl
HasNoNextEpoch-has_next_epoch (Command.next_epoch ∷ cs) h = absurd (h [] cs refl)
HasNoNextEpoch-has_next_epoch (c ∷ cs) h =
    HasNoNextEpoch-has_next_epoch cs (HasNoNextEpoch-tail c cs h)

module _ {WS : Type 0} where
  -- What the caller is given, where the transaction has not panicked.
  abbrev pub HasFullReceipt : Transaction → Option (Transition WS ReceiptV2) → Type 0
  HasFullReceipt tx none = Unit {0}
  HasFullReceipt tx (some made) =
      (r : ReceiptV2) × (made.receipt ≡ some r)
      × (length r.command_receipts ≡ length tx.commands)
      × (r.gas_used ≤ tx.gas_limit)

module _ {M WS : Type 0} ⦃t : WorldState WS⦄ ⦃net : NetworkAccount⦄ where
  transition_v2_lem :
      (engine : Engine M) (ws : WS) (tx : Transaction) (bd : BlockchainParams)
      → has_next_epoch tx.commands ≡ false
      → (enough : ℕ) × ((extra : ℕ)
          → transition_v2 engine (enough + extra) ws tx bd
            ≡ some (
                outcome_of format_v2
                  (wasm_contracts engine)
                  tx.commands
                  (pre_charge (start (txn_metadata tx) bd ws))))
  unfolding transition_v2 initial_state execute_commands_v2 txn_metadata new_state new_context
  transition_v2_lem engine ws tx bd h =
      let (enough, reached) =
        execute_commands_lem format_v2 (wasm_contracts engine) (start (txn_metadata tx) bd ws)
          tx.commands in
      (enough, λ extra. rw h (reached extra))

  outcome-HasFullReceipt :
      WorldStateLaws WS
      → (engine : Engine M) (ws : WS) (tx : Transaction) (bd : BlockchainParams)
        (out : Option (Transition WS ReceiptV2))
      → tx.gas_limit ≤ u64_max
      → let s = start (txn_metadata tx) bd ws in
        pre_charge s ≡ (ok tt, (pre_charge s).1)
        → outcome_of format_v2 (wasm_contracts engine) tx.commands (pre_charge s) ≡ out
        → HasFullReceipt tx out
  unfolding txn_metadata
  outcome-HasFullReceipt laws engine ws tx bd none fits charged e = tt
  outcome-HasFullReceipt laws engine ws tx bd (some made) fits charged e =
      receipt_v2_lem (wasm_contracts engine) (wasm_contracts-ContractsLaws engine) laws
        (txn_metadata tx) bd ws tx.commands (pre_charge (start (txn_metadata tx) bd ws)).1 fits refl
        charged e

  -- The V2 entry point, over a world state that meets the laws, on a transaction with no next epoch
  -- command, a gas limit that fits in a `u64` and covers the inclusion cost, the signer's nonce,
  -- and a fee that fits in a `u64`, and so does the fee times the gas limit, which the signer's
  -- balance covers: with enough fuel, and any more, it ends with the same outcome, and unless that
  -- is a panic it has a receipt with one command receipt for each command and no more gas than the
  -- limit.
  pub transition_v2_receipt :
      WorldStateLaws WS
      → (engine : Engine M) (ws : WS) (tx : Transaction) (bd : BlockchainParams)
      → HasNoNextEpoch tx.commands
      → tx.gas_limit ≤ u64_max
      → tx_inclusion_cost tx.version tx.serialized_len (map command_kind tx.commands) ≤ tx.gas_limit
      → tx.nonce ≡ t.nonce ws tx.signer
      → let fee = bd.this_base_fee + tx.priority_fee_per_gas in
        fee ≤ u64_max
        → tx.gas_limit * fee ≤ u64_max
        → tx.gas_limit * fee ≤ t.balance ws tx.signer
        → (enough : ℕ) × (out : Option (Transition WS ReceiptV2)) × ((extra : ℕ)
            → transition_v2 engine (enough + extra) ws tx bd ≡ some out)
          × HasFullReceipt tx out
  unfolding txn_metadata new_state new_context
  transition_v2_receipt laws engine ws tx bd h fits covered counted fee_fits cost affordable =
      let s = start (txn_metadata tx) bd ws in
      let (enough, reached) =
        transition_v2_lem engine ws tx bd (HasNoNextEpoch-has_next_epoch tx.commands h) in
      let charged = pre_charge_ok s covered counted fee_fits cost affordable in
      (
        enough,
        outcome_of format_v2 (wasm_contracts engine) tx.commands (pre_charge s),
        reached,
        outcome-HasFullReceipt laws engine ws tx bd _ fits charged refl,
      )
