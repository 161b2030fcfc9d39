-- ===== src/Transition/Epoch.antt =====
-- A transaction with the command of the next epoch, from the entry point on.
use pchain_runtime.Prelude.{
  ℕ, ◌≡◌, ◌≢◌, ◌⊎◌, refl, sym, ap, ◌∙◌, subst, true, false, Option, none, some, List, [], ◌∷◌, map,
  length, arith,
}
use pchain_runtime.Error.{invalid_next_epoch_command}
use pchain_runtime.Types.{
  Transaction, Command, BlockchainParams, ValidatorPerformance, txn_metadata, command_kind,
}
use pchain_runtime.Types.Receipt.{CommandReceiptV2, ReceiptV2}
use pchain_runtime.Cache.World
use pchain_runtime.Cache.World.{WorldState}
use pchain_runtime.Cache.World.Interface.{WorldStateLaws}
use pchain_runtime.State.{new_state, new_context}
use pchain_runtime.Gas.Meter
use pchain_runtime.Network.{NetworkAccount}
use pchain_runtime.Protocol.{next_epoch}
use pchain_runtime.Protocol.Cache.{run_on_cache}
use pchain_runtime.Protocol.Changes.{ValidatorChanges}
use pchain_runtime.Contract.Engine.{Engine}
use pchain_runtime.Executor.{Transition}
use pchain_runtime.Cache.Receipt.{format_v2}
use pchain_runtime.Executor.Transaction.{start}
use pchain_runtime.NextEpoch.{
  first_is_next_epoch, is_valid_next_epoch, execute_next_epoch_v2, run_next_epoch,
  handle_invalid_next_epoch_command,
}
use pchain_runtime.NextEpoch.Laws.{accepted_v2, IsNextEpoch, next_epoch_receipt}
use pchain_runtime.Transition.{has_next_epoch, initial_state, transition_v2}

only_command :
    (commands : List Command)
    → length commands ≡ 1
    → first_is_next_epoch commands ≡ true
    → commands ≡ Command.next_epoch ∷ []
only_command [] h e = absurd (ground arith)
only_command (Command.next_epoch ∷ []) h e = refl
only_command (c ∷ d ∷ commands) h e = absurd (omega (arith, h))
only_command (Command.transfer a b ∷ []) h e = absurd (ground arith)
only_command (Command.deploy a b ∷ []) h e = absurd (ground arith)
only_command (Command.call a b c d ∷ []) h e = absurd (ground arith)
only_command (Command.create_pool a ∷ []) h e = absurd (ground arith)
only_command (Command.set_pool_settings a ∷ []) h e = absurd (ground arith)
only_command (Command.delete_pool ∷ []) h e = absurd (ground arith)
only_command (Command.create_deposit a b c ∷ []) h e = absurd (ground arith)
only_command (Command.set_deposit_settings a b ∷ []) h e = absurd (ground arith)
only_command (Command.top_up_deposit a b ∷ []) h e = absurd (ground arith)
only_command (Command.withdraw_deposit a b ∷ []) h e = absurd (ground arith)
only_command (Command.stake_deposit a b ∷ []) h e = absurd (ground arith)
only_command (Command.unstake_deposit a b ∷ []) h e = absurd (ground arith)

module _ {WS : Type 0} ⦃t : WorldState WS⦄ ⦃net : NetworkAccount⦄ where
  abbrev pub epoch_changes : WS → ValidatorPerformance → Option ValidatorChanges
  epoch_changes ws performance =
      (run_on_cache net.network_address (next_epoch performance) (World.new ws)).0

  pub record IsEpochTransition (ws : WS) (tx : Transaction) (changes : ValidatorChanges)
      (tr : Transition WS ReceiptV2) : Type 0 where
    pub new_state : IsNextEpoch net.network_address tx.signer tx.nonce ws tr.new_state
    pub error : tr.error ≡ none
    pub receipt : tr.receipt ≡ some next_epoch_receipt
    pub validator_changes : tr.validator_changes ≡ some changes

  abbrev pub rejected : WS → Transition WS ReceiptV2
  rejected ws = record {
    new_state = ws;
    error = some invalid_next_epoch_command;
    receipt = none;
    validator_changes = none;
  }

  -- The guards of the command, as conditions on the transaction.
  pub guards_hold :
      (E : Type 0) (ws : WS) (tx : Transaction) (bd : BlockchainParams)
      (performance : ValidatorPerformance)
      → tx.commands ≡ Command.next_epoch ∷ []
      → bd.validator_performance ≡ some performance
      → tx.nonce ≡ t.nonce ws tx.signer
      → is_valid_next_epoch {E = E} (initial_state ws tx bd) tx.commands ≡ true
  unfolding is_valid_next_epoch initial_state txn_metadata new_state new_context Meter.new World.new
  guards_hold E ws tx bd performance h k l = ground (arith, h, k, l)

  pub guards_fail :
      (E : Type 0) (ws : WS) (tx : Transaction) (bd : BlockchainParams)
      → (tx.commands ≢ Command.next_epoch ∷ [])
        ⊎ ((bd.validator_performance ≡ none) ⊎ (tx.nonce ≢ t.nonce ws tx.signer))
      → is_valid_next_epoch {E = E} (initial_state ws tx bd) tx.commands ≡ false
  unfolding is_valid_next_epoch initial_state txn_metadata new_state new_context Meter.new World.new
  guards_fail E ws tx bd h = ground (arith, only_command tx.commands, h)

  -- A V2 transaction with a next epoch command ends with the error for an invalid one, the world
  -- state it started with, no receipt and no validator changes, if it has another command too, or
  -- the performance of the validators is missing, or its nonce is not the signer's.
  pub next_epoch-rejected :
      {M : Type 0} (engine : Engine M) (fuel : ℕ) (ws : WS) (tx : Transaction)
      (bd : BlockchainParams)
      → has_next_epoch tx.commands ≡ true
      → (tx.commands ≢ Command.next_epoch ∷ [])
        ⊎ ((bd.validator_performance ≡ none) ⊎ (tx.nonce ≢ t.nonce ws tx.signer))
      → transition_v2 engine fuel ws tx bd ≡ some (some (rejected ws))
  unfolding transition_v2 execute_next_epoch_v2 handle_invalid_next_epoch_command initial_state
      new_state new_context Meter.new World.new
  next_epoch-rejected engine fuel ws tx bd h k =
      rw (h, guards_fail CommandReceiptV2 ws tx bd k) refl

  -- Where the only command is that of the next epoch, the performance of the validators is given,
  -- the nonce is the signer's and the state transition on the network account does not panic, over
  -- a world state that meets the laws, the V2 entry point ends: the signer's nonce is one more
  -- (saturating), every balance, code, CBI version, other nonce and the storage of every other
  -- account is kept, and there is no error, one receipt with no gas used, and the validator changes
  -- of the transition.
  pub next_epoch_accepted :
      (laws : WorldStateLaws WS) {M : Type 0} (engine : Engine M) (fuel : ℕ) (ws : WS)
      (tx : Transaction) (bd : BlockchainParams) (performance : ValidatorPerformance)
      (changes : ValidatorChanges)
      → tx.commands ≡ Command.next_epoch ∷ []
      → bd.validator_performance ≡ some performance
      → tx.nonce ≡ t.nonce ws tx.signer
      → epoch_changes ws performance ≡ some changes
      → (tr : Transition WS ReceiptV2) × (transition_v2 engine fuel ws tx bd ≡ some (some tr))
        × IsEpochTransition ws tx changes tr
  unfolding transition_v2 execute_next_epoch_v2 has_next_epoch initial_state txn_metadata
  next_epoch_accepted laws engine fuel ws tx bd performance changes h k l m =
      let (tr, e, state, error, receipt, changed) =
        accepted_v2 laws (txn_metadata tx) bd ws performance changes (ap (map command_kind) h) m in
      (
        tr,
        rw (guards_hold CommandReceiptV2 ws tx bd performance h k l, ap has_next_epoch h)
            (ap (λ p. some (run_next_epoch format_v2 p (start (txn_metadata tx) bd ws))) k
              ∙ ap some e),
        record {
          new_state =
              subst (λ n. IsNextEpoch net.network_address tx.signer n ws tr.new_state) (sym l)
                state;
          error = error;
          receipt = receipt;
          validator_changes = changed;
        },
      )
