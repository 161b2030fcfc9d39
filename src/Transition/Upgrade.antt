-- ===== src/Transition/Upgrade.antt =====
-- `transition_v1_to_v2` of src/transition.rs. The upgrade of a world state (pchain_world_state) is a
-- parameter; `none` stands for its error.
use pchain_runtime.Prelude.{
  ◌≡◌, ◌≢◌, ◌⊎◌, refl, sym, ap, ◌∙◌, subst, Option, none, some, List, [], ◌∷◌, map, nat_eq,
}
use pchain_runtime.Error.{TransitionError, failed_world_state_upgrade, invalid_next_epoch_command}
use pchain_runtime.Types.{
  Transaction, Command, BlockchainParams, ValidatorPerformance, txn_metadata, command_kind,
}
use pchain_runtime.Types.Receipt.{CommandReceiptV1}
use pchain_runtime.Cache.World.{WorldState}
use pchain_runtime.Cache.World.Interface.{WorldStateLaws}
use pchain_runtime.Cache.Receipt.{format_v1}
use pchain_runtime.Network.{NetworkAccount}
use pchain_runtime.Protocol.Changes.{ValidatorChanges}
use pchain_runtime.Executor.{Transition}
use pchain_runtime.Executor.Transaction.{start}
use pchain_runtime.NextEpoch.{
  execute_next_epoch_v1, run_next_epoch, handle_invalid_next_epoch_command,
}
use pchain_runtime.NextEpoch.Laws.{accepted_v1, IsNextEpoch, next_epoch_receipt_v1}
use pchain_runtime.Transition.{initial_state}
use pchain_runtime.Transition.Epoch.{epoch_changes, guards_hold, guards_fail}

pub record TransitionV1ToV2 (WS2 : Type 0) : Type 0 where
  pub new_state : Option WS2
  pub receipt : Option (List CommandReceiptV1)
  pub error : Option TransitionError
  pub validator_changes : Option ValidatorChanges

-- An error, and nothing else.
abbrev pub failed_with : {WS2 : Type 0} → TransitionError → TransitionV1ToV2 WS2
failed_with error = record {
  new_state = none;
  receipt = none;
  error = some error;
  validator_changes = none;
}

-- The match on the upgraded world state.
abbrev pub upgraded :
    {WS WS2 : Type 0} → Transition WS (List CommandReceiptV1) → Option WS2 → TransitionV1ToV2 WS2
upgraded result none = failed_with failed_world_state_upgrade
upgraded result (some ws) = record {
  new_state = some ws;
  receipt = result.receipt;
  error = none;
  validator_changes = result.validator_changes;
}

module _ {WS WS2 : Type 0} (upgrade : WS → Option WS2) where
  abbrev upgrade_unless :
      Option TransitionError → Transition WS (List CommandReceiptV1) → TransitionV1ToV2 WS2
  upgrade_unless (some error) result = failed_with error
  upgrade_unless none result = upgraded result (upgrade result.new_state)

  -- What follows the command of the next epoch; `none` for a panic.
  unfoldable pub after_epoch :
      Option (Transition WS (List CommandReceiptV1)) → Option (TransitionV1ToV2 WS2)
  after_epoch none = none
  after_epoch (some result) = some (upgrade_unless result.error result)

module _ {WS WS2 : Type 0} (upgrade : WS → Option WS2) ⦃t : WorldState WS⦄
    ⦃net : NetworkAccount⦄ where
  unfoldable pub transition_v1_to_v2 :
      WS → Transaction → BlockchainParams → Option (TransitionV1ToV2 WS2)
  unfolding initial_state execute_next_epoch_v1 after_epoch
  transition_v1_to_v2 ws tx bd =
      after_epoch upgrade (execute_next_epoch_v1 (initial_state ws tx bd) tx.commands)

  fields :
      (tr : Transition WS (List CommandReceiptV1)) (changes : ValidatorChanges)
      → tr.error ≡ none
      → tr.receipt ≡ some next_epoch_receipt_v1
      → tr.validator_changes ≡ some changes
      → tr ≡ (record {
        new_state = tr.new_state;
        error = none;
        receipt = some next_epoch_receipt_v1;
        validator_changes = some changes;
      })
  fields tr changes e r v =
      λ i. record { new_state = tr.new_state; error = e i; receipt = r i; validator_changes = v i }

  -- A transaction that upgrades the world state ends with the error for an invalid next epoch
  -- command, no world state, no receipt and no validator changes, if the command of the next epoch
  -- is not its only command, or the performance of the validators is missing, or its nonce is not
  -- the signer's.
  pub upgrade_rejected :
      (ws : WS) (tx : Transaction) (bd : BlockchainParams)
      → (tx.commands ≢ Command.next_epoch ∷ [])
        ⊎ ((bd.validator_performance ≡ none) ⊎ (tx.nonce ≢ t.nonce ws tx.signer))
      → transition_v1_to_v2 ws tx bd ≡ some (failed_with invalid_next_epoch_command)
  unfolding transition_v1_to_v2 execute_next_epoch_v1 handle_invalid_next_epoch_command after_epoch
  upgrade_rejected ws tx bd k = rw (guards_fail CommandReceiptV1 ws tx bd k) refl

  -- Where the only command is that of the next epoch, the performance of the validators is given,
  -- the nonce is the signer's and the state transition on the network account does not panic, over
  -- a world state that meets the laws, the transaction that upgrades the world state ends as the
  -- upgrade of the world state after the epoch does: with the upgraded world state, one receipt
  -- with no gas used and the validator changes of the transition, or with the error for a failed
  -- upgrade and nothing else. After the epoch the signer's nonce is one more (saturating), and
  -- every balance, code, CBI version, other nonce and the storage of every other account is kept.
  pub transition_v1_to_v2_lem :
      (laws : WorldStateLaws WS) (ws : WS) (tx : Transaction) (bd : BlockchainParams)
      (performance : ValidatorPerformance) (changes : ValidatorChanges)
      → tx.commands ≡ Command.next_epoch ∷ []
      → bd.validator_performance ≡ some performance
      → tx.nonce ≡ t.nonce ws tx.signer
      → epoch_changes ws performance ≡ some changes
      → (after : WS) × IsNextEpoch net.network_address tx.signer tx.nonce ws after
        × (transition_v1_to_v2 ws tx bd
            ≡ some (
                upgraded
                  (record {
                    new_state = after;
                    error = none;
                    receipt = some next_epoch_receipt_v1;
                    validator_changes = some changes;
                  })
                  (upgrade after)))
  unfolding transition_v1_to_v2 execute_next_epoch_v1 initial_state txn_metadata after_epoch
  transition_v1_to_v2_lem laws ws tx bd performance changes h k l m =
      let (tr, e, state, error, receipt, changed) =
        accepted_v1 laws (txn_metadata tx) bd ws performance changes (ap (map command_kind) h) m in
      (
        tr.new_state,
        subst (λ n. IsNextEpoch net.network_address tx.signer n ws tr.new_state) (sym l) state,
        rw (guards_hold CommandReceiptV1 ws tx bd performance h k l) (
            ap
              (λ p.
                after_epoch upgrade (run_next_epoch format_v1 p (start (txn_metadata tx) bd ws)))
              k
            ∙ ap (after_epoch upgrade) e
            ∙ ap (after_epoch upgrade) (ap some (fields tr changes error receipt changed))),
      )
