-- ===== src/NextEpoch/Laws.antt =====
-- What the command of the next epoch leaves of a transaction (src/execution/execute_next_epoch.rs).
use pchain_runtime.Prelude.{
  ℕ, ◌≡◌, ◌≢◌, refl, ap, ◌∙◌, nat_eq, bytes_eq, Option, none, some, List, [], ◌∷◌, arith,
}
use pchain_runtime.Word.{saturating_add}
use pchain_runtime.Error.{ExitCodeV1, ExitCodeV2}
use pchain_runtime.Types.{PublicAddress, Bytes, CommandKind, TxnMetadata, BlockchainParams}
use pchain_runtime.Types.{ValidatorPerformance}
use pchain_runtime.Types.Receipt.{CommandReceiptV1, CommandReceiptV2, ReceiptV2}
use pchain_runtime.Cache.World
use pchain_runtime.Cache.World.{WorldState, WorldStateCache, commit_to_world_state, non_empty}
use pchain_runtime.Cache.World.Interface.{WorldStateLaws, Accounts, accounts, update}
use pchain_runtime.Cache.World.Commit.{commit_to_world_state_lem, seen_accounts}
use pchain_runtime.Cache.World.Laws.{
  Pending, pending, HasUniqueWrites, IsValid-HasUniqueWrites, new-IsValid,
}
use pchain_runtime.Cache.Data
use pchain_runtime.HashMap
use pchain_runtime.Protocol.Cache.{IsNetworkStep, IsNetworkStep-run_on_cache, run_on_cache}
use pchain_runtime.Cache.Receipt.{
  ReceiptFormat, format_v1, format_v2, command_receipt_v1, command_receipt_v2, into_receipt_v1,
  into_receipt_v2, push_command_receipt,
}
use pchain_runtime.Cache.Output
use pchain_runtime.Gas.Meter
use pchain_runtime.Gas.Meter.{total_gas_used_for_executed_commands}
use pchain_runtime.State.{new_state, new_context}
use pchain_runtime.Network.{NetworkAccount}
use pchain_runtime.Protocol.{next_epoch}
use pchain_runtime.Protocol.Changes.{ValidatorChanges}
use pchain_runtime.Executor.{Transition}
use pchain_runtime.Executor.Transaction.{start}
use pchain_runtime.NextEpoch.{run_next_epoch, handle_post_execution, with_cache, set_nonce}

-- One receipt with no gas used.
abbrev pub next_epoch_receipt : ReceiptV2
next_epoch_receipt = record {
  gas_used = 0;
  exit_code = ExitCodeV2.ok;
  command_receipts = CommandReceiptV2.next_epoch ExitCodeV2.ok 0 ∷ [];
}

abbrev but_storage : (PublicAddress → Bytes → Option Bytes) → Accounts → Accounts
but_storage storage v = record v { storage = storage }

-- One receipt of version 1 with no gas used.
abbrev pub next_epoch_receipt_v1 : List CommandReceiptV1
next_epoch_receipt_v1 =
    (record { exit_code = ExitCodeV1.success; gas_used = 0; return_values = []; logs = [] }) ∷ []

module _ {WS : Type 0} ⦃t : WorldState WS⦄ where
  post_execution_v1 :
      (meta : TxnMetadata) (bd : BlockchainParams) (ws : WS) (c : WorldStateCache WS) (nonce : ℕ)
      (changes : ValidatorChanges)
      → meta.command_kinds ≡ CommandKind.next_epoch ∷ []
      → handle_post_execution format_v1 (set_nonce nonce (with_cache c (start meta bd ws))) changes
        ≡ some (record {
          new_state = commit_to_world_state (record c { ws = t.set_nonce c.ws meta.signer nonce });
          error = none;
          receipt = some next_epoch_receipt_v1;
          validator_changes = some changes;
        })
  unfolding handle_post_execution set_nonce new_state new_context Meter.new Output.empty
      command_receipt_v1 into_receipt_v1 push_command_receipt total_gas_used_for_executed_commands
  post_execution_v1 meta bd ws c nonce changes e = ground (arith, e)

  post_execution_v2 :
      (meta : TxnMetadata) (bd : BlockchainParams) (ws : WS) (c : WorldStateCache WS) (nonce : ℕ)
      (changes : ValidatorChanges)
      → meta.command_kinds ≡ CommandKind.next_epoch ∷ []
      → handle_post_execution format_v2 (set_nonce nonce (with_cache c (start meta bd ws))) changes
        ≡ some (record {
          new_state = commit_to_world_state (record c { ws = t.set_nonce c.ws meta.signer nonce });
          error = none;
          receipt = some next_epoch_receipt;
          validator_changes = some changes;
        })
  unfolding handle_post_execution set_nonce new_state new_context Meter.new Output.empty
      command_receipt_v2 into_receipt_v2 push_command_receipt total_gas_used_for_executed_commands
  post_execution_v2 meta bd ws c nonce changes e = ground (arith, e)

  abbrev bumped : PublicAddress → ℕ → WorldStateCache WS → WorldStateCache WS
  bumped signer nonce c = record c { ws = t.set_nonce c.ws signer nonce }

  bumped-HasUniqueWrites :
      (signer : PublicAddress) (nonce : ℕ) {c : WorldStateCache WS}
      → HasUniqueWrites c
      → HasUniqueWrites (bumped signer nonce c)
  bumped-HasUniqueWrites signer nonce h = record {
    balances = h.balances;
    cbi_versions = h.cbi_versions;
    contract_codes = h.contract_codes;
    storage_data = h.storage_data;
  }

  -- What a reader sees after the run from a new cache, the nonce bumped: the accounts with the new
  -- nonce, but for the storage.
  seen_bumped :
      (laws : WorldStateLaws WS) (ws : WS) (address signer : PublicAddress) (nonce : ℕ)
      (c : WorldStateCache WS) (storage : PublicAddress → Bytes → Option Bytes)
      → IsNetworkStep address (World.new ws) c
      → but_storage storage (seen_accounts (pending (bumped signer nonce c)))
        ≡ but_storage storage (record (accounts ws) { nonce = update (t.nonce ws) signer nonce })
  unfolding World.new Data.empty HashMap.get
  seen_bumped laws ws address signer nonce c storage h =
      ap
        (λ (p : Pending WS).
          but_storage storage (seen_accounts (record p { ws = t.set_nonce p.ws signer nonce })))
        h.others
      ∙ ap (but_storage storage) (laws.accounts-set_nonce ws signer nonce)

  seen_storage :
      (laws : WorldStateLaws WS) (ws : WS) (address signer : PublicAddress) (nonce : ℕ)
      (c : WorldStateCache WS) (a : PublicAddress) (k : Bytes)
      → IsNetworkStep address (World.new ws) c
      → address ≢ a
      → (seen_accounts (pending (bumped signer nonce c))).storage a k
        ≡ non_empty (t.storage_get ws a k)
  unfolding World.new Data.empty HashMap.get
  seen_storage laws ws address signer nonce c a k h n = rw (h.storage a k n) (
      ap (λ (v : Accounts). v.storage a k) (laws.accounts-set_nonce c.ws signer nonce)
      ∙ ap (λ (p : Pending WS). non_empty (t.storage_get p.ws a k)) h.others)

  -- The accounts after a next epoch command: the signer's nonce is one more, and nothing else is
  -- changed but the storage of the network account.
  pub record IsNextEpoch (address signer : PublicAddress) (nonce : ℕ) (ws ws' : WS) : Type 0 where
    pub accounts_kept :
        but_storage (accounts ws).storage (accounts ws')
        ≡ record (accounts ws) { nonce = update (t.nonce ws) signer (saturating_add nonce 1) }
    pub storage_kept :
        (a : PublicAddress) (k : Bytes)
        → address ≢ a
        → (accounts ws').storage a k ≡ (accounts ws).storage a k

  committed :
      (laws : WorldStateLaws WS) (ws : WS) (address signer : PublicAddress) (nonce : ℕ)
      (c : WorldStateCache WS)
      → IsNetworkStep address (World.new ws) c
      → IsNextEpoch address signer nonce ws
          (commit_to_world_state (bumped signer (saturating_add nonce 1) c))
  committed laws ws address signer nonce c h =
      let n = saturating_add nonce 1 in
      let unique = IsValid-HasUniqueWrites (h.valid (new-IsValid ws)) in
      let seen =
        commit_to_world_state_lem laws (bumped signer n c)
          (bumped-HasUniqueWrites signer n unique) in
      record {
        accounts_kept =
            ap (but_storage (accounts ws).storage) seen
            ∙ seen_bumped laws ws address signer n c (accounts ws).storage h;
        storage_kept = λ a k d.
            ap (λ (v : Accounts). v.storage a k) seen
            ∙ seen_storage laws ws address signer n c a k h d;
      }

module _ {WS E R : Type 0} (format : ReceiptFormat E R) (receipt : R) ⦃t : WorldState WS⦄
    ⦃net : NetworkAccount⦄ where
  -- Where the guards hold and the state transition does not panic, and the format makes the receipt.
  accepted :
      (laws : WorldStateLaws WS) (meta : TxnMetadata) (bd : BlockchainParams) (ws : WS)
      (performance : ValidatorPerformance) (changes : ValidatorChanges)
      → ((c : WorldStateCache WS) (n : ℕ)
          → handle_post_execution format (set_nonce n (with_cache c (start meta bd ws))) changes
            ≡ some (record {
              new_state = commit_to_world_state (bumped meta.signer n c);
              error = none;
              receipt = some receipt;
              validator_changes = some changes;
            }))
      → (run_on_cache net.network_address (next_epoch performance) (World.new ws)).0 ≡ some changes
      → (tr : Transition WS R) × (run_next_epoch format (some performance) (start meta bd ws)
          ≡ some tr)
        × IsNextEpoch net.network_address meta.signer (t.nonce ws meta.signer) ws tr.new_state
        × (tr.error ≡ none)
        × (tr.receipt ≡ some receipt)
        × (tr.validator_changes ≡ some changes)
  unfolding run_next_epoch new_state new_context Meter.new
  accepted laws meta bd ws performance changes ends h =
      let c = (run_on_cache net.network_address (next_epoch performance) (World.new ws)).1 in
      let n = saturating_add (t.nonce ws meta.signer) 1 in
      (
        record {
          new_state = commit_to_world_state (bumped meta.signer n c);
          error = none;
          receipt = some receipt;
          validator_changes = some changes;
        },
        rw h (ends c n),
        committed laws ws net.network_address meta.signer (t.nonce ws meta.signer) c (
            IsNetworkStep-run_on_cache net.network_address (next_epoch performance) (World.new ws)),
        refl,
        refl,
        refl,
      )

module _ {WS : Type 0} ⦃t : WorldState WS⦄ ⦃net : NetworkAccount⦄ where
  pub accepted_v1 :
      (laws : WorldStateLaws WS) (meta : TxnMetadata) (bd : BlockchainParams) (ws : WS)
      (performance : ValidatorPerformance) (changes : ValidatorChanges)
      → meta.command_kinds ≡ CommandKind.next_epoch ∷ []
      → (run_on_cache net.network_address (next_epoch performance) (World.new ws)).0 ≡ some changes
      → (tr : Transition WS (List CommandReceiptV1)) × (run_next_epoch format_v1
            (some performance)
            (start meta bd ws)
          ≡ some tr)
        × IsNextEpoch net.network_address meta.signer (t.nonce ws meta.signer) ws tr.new_state
        × (tr.error ≡ none)
        × (tr.receipt ≡ some next_epoch_receipt_v1)
        × (tr.validator_changes ≡ some changes)
  accepted_v1 laws meta bd ws performance changes e h =
      accepted format_v1 next_epoch_receipt_v1 laws meta bd ws performance changes
        (λ c n. post_execution_v1 meta bd ws c n changes e) h

  pub accepted_v2 :
      (laws : WorldStateLaws WS) (meta : TxnMetadata) (bd : BlockchainParams) (ws : WS)
      (performance : ValidatorPerformance) (changes : ValidatorChanges)
      → meta.command_kinds ≡ CommandKind.next_epoch ∷ []
      → (run_on_cache net.network_address (next_epoch performance) (World.new ws)).0 ≡ some changes
      → (tr : Transition WS ReceiptV2) × (run_next_epoch format_v2
            (some performance)
            (start meta bd ws)
          ≡ some tr)
        × IsNextEpoch net.network_address meta.signer (t.nonce ws meta.signer) ws tr.new_state
        × (tr.error ≡ none)
        × (tr.receipt ≡ some next_epoch_receipt)
        × (tr.validator_changes ≡ some changes)
  accepted_v2 laws meta bd ws performance changes e h =
      accepted format_v2 next_epoch_receipt laws meta bd ws performance changes
        (λ c n. post_execution_v2 meta bd ws c n changes e) h
