-- ===== src/Cache/Receipt/Laws.antt =====
-- What a V2 receipt holds, when it can be made, and what a deferred command does to the receipt of
-- the call that sent it.
use pchain_runtime.Prelude.{
  ℕ, max, ◌≡◌, ◌≢◌, ◌↔◌, none, some, List, [], ◌∷◌, length, length-append, length-map, length-drop,
  last, map, drop, refl, ◌∙◌, arith,
}
use pchain_runtime.Word.{saturating_add}
use pchain_runtime.Error.{ExitCodeV2}
use pchain_runtime.Types.{CommandKind}
use pchain_runtime.Types.Receipt.{
  CommandReceiptV2, ReceiptV2, create_not_executed_cmd_rcp_v2, gas_used_and_exit_code_v2,
  set_gas_used_and_exit_code_v2,
}
use pchain_runtime.Cache.Receipt.{
  into_receipt_v2, fill_not_executed, combine_v2, override_return_value,
}

length-fill_not_executed :
    (rcps : List CommandReceiptV2) (kinds : List CommandKind)
    → length (fill_not_executed rcps kinds) ≡ max (length rcps) (length kinds)
unfolding fill_not_executed
length-fill_not_executed rcps kinds = ground (
  arith,
  length-append rcps (map create_not_executed_cmd_rcp_v2 (drop (length rcps) kinds)),
  length-map create_not_executed_cmd_rcp_v2 (drop (length rcps) kinds),
  length-drop (length rcps) kinds,
)

-- A V2 receipt has the gas it is given and one command receipt for each command of the transaction,
-- or for each executed one if there are more of these.
pub into_receipt_v2-length :
    (rcps : List CommandReceiptV2) (gas_used : ℕ) (kinds : List CommandKind) {r : ReceiptV2}
    → into_receipt_v2 rcps gas_used kinds ≡ some r
    → (r.gas_used ≡ gas_used) × (length r.command_receipts ≡ max (length rcps) (length kinds))
unfolding into_receipt_v2
into_receipt_v2-length rcps gas_used kinds h = ground (arith, length-fill_not_executed rcps kinds)

last_of_cons : (r : CommandReceiptV2) (rcps : List CommandReceiptV2) → last (r ∷ rcps) ≢ none
last_of_cons r [] h = cc
last_of_cons r (s ∷ rcps) h = last_of_cons s rcps h

-- Making a V2 receipt panics exactly when the transaction has commands and none was executed.
pub into_receipt_v2_panics :
    (rcps : List CommandReceiptV2) (gas_used : ℕ) (kinds : List CommandKind)
    → (into_receipt_v2 rcps gas_used kinds ≡ none) ↔ ((rcps ≡ []) × (kinds ≢ []))
unfolding into_receipt_v2
into_receipt_v2_panics [] gas_used [] = (λ h. cc, λ p. absurd (p.1 refl))
into_receipt_v2_panics [] gas_used (k ∷ kinds) = (λ h. (refl, λ e. cc), λ p. ground arith)
into_receipt_v2_panics (r ∷ rcps) gas_used kinds =
    (λ h. absurd (last_of_cons r rcps (ground arith)), λ p. cc)

gas_used_and_exit_code_v2-set :
    (r : CommandReceiptV2) (g : ℕ) (e : ExitCodeV2)
    → gas_used_and_exit_code_v2 (set_gas_used_and_exit_code_v2 r g e) ≡ (g, e)
unfolding gas_used_and_exit_code_v2 set_gas_used_and_exit_code_v2
gas_used_and_exit_code_v2-set r g e = ground arith

gas_used_and_exit_code_v2-override :
    (last receipt : CommandReceiptV2)
    → gas_used_and_exit_code_v2 (override_return_value last receipt)
      ≡ gas_used_and_exit_code_v2 last
unfolding gas_used_and_exit_code_v2 override_return_value
gas_used_and_exit_code_v2-override last receipt = ground arith

-- The receipt of a deferred command is merged into the last one: the gas used adds up, saturating,
-- and the exit code is the deferred command's.
pub combine_v2_fields :
    (last receipt : CommandReceiptV2)
    → gas_used_and_exit_code_v2 (combine_v2 last receipt) ≡ (
      saturating_add (gas_used_and_exit_code_v2 last).0 (gas_used_and_exit_code_v2 receipt).0,
      (gas_used_and_exit_code_v2 receipt).1,
    )
unfolding combine_v2
combine_v2_fields last receipt =
    let gas =
      saturating_add (gas_used_and_exit_code_v2 last).0 (gas_used_and_exit_code_v2 receipt).0 in
    let code = (gas_used_and_exit_code_v2 receipt).1 in
    gas_used_and_exit_code_v2-override (set_gas_used_and_exit_code_v2 last gas code) receipt
    ∙ gas_used_and_exit_code_v2-set last gas code
