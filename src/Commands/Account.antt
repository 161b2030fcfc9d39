-- ===== src/Commands/Account.antt =====
-- The transfer command of src/commands/account.rs.
pub mod Laws
use pchain_runtime.Prelude.{ℕ, ◌-◌, ltb, nat_eq, if◌then◌else◌}
use pchain_runtime.Word.{saturating_add}
use pchain_runtime.Types.{PublicAddress}
use pchain_runtime.Error.{not_enough_balance_for_transfer}
use pchain_runtime.Cache.World.{WorldState}
use pchain_runtime.Gas.Meter.{ws_balance, ws_set_balance}
use pchain_runtime.Execution.{
  Execution, gets, metered, metered_, abort, abort_if_gas_exhausted, ◌>>=◌, ◌>>◌,
}

module _ {WS E : Type 0} ⦃t : WorldState WS⦄ where
  unfoldable pub transfer : PublicAddress → ℕ → Execution WS E (Unit {0})
  transfer recipient amount = do
    signer ← gets (λ s. s.txn_meta.signer)
    origin_balance ← metered (ws_balance signer)
    if ltb origin_balance amount then abort not_enough_balance_for_transfer else do
      metered_ (ws_set_balance signer (origin_balance - amount))
      recipient_balance ← metered (ws_balance recipient)
      metered_ (ws_set_balance recipient (saturating_add recipient_balance amount))
      abort_if_gas_exhausted
