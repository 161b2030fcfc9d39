-- ===== src/Commands/Account/Laws.antt =====
-- A transfer moves its amount, or fails and leaves nothing pending.
use pchain_runtime.Prelude.{
  ℕ, ◌-◌, ◌≤◌, ◌<◌, ◌≡◌, ◌⊎◌, inl, inr, refl, ap, ◌∙◌, arith, ◌==◌, nat_eq, ltb, Bool-cases,
  if◌then◌else◌,
}
use pchain_runtime.Word.{saturating_add}
use pchain_runtime.Types.{PublicAddress}
use pchain_runtime.Error.{
  Result, ok, err, panic, not_enough_balance_for_transfer, execution_proper_gas_exhausted,
}
use pchain_runtime.Cache.World
use pchain_runtime.Cache.World.{WorldState}
use pchain_runtime.Cache.World.Laws.{pending, seen_balance, IsValid, revert-new}
use pchain_runtime.Gas.Meter.{GasMeter, ws_balance, ws_set_balance, total_gas_used}
use pchain_runtime.Gas.Meter.Laws.{
  ws_balance-seen, pending-ws_balance, seen-ws_set_balance, ws_balance-IsValid,
  ws_set_balance-IsValid,
}
use pchain_runtime.State.{ExecutionState}
use pchain_runtime.Execution.{gets, metered, metered_, abort, abort_if_gas_exhausted, ◌>>=◌}
use pchain_runtime.Execution.Behaves.{cache_of}
use pchain_runtime.Execution.Steps.{IsMeterStep-ws_balance}
use pchain_runtime.Commands.Account.{transfer}

-- The balances after the amount has gone from the sender, and then to the recipient.
abbrev pub moved : (PublicAddress → ℕ) → PublicAddress → PublicAddress → ℕ → PublicAddress → ℕ
moved b sender recipient amount j =
    if recipient == j
    then saturating_add (if sender == recipient then b sender - amount else b recipient) amount
    else if sender == j
    then b sender - amount
    else b j

module _ {WS : Type 0} ⦃t : WorldState WS⦄ where
  -- The gas meter after the two balances are written.
  abbrev transfer_meter : PublicAddress → PublicAddress → ℕ → GasMeter WS → GasMeter WS
  transfer_meter sender recipient amount g =
      let (origin_balance, g₁) = ws_balance sender g in
      let (recipient_balance, g₂) =
        ws_balance recipient (ws_set_balance sender (origin_balance - amount) g₁) in
      ws_set_balance recipient (saturating_add recipient_balance amount) g₂

  seen-transfer_meter :
      (sender recipient : PublicAddress) (amount : ℕ) (g : GasMeter WS)
      → IsValid g.ws_cache
      → (j : PublicAddress)
      → seen_balance (pending (transfer_meter sender recipient amount g).ws_cache) j
        ≡ moved (seen_balance (pending g.ws_cache)) sender recipient amount j
  seen-transfer_meter sender recipient amount g h j =
      let (origin, g₁) = ws_balance sender g in
      let g₂ = ws_set_balance sender (origin - amount) g₁ in
      let (funds, g₃) = ws_balance recipient g₂ in
      let v₁ = ws_balance-IsValid sender g h in
      let v₂ = ws_set_balance-IsValid sender (origin - amount) g₁ v₁ in
      rw (seen-ws_set_balance recipient (saturating_add funds amount) g₃ j) (
        ground (
          arith,
          ap (λ p. seen_balance p j) (pending-ws_balance recipient g₂),
          seen-ws_set_balance sender (origin - amount) g₁ j,
          seen-ws_set_balance sender (origin - amount) g₁ recipient,
          ap (λ p. seen_balance p j) (pending-ws_balance sender g),
          ap (λ p. seen_balance p recipient) (pending-ws_balance sender g),
          ws_balance-seen sender g h,
          ws_balance-seen recipient g₂ v₂,
        ))

  ws-transfer_meter :
      (sender recipient : PublicAddress) (amount : ℕ) (g : GasMeter WS)
      → (transfer_meter sender recipient amount g).ws_cache.ws ≡ g.ws_cache.ws
  unfolding ws_balance ws_set_balance
  ws-transfer_meter sender recipient amount g = refl

module _ {WS E : Type 0} ⦃t : WorldState WS⦄ where
  -- The balance of an account that a reader of the state's cache sees.
  abbrev pub seen : ExecutionState WS E → PublicAddress → ℕ
  seen s j = seen_balance (pending (cache_of s)) j

  abbrev pub TransferOutcome :
      PublicAddress → ℕ → ExecutionState WS E → Result (Unit {0}) × ExecutionState WS E → Type 0
  TransferOutcome recipient amount s (ok _, s') =
      (amount ≤ seen s s.txn_meta.signer)
      × ((j : PublicAddress) → seen s' j ≡ moved (seen s) s.txn_meta.signer recipient amount j)
  TransferOutcome recipient amount s (err e, s') =
      (cache_of s' ≡ World.new (cache_of s).ws)
      × ((e ≡ not_enough_balance_for_transfer) × (seen s s.txn_meta.signer < amount)
          ⊎ (e ≡ execution_proper_gas_exhausted) × (amount ≤ seen s s.txn_meta.signer))
  TransferOutcome recipient amount s (panic, s') = ⊥

  -- A transfer over a coherent cache never panics. If it succeeds, the signer had the amount, and
  -- every balance is as after the move of the amount, which the recipient's balance adds up to a
  -- `u64` at most, also where signer and recipient are one. If it fails, every pending change is
  -- dropped, and the error is a short balance, or the exhaustion of gas when the balance was
  -- enough.
  pub transfer_lem :
      (recipient : PublicAddress) (amount : ℕ) (s : ExecutionState WS E)
      → IsValid (cache_of s)
      → TransferOutcome recipient amount s (transfer recipient amount s)
  unfolding transfer ◌>>=◌ metered metered_ gets abort abort_if_gas_exhausted
  transfer_lem recipient amount s h =
      let signer = s.txn_meta.signer in
      let g = s.ctx.gas_meter in
      elim (Bool-cases (ltb (ws_balance signer g).0 amount)) [
        | inl short ↦ rw short (
          revert-new (ws_balance signer g).1.ws_cache
              ∙ ap World.new (IsMeterStep-ws_balance signer g).same.ws,
          inl (refl, ground (arith, ws_balance-seen signer g h)),
        )
        | inr enough ↦
            rw enough
              elim (Bool-cases (
                ltb s.txn_meta.gas_limit
                  (total_gas_used (transfer_meter signer recipient amount g)))) [
                    | inl exhausted ↦ rw exhausted (
                      revert-new (transfer_meter signer recipient amount g).ws_cache
                          ∙ ap World.new (ws-transfer_meter signer recipient amount g),
                      inr (refl, ground (arith, ws_balance-seen signer g h)),
                    )
                    | inr paid ↦ rw paid (
                      ground (arith, ws_balance-seen signer g h),
                      seen-transfer_meter signer recipient amount g h,
                    )
                  ]
      ]
