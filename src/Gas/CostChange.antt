-- ===== src/Gas/CostChange.antt =====
-- `CostChange` of src/gas/cost_change.rs: gas deducted and gas rewarded, each a `u64`.
pub mod Laws
use pchain_runtime.Prelude.{ℕ, Option, none, some}
use pchain_runtime.Word.{saturating_add, saturating_sub, checked_add}

pub record CostChange : Type 0 where
  pub deducted : ℕ
  pub rewarded : ℕ

-- `CostChange::default`
abbrev pub zero_change : CostChange
zero_change = record { deducted = 0; rewarded = 0 }

unfoldable pub deduct : ℕ → CostChange
deduct value = record { deducted = value; rewarded = 0 }

unfoldable pub reward : ℕ → CostChange
reward value = record { deducted = 0; rewarded = value }

-- The net cost, and the net reward.
unfoldable pub net_cost : CostChange → ℕ × ℕ
net_cost c = (saturating_sub c.deducted c.rewarded, saturating_sub c.rewarded c.deducted)

-- `Add` and `AddAssign`.
unfoldable pub add : CostChange → CostChange → CostChange
add a b = record {
  deducted = saturating_add a.deducted b.deducted;
  rewarded = saturating_add a.rewarded b.rewarded;
}

abbrev both : Option ℕ → Option ℕ → Option CostChange
both none _ = none
both (some _) none = none
both (some d) (some r) = some (record { deducted = d; rewarded = r })

-- `Sub` and `SubAssign`; `none` is the panic of the plain `+` on overflow.
unfoldable pub sub : CostChange → CostChange → Option CostChange
sub a b =
    let net_deduct = saturating_sub b.deducted a.deducted in
    let net_reward = saturating_sub b.rewarded a.rewarded in
    both (checked_add (saturating_sub a.deducted b.deducted) net_reward)
      (checked_add (saturating_sub a.rewarded b.rewarded) net_deduct)
