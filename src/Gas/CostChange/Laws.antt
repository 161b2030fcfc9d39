-- ===== src/Gas/CostChange/Laws.antt =====
-- `CostChange` is a signed amount: the deducted less the rewarded gas.
use pchain_runtime.Prelude.{ℕ, ◌+◌, ◌≤◌, ◌≡◌, ◌≢◌, ◌⊎◌, List, [], ◌∷◌, none, some, arith}
use pchain_runtime.Word.{u64_max}
use pchain_runtime.Gas.CostChange.{CostChange, zero_change, net_cost, add, sub}

-- Where `sub` does not panic, its result is the difference of the signed amounts, as an equation
-- between sums.
pub sub-signed :
    (a b : CostChange) {c : CostChange}
    → sub a b ≡ some c
    → c.deducted + a.rewarded + b.deducted ≡ c.rewarded + a.deducted + b.rewarded
unfolding sub
sub-signed a b h = ground arith

-- `sub` does not panic where each amount's deducted and the other's rewarded gas have a sum in `u64`.
pub sub-total :
    (a b : CostChange)
    → a.deducted + b.rewarded ≤ u64_max
    → a.rewarded + b.deducted ≤ u64_max
    → sub a b ≢ none
unfolding sub
sub-total a b h k = ground arith

-- The gas deducted by some changes, and the gas rewarded.
abbrev pub total_deducted : List CostChange → ℕ
total_deducted [] = 0
total_deducted (c ∷ cs) = c.deducted + total_deducted cs

abbrev pub total_rewarded : List CostChange → ℕ
total_rewarded [] = 0
total_rewarded (c ∷ cs) = c.rewarded + total_rewarded cs

-- Changes added one after the other, as the gas meter does (`+=`).
abbrev pub add_all : CostChange → List CostChange → CostChange
add_all acc [] = acc
add_all acc (c ∷ cs) = add_all (add acc c) cs

add_all_sums :
    (acc : CostChange) (cs : List CostChange)
    → acc.deducted + total_deducted cs ≤ u64_max
    → acc.rewarded + total_rewarded cs ≤ u64_max
    → ((add_all acc cs).deducted ≡ acc.deducted + total_deducted cs)
      × ((add_all acc cs).rewarded ≡ acc.rewarded + total_rewarded cs)
unfolding add
add_all_sums acc [] h k = (omega arith, omega arith)
add_all_sums acc (c ∷ cs) h k =
    let (d, r) = add_all_sums (add acc c) cs (omega (arith, h)) (omega (arith, k)) in
    (omega (arith, d, h), omega (arith, r, k))

-- The net cost of cost changes that are added one after the other, whose deductions add up within a
-- `u64` and so do their rewards, is the sum of the deductions less the sum of the rewards: a cost
-- or a reward, and never both.
pub net_cost-add_all :
    (cs : List CostChange)
    → total_deducted cs ≤ u64_max
    → total_rewarded cs ≤ u64_max
    → let (cost, reward) = net_cost (add_all zero_change cs) in
      (cost + total_rewarded cs ≡ reward + total_deducted cs) × ((cost ≡ 0) ⊎ (reward ≡ 0))
unfolding net_cost
net_cost-add_all cs h k =
    ground (arith, add_all_sums zero_change cs (omega (arith, h)) (omega (arith, k)))
