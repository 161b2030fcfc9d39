-- ===== src/Rewards.antt =====
-- The issuance of an epoch, the reward of a pool and that of one stake: src/rewards_formulas.rs. Its
-- products panic on overflow.
pub mod Table
pub mod Issuance
pub mod Bounds
use pchain_runtime.Prelude.{
  ℕ, ◌-◌, ◌*◌, ◌/◌, Option, none, some, leb, ltb, nat_beq, if◌then◌else◌, get_elem?,
}
use pchain_runtime.Word.{as_u64, checked_mul, ◌>>=◌}
use pchain_runtime.Rewards.Table.{issuance_rate_reduction_factor}

abbrev pub u128_max : ℕ
u128_max = 340282366920938463463374607431768211455

abbrev pub checked_mul_u128 : ℕ → ℕ → Option ℕ
checked_mul_u128 a b = if leb (a * b) u128_max then some (a * b) else none

-- What the stake is rewarded, and the commission of the pool's operator.
unfoldable pub stake_reward : ℕ → ℕ → ℕ → ℕ → Option (ℕ × ℕ)
stake_reward pool_reward commission_rate stake_power total_stakes =
    if nat_beq total_stakes 0 then some (0, 0) else do
      shared ← checked_mul_u128 pool_reward stake_power
      let reward = shared / total_stakes
      rated ← checked_mul_u128 commission_rate pool_reward
      scaled ← checked_mul_u128 rated stake_power
      percents ← checked_mul_u128 100 total_stakes
      let commission_fee = scaled / percents
      some (as_u64 (reward - commission_fee), as_u64 commission_fee)

abbrev pub constant_issuance_epoch : ℕ
constant_issuance_epoch = 3650

-- The numerator and the denominator. An index outside the table panics.
abbrev pub constant_issuance : ℕ → Option (ℕ × ℕ)
constant_issuance pool_power = do
  numerator ← checked_mul_u128 pool_power 15
  some (numerator, 365 * 1000)

unfoldable pub issuance : ℕ → ℕ → Option (ℕ × ℕ)
issuance epoch_number pool_power =
    if leb constant_issuance_epoch epoch_number then constant_issuance pool_power else do
      factor ← get_elem? issuance_rate_reduction_factor epoch_number
      rate ← checked_mul 835 factor
      numerator ← checked_mul_u128 pool_power rate
      some (numerator, 365 * 100000000)

abbrev pub whole_reward : Option (ℕ × ℕ) → Option ℕ
whole_reward issued = do (numerator, denominator) ← issued; some (as_u64 (numerator / denominator))

-- The reward of a pool that proposed `actual` of the blocks expected of it.
unfoldable pub pool_reward : ℕ → ℕ → ℕ → ℕ → Option ℕ
unfolding issuance
pool_reward current_epoch pool_power actual expected =
    if nat_beq expected 0
    then some 0
    else if ltb expected actual
    then whole_reward (issuance current_epoch pool_power)
    else do
      (numerator, denominator) ← issuance current_epoch pool_power
      scaled ← checked_mul_u128 numerator actual
      baseline ← checked_mul_u128 denominator expected
      some (as_u64 (scaled / baseline))
