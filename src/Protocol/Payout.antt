-- ===== src/Protocol/Payout.antt =====
-- What a pool pays at the end of an epoch (src/commands/protocol.rs with src/rewards_formulas.rs):
-- nothing overflows, and the stakers and the operator are together paid no more than its reward.
use native.Mathlib.Nat.{mul-le-mul, mul-div-le, mul-add, mul_comm, le_of_mul-le-mul_left}
use pchain_runtime.Prelude.{
  ℕ, zero, suc, ◌+◌, ◌*◌, ◌/◌, ◌≤◌, ◌<◌, ◌≡◌, refl, sym, ap, subst, Option-cases, some, List, [],
  ◌∷◌, Bool-cases, inl, inr, ltb, arith,
}
use pchain_runtime.Word.{u64_max, saturating_add}
use pchain_runtime.Types.{PublicAddress}
use pchain_runtime.Network.{Stake}
use pchain_runtime.Rewards.{stake_reward, pool_reward}
use pchain_runtime.Rewards.Bounds.{stake_reward_lem}
use pchain_runtime.Rewards.Issuance.{u32_max, pool_reward_lem}
use pchain_runtime.Protocol.{add_stakes, reward_stakes, stakers_to_reward, operator_reward}

abbrev pub staked : List Stake → ℕ
staked [] = 0
staked (s ∷ ss) = s.power + staked ss

abbrev pub total_rewards : List (PublicAddress × ℕ) → ℕ
total_rewards [] = 0
total_rewards ((_, reward) ∷ rs) = reward + total_rewards rs

add_stakes_lem :
    (own : ℕ) (ss : List Stake) → own + staked ss ≤ u64_max → add_stakes own ss ≡ own + staked ss
unfolding add_stakes
add_stakes_lem own [] h = omega arith
add_stakes_lem own (s ∷ ss) h =
    ground (arith, add_stakes_lem (saturating_add own s.power) ss (omega (arith, h)), h)

-- A reward of which a hundred fit in a `u64`, as every pool's does.
stake_reward-some :
    (p c s t : ℕ)
    → p * 100 ≤ u64_max
    → c ≤ 100
    → s ≤ u64_max
    → t ≤ u64_max
    → (reward fee : ℕ) × (stake_reward p c s t ≡ some (reward, fee))
unfolding stake_reward
stake_reward-some p c s t h k l m =
    let shared = mul-le-mul {n₁ = p} {m₁ = s} {n₂ = u64_max} {m₂ = u64_max} (omega (arith, h)) l in
    let rated = mul-le-mul {n₁ = c} {m₁ = p} {n₂ = 100} {m₂ = p} k (omega arith) in
    let scaled =
      mul-le-mul {n₁ = c * p} {m₁ = s} {n₂ = u64_max} {m₂ = u64_max} (omega (arith, rated, h)) l in
    elim (Option-cases (stake_reward p c s t)) [
      | inl failed ↦ absurd (ground (arith, shared, rated, scaled))
      | inr ((reward, fee), e) ↦ (reward, fee, e)
    ]

next_bound :
    (p t s later fees fee fees' reward rest total : ℕ)
    → fees' ≤ fees + fee
    → t * (reward + fee) ≤ p * s
    → t * (rest + total) ≤ p * later + t * fees'
    → t * (reward + rest + total) ≤ p * (s + later) + t * fees
next_bound p t s later fees fee fees' reward rest total h k l = omega (
  arith,
  k,
  l,
  mul-le-mul {n₁ = t} {m₁ = fees'} {n₂ = t} {m₂ = fees + fee} (omega arith) h,
  mul-add t fees fee,
  mul-add t reward fee,
  mul-add p s later,
  mul-add t (reward + rest) total,
  mul-add t reward rest,
  mul-add t rest total,
)

share_bound : (p s t paid : ℕ) → paid ≡ p * s / t → t * paid ≤ p * s
share_bound p s t paid e = subst (λ x. t * x ≤ p * s) (sym e) (mul-div-le (p * s) t)

-- The fees of the stakers before are counted in the bound.
reward_stakes_lem :
    (p c t : ℕ) (ss : List Stake) (fees : ℕ)
    → p * 100 ≤ u64_max
    → c ≤ 100
    → t ≤ u64_max
    → staked ss ≤ t
    → (stakers : List (PublicAddress × ℕ)) × (total : ℕ) × (reward_stakes p c t ss fees
        ≡ some (stakers, total))
      × (t * (total_rewards stakers + total) ≤ p * staked ss + t * fees)
unfolding reward_stakes
reward_stakes_lem p c t [] fees h k l m = ([], fees, refl, omega arith)
reward_stakes_lem p c t (s ∷ ss) fees h k l m =
    let (reward, fee, e) = stake_reward-some p c s.power t h k (omega (arith, l, m)) l in
    let (rest, total, f, bound) =
      reward_stakes_lem p c t ss (saturating_add fees fee) h k l (omega (arith, m)) in
    let share = stake_reward_lem p c s.power t (omega (arith, h)) k (omega (arith, m)) e in
    (
      (s.owner, reward) ∷ rest,
      total,
      rw (e, f) refl,
      next_bound p t s.power (staked ss) fees fee (saturating_add fees fee) reward
          (total_rewards rest) total (omega arith) (share_bound p s.power t (reward + fee) share)
          bound,
    )

-- With no stake at all nobody is paid.
reward_stakes_nothing :
    (p c : ℕ) (ss : List Stake) (fees : ℕ)
    → fees ≤ u64_max
    → (stakers : List (PublicAddress × ℕ)) × (reward_stakes p c 0 ss fees ≡ some (stakers, fees))
      × (total_rewards stakers ≡ 0)
unfolding reward_stakes stake_reward
reward_stakes_nothing p c [] fees h = ([], refl, refl)
reward_stakes_nothing p c (s ∷ ss) fees h =
    let (rest, e, z) = reward_stakes_nothing p c ss fees h in
    ((s.owner, 0) ∷ rest, ground (arith, e, h), omega (arith, z))

-- The operator's part, and what it leaves of the pool's reward.
all_paid :
    (p t own later stakers fees reward : ℕ)
    → 0 < t
    → t ≡ own + later
    → t * reward ≤ p * own
    → t * (stakers + fees) ≤ p * later + t * 0
    → stakers + (reward + fees) ≤ p
all_paid p t own later stakers fees reward h e k l =
    le_of_mul-le-mul_left {m = stakers + (reward + fees)} {n = p} {k = t}
      (omega (
        arith,
        k,
        l,
        mul_comm t p,
        ap (λ x. p * x) e,
        mul-add p own later,
        mul-add t stakers fees,
        mul-add t stakers (reward + fees),
        mul-add t reward fees,
      ))
      h

operator_part :
    (p t own later stakers fees : ℕ)
    → p * 100 ≤ u64_max
    → 0 < t
    → t ≤ u64_max
    → t ≡ own + later
    → t * (stakers + fees) ≤ p * later + t * 0
    → (reward : ℕ) × (operator_reward p own t fees ≡ some reward) × (stakers + reward ≤ p)
unfolding operator_reward
operator_part p t own later stakers fees h k l e b =
    let (own_reward, fee, f) =
      stake_reward-some p 0 own t h (omega arith) (omega (arith, e, l)) l in
    let share = stake_reward_lem p 0 own t (omega (arith, h)) (omega arith) (omega (arith, e)) f in
    let paid = share_bound p own t (own_reward + fee) share in
    let bound =
      all_paid p t own later stakers fees own_reward k e
        (omega (arith, paid, mul-add t own_reward fee)) b in
    (saturating_add own_reward fees, rw f refl, omega (arith, bound))

abbrev Paid : ℕ → ℕ → ℕ → List Stake → ℕ → Type 0
Paid p c own ss t =
    (stakers : List (PublicAddress × ℕ)) × (fees reward : ℕ) × (stakers_to_reward p c t ss
      ≡ some (stakers, fees))
    × (operator_reward p own t fees ≡ some reward)
    × (total_rewards stakers + reward ≤ p)

pays_at :
    (p c own : ℕ) (ss : List Stake) (t : ℕ)
    → p * 100 ≤ u64_max
    → c ≤ 100
    → t ≤ u64_max
    → t ≡ own + staked ss
    → Paid p c own ss t
unfolding stakers_to_reward operator_reward
pays_at p c own ss zero h k l e = elim (Bool-cases (ltb 0 p)) [
  | inl some_reward ↦
      let (stakers, f, z) = reward_stakes_nothing p c ss 0 (omega arith) in
      (stakers, 0, 0, rw some_reward f, refl, omega (arith, z))
  | inr no_reward ↦ ([], 0, 0, rw no_reward refl, refl, omega arith)
]
pays_at p c own ss (suc n) h k l e = elim (Bool-cases (ltb 0 p)) [
  | inl some_reward ↦
      let (stakers, fees, f, bound) = reward_stakes_lem p c (suc n) ss 0 h k l (omega (arith, e)) in
      let (reward, g, below) =
        operator_part p (suc n) own (staked ss) (total_rewards stakers) fees h (omega arith) l e
          bound in
      (stakers, fees, reward, rw some_reward f, g, below)
  | inr no_reward ↦
      let (reward, g, below) =
        operator_part p (suc n) own (staked ss) 0 0 h (omega arith) l e (omega arith) in
      ([], 0, reward, rw no_reward refl, g, below)
]

-- At the end of an epoch, for a power that fits in a `u64`, block counts that fit in a `u32`, a
-- commission rate of at most 100 and stakes that add up within a `u64`, neither the pool's reward
-- nor the reward of any of its stakes overflows, and the stakers and the operator, commissions
-- counted, are together paid at most the pool's reward.
pub pool_payout :
    (epoch power actual expected rate own : ℕ) (stakes : List Stake)
    → power ≤ u64_max
    → actual ≤ u32_max
    → expected ≤ u32_max
    → rate ≤ 100
    → own + staked stakes ≤ u64_max
    → (p : ℕ) × (stakers : List (PublicAddress × ℕ)) × (fees reward : ℕ) × (pool_reward epoch power
          actual expected
        ≡ some p)
      × (stakers_to_reward p rate (add_stakes own stakes) stakes ≡ some (stakers, fees))
      × (operator_reward p own (add_stakes own stakes) fees ≡ some reward)
      × (total_rewards stakers + reward ≤ p)
pool_payout epoch power actual expected rate own stakes h k l m n =
    let (p, e, bound) = pool_reward_lem epoch power actual expected h k l in
    let total = add_stakes_lem own stakes n in
    let (stakers, fees, reward, f, g, below) =
      pays_at p rate own stakes (add_stakes own stakes) (omega (arith, bound)) m
        (omega (arith, total)) total in
    (p, stakers, fees, reward, e, f, g, below)
