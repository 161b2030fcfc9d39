-- ===== src/Rewards/Bounds.antt =====
-- Rewards and commissions never exceed what the pool was rewarded.
use native.Mathlib.Nat.{
  div-le_of_le-mul, mul-le-mul, mul-div-le, le_of_mul-le-mul_left, mul_assoc, div-lt_iff_lt-mul,
  lt-mul-div-succ, div-zero, mul-add,
}
use pchain_runtime.Prelude.{
  ℕ, zero, suc, ◌+◌, ◌*◌, ◌/◌, ◌≤◌, ◌<◌, ◌≡◌, ap, ◌∙◌, Option-cases, inl, inr, Option, some, List,
  [], ◌∷◌, arith,
}
use pchain_runtime.Word.{u64_max, ◌>>=◌}
use pchain_runtime.Rewards.{stake_reward}

fee_le : (p c s t : ℕ) → c ≤ 100 → 0 < t → c * p * s / (100 * t) ≤ p * s / t
fee_le p c s t h k =
    let q = p * s / t in
    let more = lt-mul-div-succ (p * s) k in
    let part = mul-le-mul {n₁ = c} {m₁ = p * s} {n₂ = 100} {m₂ = p * s} h (omega arith) in
    let below =
      (div-lt_iff_lt-mul {k = 100 * t} {x = c * p * s} {y = q + 1} (omega arith)).1
        (omega (arith, more, part, mul_assoc c p s)) in
    omega (arith, below)

share_le : (p s t : ℕ) → s ≤ t → p * s / t ≤ p
share_le p s t h =
    div-le_of_le-mul t
      (omega (arith, mul-le-mul {n₁ = s} {m₁ = p} {n₂ = t} {m₂ = p} h (omega arith)))

-- The reward of a stake and its commission, where no product overflows a `u128`, add up to exactly
-- its share of the pool's reward, rounded down, for a commission rate of at most 100, a power of at
-- most the total and a reward that fits in a `u64`.
pub stake_reward_lem :
    (p c s t : ℕ) {reward fee : ℕ}
    → p ≤ u64_max
    → c ≤ 100
    → s ≤ t
    → stake_reward p c s t ≡ some (reward, fee)
    → reward + fee ≡ p * s / t
unfolding stake_reward
stake_reward_lem p c s zero hp hc hs e = ground (arith, div-zero (p * s))
stake_reward_lem p c s (suc n) hp hc hs e =
    ground (arith, fee_le p c s (suc n) hc (omega arith), share_le p s (suc n) hs)

abbrev pub total_power : List ℕ → ℕ
total_power [] = 0
total_power (s ∷ ss) = s + total_power ss

-- What a pool pays for all its stakes, rewards and commissions together.
abbrev pub total_paid : ℕ → ℕ → ℕ → List ℕ → Option ℕ
total_paid p c t [] = some 0
total_paid p c t (s ∷ ss) = do
  paid ← stake_reward p c s t
  rest ← total_paid p c t ss
  some (paid.0 + paid.1 + rest)

paid_sum :
    (p c t s : ℕ) (ss : List ℕ) (reward fee rest paid : ℕ)
    → stake_reward p c s t ≡ some (reward, fee)
    → total_paid p c t ss ≡ some rest
    → total_paid p c t (s ∷ ss) ≡ some paid
    → paid ≡ reward + fee + rest
paid_sum p c t s ss reward fee rest paid made others e = ground arith

paid_share :
    (p c t : ℕ) (ss : List ℕ) {paid : ℕ}
    → p ≤ u64_max
    → c ≤ 100
    → total_power ss ≤ t
    → total_paid p c t ss ≡ some paid
    → t * paid ≤ p * total_power ss
paid_share p c t [] hp hc hs e = ground arith
paid_share p c t (s ∷ ss) {paid} hp hc hs e = elim (Option-cases (stake_reward p c s t)) [
  | inl failed ↦ absurd (ground arith)
  | inr ((reward, fee), made) ↦ elim (Option-cases (total_paid p c t ss)) [
    | inl failed ↦ absurd (ground arith)
    | inr (rest, others) ↦
        let now = stake_reward_lem p c s t hp hc (omega arith) made in
        let later = paid_share p c t ss hp hc (omega arith) others in
        let sum = paid_sum p c t s ss reward fee rest paid made others e in
        omega (
          arith,
          later,
          mul-div-le (p * s) t,
          mul-add p s (total_power ss),
          mul-add t (p * s / t) rest,
          ap (λ n. t * n) (sum ∙ ap (λ n. n + rest) now),
        )
  ]
]

paid_nothing : (p c : ℕ) (ss : List ℕ) {paid : ℕ} → total_paid p c 0 ss ≡ some paid → paid ≡ 0
unfolding stake_reward
paid_nothing p c [] e = ground arith
paid_nothing p c (s ∷ ss) e = elim (Option-cases (total_paid p c 0 ss)) [
  | inl failed ↦ absurd (ground arith)
  | inr (rest, others) ↦ ground (arith, paid_nothing p c ss others)
]

-- All the stakes of a pool, whose powers add up to at most the total, are together paid at most
-- what the pool was rewarded, rewards and commissions counted, for a commission rate of at most 100
-- and a reward that fits in a `u64`, if no product overflows a `u128`.
pub total_paid_lem :
    (p c t : ℕ) (ss : List ℕ) {paid : ℕ}
    → p ≤ u64_max
    → c ≤ 100
    → total_power ss ≤ t
    → total_paid p c t ss ≡ some paid
    → paid ≤ p
total_paid_lem p c zero ss hp hc hs e = omega (arith, paid_nothing p c ss e)
total_paid_lem p c (suc n) ss {paid} hp hc hs e =
    le_of_mul-le-mul_left {m = paid} {n = p} {k = suc n}
      (omega (
        arith,
        paid_share p c (suc n) ss hp hc hs e,
        mul-le-mul {n₁ = total_power ss} {m₁ = p} {n₂ = suc n} {m₂ = p} hs (omega arith),
      ))
      (omega arith)
