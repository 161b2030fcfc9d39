-- ===== src/Rewards/Issuance.antt =====
-- The issuance never grows from one epoch to a later one, and bounds what a pool is rewarded.
use native.Mathlib.Nat.{mul-le-mul, mul-div-le, le_of_mul-le-mul_left, mul_assoc, mul_comm}
use pchain_runtime.Prelude.{
  ℕ, ◌*◌, ◌/◌, ◌≤◌, ◌<◌, ◌≡◌, refl, some, inl, inr, ◌⊎◌, arith, zero, suc, ap, subst, le-or-lt,
  get_elem?,
}
use pchain_runtime.Word.{u64_max}
use pchain_runtime.Rewards.{u128_max, issuance, pool_reward}
use pchain_runtime.Rewards.Table.{issuance_rate_reduction_factor}
use pchain_runtime.Rewards.Table.Laws.{factor_bounds, factors_ordered}

abbrev pub u32_max : ℕ
u32_max = 4294967295

early_issuance :
    (epoch power : ℕ)
    → epoch < 3650
    → power ≤ u64_max
    → (factor : ℕ) × (get_elem? issuance_rate_reduction_factor epoch ≡ some factor)
      × (issuance epoch power ≡ some (power * (835 * factor), 36500000000))
      × (1970 ≤ factor)
      × (power * (835 * factor) ≤ power * 8350000)
unfolding issuance
early_issuance epoch power h k =
    let (factor, e, low, high) = factor_bounds epoch h in
    let small =
      mul-le-mul {n₁ = power} {m₁ = 835 * factor} {n₂ = power} {m₂ = 8350000} (omega arith)
        (omega (arith, high)) in
    (factor, e, ground (arith, e, small, k, high), low, small)

late_issuance :
    (epoch power : ℕ)
    → 3650 ≤ epoch
    → power ≤ u64_max
    → issuance epoch power ≡ some (power * 15, 365000)
unfolding issuance
late_issuance epoch power h k = ground arith

-- What is issued to a power, and how much at most.
IsIssued : ℕ → ℕ × ℕ → Type 0
IsIssued power (n, d) =
    ((d ≡ 365000) × (n ≤ power * 15)) ⊎ ((d ≡ 36500000000) × (n ≤ power * 8350000))

issued :
    (epoch power : ℕ)
    → power ≤ u64_max
    → (n d : ℕ) × (issuance epoch power ≡ some (n, d)) × IsIssued power (n, d)
unfolding IsIssued
issued epoch power k = elim (le-or-lt 3650 epoch) [
  | inr h ↦
      let (factor, _, e, _, small) = early_issuance epoch power h k in
      (power * (835 * factor), 36500000000, e, inr (refl, small))
  | inl h ↦ (power * 15, 365000, late_issuance epoch power h k, inl (refl, omega arith))
]

-- For a power that fits in a `u64`, the issuance is found for every epoch, in the table or
-- constant, and as a fraction it is never greater at a later epoch than at an earlier one.
pub issuance_descending :
    (i j power : ℕ)
    → i ≤ j
    → power ≤ u64_max
    → (now later : ℕ × ℕ) × (issuance i power ≡ some now)
      × (issuance j power ≡ some later)
      × (later.0 * now.1 ≤ now.0 * later.1)
issuance_descending i j power h k = elim (le-or-lt 3650 j) [
  | inr early ↦
      let (a, ea, ia, _, _) = early_issuance i power (omega arith) k in
      let (b, eb, ib, _, _) = early_issuance j power early k in
      let below = factors_ordered i j a b h ea eb in
      (
        (power * (835 * a), 36500000000),
        (power * (835 * b), 36500000000),
        ia,
        ib,
        omega (
          arith,
          mul-le-mul {n₁ = power} {m₁ = 835 * b} {n₂ = power} {m₂ = 835 * a} (omega arith)
              (omega (arith, below)),
        ),
      )
  | inl late ↦ elim (le-or-lt 3650 i) [
    | inr early ↦
        let (a, ea, ia, low, _) = early_issuance i power early k in
        (
          (power * (835 * a), 36500000000),
          (power * 15, 365000),
          ia,
          late_issuance j power late k,
          omega (
            arith,
            mul-le-mul {n₁ = power} {m₁ = 1500000} {n₂ = power} {m₂ = 835 * a} (omega arith)
                (omega (arith, low)),
          ),
        )
    | inl both ↦ (
      (power * 15, 365000),
      (power * 15, 365000),
      late_issuance i power both k,
      late_issuance j power late k,
      omega arith,
    )
  ]
]

-- A part of no more than the whole of what was issued.
share_of : (n d a b r : ℕ) → 0 < b → a ≤ b → r ≡ n * a / (d * b) → d * r ≤ n
share_of n d a zero r h k e = absurd (omega (arith, h))
share_of n d a (suc b) r h k e =
    le_of_mul-le-mul_left {m = d * r} {n = n} {k = suc b}
      (omega (
        arith,
        e,
        mul-div-le (n * a) (d * suc b),
        mul_assoc (suc b) d r,
        mul_comm (suc b) d,
        mul_comm (suc b) n,
        ap (λ x. d * suc b * x) e,
        mul-le-mul {n₁ = n} {m₁ = a} {n₂ = n} {m₂ = suc b} (omega arith) k,
      ))
      h

bounded : (power n d r : ℕ) → IsIssued power (n, d) → d * r ≤ n → r * 36500000000 ≤ power * 8350000
unfolding IsIssued
bounded power n d r (inl (e, h)) k = omega (arith, subst (λ x. x * r ≤ n) e k)
bounded power n d r (inr (e, h)) k = omega (arith, subst (λ x. x * r ≤ n) e k)

-- Neither product overflows, and the quotient is not truncated.
rewarded :
    (power n d actual expected : ℕ)
    → IsIssued power (n, d)
    → power ≤ u64_max
    → actual ≤ u32_max
    → expected ≤ u32_max
    → (n * actual ≤ u128_max) × (d * expected ≤ u128_max) × (d ≤ 36500000000)
unfolding IsIssued
rewarded power n d actual expected (inl (e, g)) h k l =
    let one =
      mul-le-mul {n₁ = n} {m₁ = actual} {n₂ = u64_max * 8350000} {m₂ = u32_max}
        (omega (arith, g, h)) k in
    let two =
      mul-le-mul {n₁ = d} {m₁ = expected} {n₂ = 36500000000} {m₂ = u32_max} (omega (arith, e)) l in
    (omega (arith, one), omega (arith, two), omega (arith, e))
rewarded power n d actual expected (inr (e, g)) h k l =
    let one =
      mul-le-mul {n₁ = n} {m₁ = actual} {n₂ = u64_max * 8350000} {m₂ = u32_max}
        (omega (arith, g, h)) k in
    let two =
      mul-le-mul {n₁ = d} {m₁ = expected} {n₂ = 36500000000} {m₂ = u32_max} (omega (arith, e)) l in
    (omega (arith, one), omega (arith, two), omega (arith, e))

-- For a power that fits in a `u64` and block counts that fit in a `u32`, the reward of a pool is
-- computed with no overflow, and it is at most the power times 0.0835 / 365, however many blocks
-- are proposed.
pub pool_reward_lem :
    (epoch power actual expected : ℕ)
    → power ≤ u64_max
    → actual ≤ u32_max
    → expected ≤ u32_max
    → (reward : ℕ) × (pool_reward epoch power actual expected ≡ some reward)
      × (reward * 36500000000 ≤ power * 8350000)
unfolding pool_reward
pool_reward_lem epoch power actual zero h k l = (0, ground arith, omega arith)
pool_reward_lem epoch power actual (suc b) h k l =
    let (n, d, e, i) = issued epoch power h in
    let (p, q, r) = rewarded power n d actual (suc b) i h k l in
    elim (le-or-lt actual (suc b)) [
      | inl part ↦
          let small =
            bounded power n d (n * actual / (d * suc b)) i
              (share_of n d actual (suc b) _ (omega arith) part refl) in
          (n * actual / (d * suc b), ground (arith, e, p, q, r, small), small)
      | inr more ↦
          let small = bounded power n d (n / d) i (mul-div-le n d) in
          (n / d, ground (arith, e, p, q, r, small), small)
    ]
