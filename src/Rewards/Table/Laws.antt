-- ===== src/Rewards/Table/Laws.antt =====
-- What holds of every entry of the table, by one walk over it.
use pchain_runtime.Prelude.{
  ℕ, zero, suc, ◌<◌, ◌≤◌, ◌≡◌, refl, Bool, true, some, List, [], ◌∷◌, ◌&&◌, leb, length, get_elem?,
  arith,
}
use pchain_runtime.Rewards.Table.{issuance_rate_reduction_factor}

-- Every number is at least its successor, and at least the last bound.
is_descending : ℕ → ℕ → List ℕ → Bool
is_descending low high [] = leb low high
is_descending low high (x ∷ xs) = leb x high && is_descending low x xs

within :
    (low high : ℕ) (xs : List ℕ) (i a : ℕ)
    → is_descending low high xs ≡ true
    → get_elem? xs i ≡ some a
    → (low ≤ a) × (a ≤ high)
unfolding is_descending
within low high [] i a h e = ground arith
within low high (x ∷ []) zero a h e = ground arith
within low high (x ∷ y ∷ xs) zero a h e = ground (arith, within low x (y ∷ xs) zero y)
within low high (x ∷ xs) (suc i) a h e = ground (arith, within low x xs i a)

ordered :
    (low high : ℕ) (xs : List ℕ) (i j a b : ℕ)
    → is_descending low high xs ≡ true
    → i ≤ j
    → get_elem? xs i ≡ some a
    → get_elem? xs j ≡ some b
    → b ≤ a
unfolding is_descending
ordered low high [] i j a b h k e f = ground arith
ordered low high (x ∷ xs) zero zero a b h k e f = ground arith
ordered low high (x ∷ xs) zero (suc j) a b h k e f = ground (arith, within low x xs j b)
ordered low high (x ∷ xs) (suc i) zero a b h k e f = ground arith
ordered low high (x ∷ xs) (suc i) (suc j) a b h k e f = ground (arith, ordered low x xs i j a b)

found : {A : Type 0} (xs : List A) (i : ℕ) → i < length xs → (a : A) × (get_elem? xs i ≡ some a)
found [] i h = absurd (omega arith)
found (x ∷ xs) zero h = (x, refl)
found (x ∷ xs) (suc i) h = found xs i (omega arith)

table-length : length issuance_rate_reduction_factor ≡ 3650
unfolding issuance_rate_reduction_factor
table-length = refl

table-descending : is_descending 1970 10000 issuance_rate_reduction_factor ≡ true
unfolding issuance_rate_reduction_factor is_descending
table-descending = refl

-- The factor of every epoch in the table is between those of its last epoch and its first.
pub factor_bounds :
    (epoch : ℕ)
    → epoch < 3650
    → (factor : ℕ) × (get_elem? issuance_rate_reduction_factor epoch ≡ some factor)
      × (1970 ≤ factor)
      × (factor ≤ 10000)
factor_bounds epoch h =
    let (factor, e) = found issuance_rate_reduction_factor epoch (omega (arith, table-length)) in
    let (low, high) =
      within 1970 10000 issuance_rate_reduction_factor epoch factor table-descending e in
    (factor, e, low, high)

pub factors_ordered :
    (i j a b : ℕ)
    → i ≤ j
    → get_elem? issuance_rate_reduction_factor i ≡ some a
    → get_elem? issuance_rate_reduction_factor j ≡ some b
    → b ≤ a
factors_ordered i j a b = ordered 1970 10000 issuance_rate_reduction_factor i j a b table-descending
