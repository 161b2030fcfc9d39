-- ===== src/Prelude/Equality.antt =====
-- Equality as an instance: what Rust's `Eq` gives to the keys of a `HashMap`.
use Prim.Native.Nat.{ℕ}
use mathlib.Core.Path.{◌≡◌}
use mathlib.Core.Logic.{◌↔◌}
use mathlib.Core.Bool.{Bool, true, false, ◌&&◌}
use mathlib.Core.List.{List, [], ◌∷◌}
use native.Mathlib.Omega.{arith}
use pchain_runtime.Prelude.Tests.{nat_beq, nat_beq_iff}

pub record HashKey {ℓ} (A : Type ℓ) : Type ℓ where
  pub same : A → A → Bool
  pub same_iff : (a b : A) → (same a b ≡ true) ↔ (a ≡ b)

infix 50 ◌==◌
abbrev pub ◌==◌ {ℓ} : {A : Type ℓ} ⦃e : HashKey A⦄ → A → A → Bool
◌==◌ ⦃e⦄ = e.same

pub ==_iff {ℓ} : {A : Type ℓ} ⦃e : HashKey A⦄ (a b : A) → ((a == b) ≡ true) ↔ (a ≡ b)
==_iff ⦃e⦄ a b = e.same_iff a b

instance abbrev pub nat_eq : HashKey ℕ
nat_eq = record { same = nat_beq; same_iff = nat_beq_iff }

abbrev pub bytes_beq : List ℕ → List ℕ → Bool
bytes_beq [] [] = true
bytes_beq [] (_ ∷ _) = false
bytes_beq (_ ∷ _) [] = false
bytes_beq (x ∷ xs) (y ∷ ys) = nat_beq x y && bytes_beq xs ys

pub bytes_beq_iff : (a b : List ℕ) → (bytes_beq a b ≡ true) ↔ (a ≡ b)
bytes_beq_iff [] [] = ground arith
bytes_beq_iff [] (_ ∷ _) = ground arith
bytes_beq_iff (_ ∷ _) [] = ground arith
bytes_beq_iff (x ∷ xs) (y ∷ ys) = ground (arith, bytes_beq_iff xs ys)

instance abbrev pub bytes_eq : HashKey (List ℕ)
bytes_eq = record { same = bytes_beq; same_iff = bytes_beq_iff }

abbrev pub pair_beq : ℕ × List ℕ → ℕ × List ℕ → Bool
pair_beq p q = nat_beq p.0 q.0 && bytes_beq p.1 q.1

pub pair_beq_iff : (p q : ℕ × List ℕ) → (pair_beq p q ≡ true) ↔ (p ≡ q)
pair_beq_iff (a, x) (b, y) = ground (arith, bytes_beq_iff x y)

instance abbrev pub pair_eq : HashKey (ℕ × List ℕ)
pair_eq = record { same = pair_beq; same_iff = pair_beq_iff }
