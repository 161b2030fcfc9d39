-- ===== src/Protocol/Changes.antt =====
-- Step 5 of `next_epoch` (src/commands/protocol.rs): what the validators of the next epoch differ in.
use pchain_runtime.Prelude.{
  ℕ, Bool, false, not, ◌&&◌, ◌||◌, List, [], ◌∷◌, map, nat_beq, if◌then◌else◌,
}
use pchain_runtime.Types.{PublicAddress}

abbrev pub Validator : Type 0
Validator = PublicAddress × ℕ

-- `ValidatorChanges` of src/transition.rs.
pub record ValidatorChanges : Type 0 where
  pub new_validator_set : List Validator
  pub remove_validator_set : List PublicAddress

-- `iter().any(..)`
abbrev pub any : {A : Type 0} → (A → Bool) → List A → Bool
any test [] = false
any test (x ∷ xs) = test x || any test xs

abbrev pub filter : {A : Type 0} → (A → Bool) → List A → List A
filter test [] = []
filter test (x ∷ xs) = let rest = filter test xs in if test x then x ∷ rest else rest

abbrev pub has_validator : List Validator → Validator → Bool
has_validator vs v = any (λ w. nat_beq w.0 v.0 && nat_beq w.1 v.1) vs

abbrev pub has_operator : List Validator → PublicAddress → Bool
has_operator vs a = any (λ w. nat_beq w.0 a) vs

unfoldable pub new_validators : List Validator → List Validator → List Validator
new_validators old next = filter (λ v. not (has_validator old v)) next

unfoldable pub removed_validators : List Validator → List Validator → List PublicAddress
removed_validators old next = filter (λ a. not (has_operator next a)) (map (λ v. v.0) old)

unfoldable pub validator_changes : List Validator → List Validator → ValidatorChanges
unfolding new_validators removed_validators
validator_changes old next = record {
  new_validator_set = new_validators old next;
  remove_validator_set = removed_validators old next;
}
