-- ===== src/Protocol/Validators.antt =====
-- The validator changes of an epoch (src/commands/protocol.rs) lead from the old set to the next one.
use pchain_runtime.Prelude.{
  ℕ, ◌≡◌, refl, Bool, true, false, not, ◌&&◌, Option, none, some, List, [], ◌∷◌, nat_beq, nat_eq,
  nat_beq_iff, Option-cases, inl, inr, if◌then◌else◌, arith,
}
use pchain_runtime.Types.{PublicAddress}
use pchain_runtime.HashMap
use pchain_runtime.HashMap.Laws.{IsUnique}
use pchain_runtime.Protocol.Changes.{
  Validator, ValidatorChanges, any, filter, has_validator, has_operator, new_validators,
  removed_validators, validator_changes,
}

abbrev is_power : ℕ → Option ℕ → Bool
is_power w none = false
is_power w (some p) = nat_beq p w

abbrev is_some : Option ℕ → Bool
is_some none = false
is_some (some p) = true

abbrev unless_old : List Validator → PublicAddress → Option ℕ → Option ℕ
unless_old old a none = none
unless_old old a (some w) = if has_validator old (a, w) then none else some w

has_validator-get :
    (vs : List Validator) (a : PublicAddress) (w : ℕ)
    → IsUnique vs
    → has_validator vs (a, w) ≡ is_power w (HashMap.get a vs)
unfolding HashMap.get
has_validator-get [] a w u = refl
has_validator-get ((b, p) ∷ vs) a w u =
    ground (arith, has_validator-get vs a w u.1, nat_beq_iff b a)

has_operator-get :
    (vs : List Validator) (a : PublicAddress) → has_operator vs a ≡ is_some (HashMap.get a vs)
unfolding HashMap.get
has_operator-get [] a = refl
has_operator-get ((b, p) ∷ vs) a = ground (arith, has_operator-get vs a)

get-filter :
    (old vs : List Validator) (a : PublicAddress)
    → IsUnique vs
    → HashMap.get a (filter (λ v. not (has_validator old v)) vs)
      ≡ unless_old old a (HashMap.get a vs)
unfolding HashMap.get
get-filter old [] a u = refl
get-filter old ((b, p) ∷ vs) a u = ground (arith, get-filter old vs a u.1, nat_beq_iff b a)

abbrev listed : PublicAddress → List PublicAddress → Bool
listed a removed = any (λ b. nat_beq b a) removed

listed-removed :
    (old next : List Validator) (a : PublicAddress)
    → listed a (removed_validators old next) ≡ has_operator old a && not (has_operator next a)
unfolding removed_validators
listed-removed [] next a = refl
listed-removed ((b, p) ∷ old) next a = ground (arith, listed-removed old next a, nat_beq_iff b a)

-- A validator's power after the changes: a new entry replaces the old one, then the removals.
abbrev pub changed_power : ValidatorChanges → List Validator → PublicAddress → Option ℕ
changed_power changes old a = elim (HashMap.get a changes.new_validator_set) [
  | some power ↦ some power
  | none ↦ if listed a changes.remove_validator_set then none else HashMap.get a old
]

-- Applying the validator changes of an epoch to the old validator set, in both of which no operator
-- stands twice, gives every operator the power that it has in the next set, or none.
pub validator_changes_lem :
    (old next : List Validator) (a : PublicAddress)
    → IsUnique old
    → IsUnique next
    → changed_power (validator_changes old next) old a ≡ HashMap.get a next
unfolding validator_changes new_validators
validator_changes_lem old next a u w = elim (Option-cases (HashMap.get a next)) [
  | inl e ↦ ground (
    arith,
    e,
    get-filter old next a w,
    listed-removed old next a,
    has_operator-get old a,
    has_operator-get next a,
  )
  | inr (p, e) ↦ ground (
    arith,
    e,
    get-filter old next a w,
    listed-removed old next a,
    has_operator-get old a,
    has_operator-get next a,
    has_validator-get old a p u,
  )
]
