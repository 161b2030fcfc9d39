-- ===== src/Network.antt =====
-- The network account of the crate pchain_world_state. Its functions take any
-- `T: NetworkAccountStorage`, so each is a program of gets, tests, sets and deletes: `StorageProgram`.
-- Which keys and bytes it uses is the crate's, and a parameter: the record `NetworkAccount`.
pub mod Meter
use pchain_runtime.Prelude.{ℕ, Bool, Option, List}
use pchain_runtime.Types.{PublicAddress, Bytes}

pub data StorageProgram (A : Type 0) : Type 0 where
  done : A → StorageProgram A
  get : (key : Bytes) → (Option Bytes → StorageProgram A) → StorageProgram A
  contains : (key : Bytes) → (Bool → StorageProgram A) → StorageProgram A
  set : (key value : Bytes) → StorageProgram A → StorageProgram A
  delete : (key : Bytes) → StorageProgram A → StorageProgram A

module _ {A B : Type 0} where
  infixl 10 ◌>>=◌ ◌>>◌
  unfoldable pub ◌>>=◌ : StorageProgram A → (A → StorageProgram B) → StorageProgram B
  done a >>= f = f a
  get k next >>= f = get k (λ v. next v >>= f)
  contains k next >>= f = contains k (λ b. next b >>= f)
  set k v next >>= f = set k v (next >>= f)
  delete k next >>= f = delete k (next >>= f)

  abbrev pub ◌>>◌ : StorageProgram A → StorageProgram B → StorageProgram B
  m >> n = m >>= λ _. n

-- `pchain_world_state::Stake` and `PoolKey`.
pub record Stake : Type 0 where
  pub owner : PublicAddress
  pub power : ℕ

pub record PoolKey : Type 0 where
  pub operator : PublicAddress
  pub power : ℕ

pub record Pool : Type 0 where
  pub operator : PublicAddress
  pub commission_rate : ℕ
  pub power : ℕ
  pub operator_stake : Option Stake

-- The previous and the current validator set, `pvp` and `vp`.
pub data ValidatorSet : Type 0 where
  previous current : ValidatorSet

-- The functions of `NetworkAccount` that the commands call, those of the next epoch after the others. `insert_extract` is `none` for `Err`,
-- and `some` of what it replaced otherwise.
pub record NetworkAccount : Type 0 where
  pub network_address : PublicAddress
  pub pool_exists : PublicAddress → StorageProgram Bool
  pub pool_power : PublicAddress → StorageProgram (Option ℕ)
  pub pool_commission_rate : PublicAddress → StorageProgram (Option ℕ)
  pub pool_operator_stake : PublicAddress → StorageProgram (Option (Option Stake))
  pub pool_set_operator : PublicAddress → PublicAddress → StorageProgram (Unit {0})
  pub pool_set_power : PublicAddress → ℕ → StorageProgram (Unit {0})
  pub pool_set_commission_rate : PublicAddress → ℕ → StorageProgram (Unit {0})
  pub pool_set_operator_stake : PublicAddress → Option Stake → StorageProgram (Unit {0})
  pub pool_delete : PublicAddress → StorageProgram (Unit {0})
  pub stakes_get_by : PublicAddress → PublicAddress → StorageProgram (Option Stake)
  pub stakes_insert_extract : PublicAddress → Stake → StorageProgram (Option (Option Stake))
  pub stakes_change_key : PublicAddress → Stake → StorageProgram (Unit {0})
  pub stakes_remove_item : PublicAddress → PublicAddress → StorageProgram (Unit {0})
  pub nvp_get_by : PublicAddress → StorageProgram (Option PoolKey)
  pub nvp_insert_extract : PoolKey → StorageProgram (Option (Option PoolKey))
  pub nvp_change_key : PoolKey → StorageProgram (Unit {0})
  pub nvp_remove_item : PublicAddress → StorageProgram (Unit {0})
  pub vp_has_pool : ValidatorSet → PublicAddress → StorageProgram Bool
  pub vp_operator_stake : ValidatorSet → PublicAddress → StorageProgram (Option (Option Stake))
  pub vp_stakes_get_by :
      ValidatorSet → PublicAddress → PublicAddress → StorageProgram (Option Stake)
  pub deposit_exists : PublicAddress → PublicAddress → StorageProgram Bool
  pub deposit_balance : PublicAddress → PublicAddress → StorageProgram (Option ℕ)
  pub deposit_auto_stake_rewards : PublicAddress → PublicAddress → StorageProgram (Option Bool)
  pub deposit_set_balance : PublicAddress → PublicAddress → ℕ → StorageProgram (Unit {0})
  pub deposit_set_auto_stake_rewards :
      PublicAddress → PublicAddress → Bool → StorageProgram (Unit {0})
  pub deposit_delete : PublicAddress → PublicAddress → StorageProgram (Unit {0})
  pub current_epoch : StorageProgram ℕ
  pub set_current_epoch : ℕ → StorageProgram (Unit {0})
  pub vp_length : ValidatorSet → StorageProgram ℕ
  pub vp_has_pool_at : ValidatorSet → ℕ → StorageProgram Bool
  pub vp_operator_at : ValidatorSet → ℕ → StorageProgram (Option PublicAddress)
  pub vp_commission_rate_at : ValidatorSet → ℕ → StorageProgram (Option ℕ)
  pub vp_power_at : ValidatorSet → ℕ → StorageProgram (Option ℕ)
  pub vp_operator_stake_at : ValidatorSet → ℕ → StorageProgram (Option (Option Stake))
  pub vp_stakes_length : ValidatorSet → PublicAddress → StorageProgram ℕ
  pub vp_stakes_get : ValidatorSet → PublicAddress → ℕ → StorageProgram (Option Stake)
  pub vp_clear : ValidatorSet → StorageProgram (Unit {0})
  pub vp_push : ValidatorSet → Pool → List Stake → StorageProgram (Unit {0})
  pub nvp_length : StorageProgram ℕ
  pub nvp_get : ℕ → StorageProgram (Option PoolKey)
  pub pool_operator : PublicAddress → StorageProgram (Option PublicAddress)
  pub stakes_unordered_values : PublicAddress → StorageProgram (List Stake)
