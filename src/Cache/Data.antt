-- ===== src/Cache/Data.antt =====
-- `CacheData` of src/execution/cache/world_state_cache.rs: pending writes before cached reads. The
-- `RefCell` around `reads` lets `get` change it behind `&self`; here `get` returns the new cache.
pub mod Laws
use pchain_runtime.Prelude.{
  ℕ, Bool, true, false, not, ◌||◌, Option, none, some, List, [], length, HashKey, nat_beq,
  if◌then◌else◌,
}
use pchain_runtime.HashMap
use pchain_runtime.HashMap.{HashMap}

-- `trait CacheValue`.
pub record CacheValue (V : Type 0) : Type 0 where
  pub len : V → ℕ

instance abbrev pub u64_cache_value : CacheValue ℕ
u64_cache_value = record { len = λ _. 8 }

-- A `u32`, told apart from the `u64` by its wrapper.
pub record U32 : Type 0 where
  pub value : ℕ

instance abbrev pub u32_cache_value : CacheValue U32
u32_cache_value = record { len = λ _. 4 }

instance abbrev pub bytes_cache_value : CacheValue (List ℕ)
bytes_cache_value = record { len = length }

pub record CacheData (K V : Type 0) : Type 0 where
  pub writes : HashMap K V
  pub reads : HashMap K (Option V)

unfoldable pub empty : {K V : Type 0} → CacheData K V
empty = record { writes = []; reads = [] }

-- `revert` clears both maps in place.
unfoldable pub revert : {K V : Type 0} → CacheData K V → CacheData K V
revert c = record c { writes = []; reads = [] }

abbrev pub is_some {ℓ} : {A : Type ℓ} → Option A → Bool
is_some none = false
is_some (some _) = true

-- `Option::filter(|v| v.len() != 0).is_some()`
abbrev pub is_filled : {V : Type 0} ⦃v : CacheValue V⦄ → Option V → Bool
is_filled none = false
is_filled ⦃v⦄ (some a) = not (nat_beq (v.len a) 0)

abbrev pub is_read : {V : Type 0} → Option (Option V) → Bool
is_read none = false
is_read (some o) = is_some o

module _ {K V : Type 0} ⦃e : HashKey K⦄ where
  -- The read set is asked only where the write set has no entry, the world state last.
  read_through : K → (K → Option V) → CacheData K V → Option (Option V) → Option V × CacheData K V
  read_through k ws_get c (some v) = (v, c)
  read_through k ws_get c none =
      (ws_get k, record c { reads = HashMap.insert k (ws_get k) c.reads })

  get_from : K → (K → Option V) → CacheData K V → Option V → Option V × CacheData K V
  unfolding read_through
  get_from k ws_get c (some v) = (some v, c)
  get_from k ws_get c none = read_through k ws_get c (HashMap.get k c.reads)

  unfoldable pub get : K → (K → Option V) → CacheData K V → Option V × CacheData K V
  unfolding get_from
  get k ws_get c = get_from k ws_get c (HashMap.get k c.writes)

  unfoldable pub set : K → V → CacheData K V → CacheData K V
  set k v c = record c { writes = HashMap.insert k v c.writes }

  -- `self.balances.writes.remove(&address)` of `purge_balance`.
  unfoldable pub remove_write : K → CacheData K V → CacheData K V
  remove_write k c = record c { writes = HashMap.remove k c.writes }

  unfoldable pub contains : ⦃v : CacheValue V⦄ → K → (K → Bool) → CacheData K V → Bool
  contains k ws_contains c =
      is_filled (HashMap.get k c.writes) || is_read (HashMap.get k c.reads) || ws_contains k
