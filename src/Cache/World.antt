-- ===== src/Cache/World.antt =====
-- `WorldStateCache` of src/execution/cache/world_state_cache.rs. The world state below it is the
-- crate pchain_world_state: its tries are the instance argument `WorldState`. The code panics
-- (`expect`) where a trie cannot be read, so the accessors here are those of a valid world state.
pub mod Interface
pub mod Laws
pub mod Commit
use pchain_runtime.Prelude.{ℕ, Bool, Option, none, some, [], ◌∷◌, nat_eq, bytes_eq, pair_eq}
use pchain_runtime.Types.{PublicAddress, Bytes}
use pchain_runtime.HashMap
use pchain_runtime.HashMap.{HashMap}
use pchain_runtime.Cache.Data
use pchain_runtime.Cache.Data.{CacheData, U32, bytes_cache_value}

pub record WorldState (WS : Type 0) : Type 0 where
  pub balance : WS → PublicAddress → ℕ
  pub nonce : WS → PublicAddress → ℕ
  pub cbi_version : WS → PublicAddress → Option U32
  pub code : WS → PublicAddress → Option Bytes
  pub storage_get : WS → PublicAddress → Bytes → Option Bytes
  pub storage_contains : WS → PublicAddress → Bytes → Bool
  pub set_balance : WS → PublicAddress → ℕ → WS
  pub set_nonce : WS → PublicAddress → ℕ → WS
  pub set_cbi_version : WS → PublicAddress → U32 → WS
  pub set_code : WS → PublicAddress → Bytes → WS
  pub storage_batch_set : WS → PublicAddress → HashMap Bytes Bytes → WS

pub record WorldStateCache (WS : Type 0) : Type 0 where
  pub ws : WS
  pub balances : CacheData PublicAddress ℕ
  pub cbi_versions : CacheData PublicAddress U32
  pub contract_codes : CacheData PublicAddress Bytes
  pub storage_data : CacheData (PublicAddress × Bytes) Bytes

-- `(!value.is_empty()).then_some(value)`
abbrev pub non_empty : Option Bytes → Option Bytes
non_empty none = none
non_empty (some []) = none
non_empty (some (b ∷ bs)) = some (b ∷ bs)

-- `expect` on a balance. The panic at `none` is written 0: `balance_no_panic` has that it is not met.
expect_balance : Option ℕ → ℕ
expect_balance none = 0
expect_balance (some b) = b

module _ {WS : Type 0} where
  unfoldable pub new : WS → WorldStateCache WS
  new ws = record {
    ws = ws;
    balances = Data.empty;
    cbi_versions = Data.empty;
    contract_codes = Data.empty;
    storage_data = Data.empty;
  }

  unfoldable pub revert : WorldStateCache WS → WorldStateCache WS
  revert c = record c {
    balances = Data.revert c.balances;
    cbi_versions = Data.revert c.cbi_versions;
    contract_codes = Data.revert c.contract_codes;
    storage_data = Data.revert c.storage_data;
  }

  unfoldable pub set_balance : PublicAddress → ℕ → WorldStateCache WS → WorldStateCache WS
  set_balance a b c = record c { balances = Data.set a b c.balances }

  unfoldable pub set_cbi_version : PublicAddress → U32 → WorldStateCache WS → WorldStateCache WS
  set_cbi_version a v c = record c { cbi_versions = Data.set a v c.cbi_versions }

  unfoldable pub set_contract_code : PublicAddress → Bytes → WorldStateCache WS → WorldStateCache WS
  set_contract_code a code c = record c { contract_codes = Data.set a code c.contract_codes }

  unfoldable pub set_storage_data :
      PublicAddress → Bytes → Bytes → WorldStateCache WS → WorldStateCache WS
  set_storage_data a k v c = record c { storage_data = Data.set (a, k) v c.storage_data }

module _ {WS : Type 0} ⦃t : WorldState WS⦄ where
  abbrev pub balance_of : WS → PublicAddress → Option ℕ
  balance_of ws a = some (t.balance ws a)

  abbrev pub storage_of : WS → PublicAddress × Bytes → Option Bytes
  storage_of ws k = t.storage_get ws k.0 k.1

  unfoldable pub balance : PublicAddress → WorldStateCache WS → ℕ × WorldStateCache WS
  unfolding expect_balance
  balance a c =
      let (b, balances) = Data.get a (balance_of c.ws) c.balances in
      (expect_balance b, record c { balances = balances })

  -- `purge_balance` reads the balance, then drops the pending write.
  unfoldable pub purge_balance : PublicAddress → WorldStateCache WS → ℕ × WorldStateCache WS
  unfolding balance
  purge_balance a c =
      let (b, c') = balance a c in (b, record c' { balances = Data.remove_write a c'.balances })

  unfoldable pub cbi_version : PublicAddress → WorldStateCache WS → Option U32 × WorldStateCache WS
  cbi_version a c =
      let (v, cbi_versions) = Data.get a (t.cbi_version c.ws) c.cbi_versions in
      (v, record c { cbi_versions = cbi_versions })

  unfoldable pub contract_code :
      PublicAddress → WorldStateCache WS → Option Bytes × WorldStateCache WS
  contract_code a c =
      let (code, contract_codes) = Data.get a (t.code c.ws) c.contract_codes in
      (code, record c { contract_codes = contract_codes })

  unfoldable pub storage_data :
      PublicAddress → Bytes → WorldStateCache WS → Option Bytes × WorldStateCache WS
  storage_data a k c =
      let (v, storage) = Data.get (a, k) (storage_of c.ws) c.storage_data in
      (v, record c { storage_data = storage })

  unfoldable pub contains_storage_data : PublicAddress → Bytes → WorldStateCache WS → Bool
  contains_storage_data a k c =
      Data.contains (a, k) (λ p. t.storage_contains c.ws p.0 p.1) c.storage_data

  commit_balances : HashMap PublicAddress ℕ → WS → WS
  commit_balances [] ws = ws
  commit_balances ((a, b) ∷ m) ws = commit_balances m (t.set_balance ws a b)

  commit_cbi_versions : HashMap PublicAddress U32 → WS → WS
  commit_cbi_versions [] ws = ws
  commit_cbi_versions ((a, v) ∷ m) ws = commit_cbi_versions m (t.set_cbi_version ws a v)

  commit_codes : HashMap PublicAddress Bytes → WS → WS
  commit_codes [] ws = ws
  commit_codes ((a, code) ∷ m) ws = commit_codes m (t.set_code ws a code)

  commit_storage : HashMap PublicAddress (HashMap Bytes Bytes) → WS → WS
  commit_storage [] ws = ws
  commit_storage ((a, kv) ∷ m) ws = commit_storage m (t.storage_batch_set ws a kv)

-- `.entry(address).or_insert_with(HashMap::new)`
abbrev entry_or_new : Option (HashMap Bytes Bytes) → HashMap Bytes Bytes
entry_or_new none = []
entry_or_new (some kv) = kv

aggregate :
    HashMap (PublicAddress × Bytes) Bytes
    → HashMap PublicAddress (HashMap Bytes Bytes)
    → HashMap PublicAddress (HashMap Bytes Bytes)
aggregate [] acc = acc
aggregate (((a, k), v) ∷ m) acc =
    aggregate m (HashMap.insert a (HashMap.insert k v (entry_or_new (HashMap.get a acc))) acc)

unfoldable pub commit_to_world_state : {WS : Type 0} ⦃t : WorldState WS⦄ → WorldStateCache WS → WS
unfolding commit_balances commit_cbi_versions commit_codes commit_storage aggregate
commit_to_world_state c = commit_storage (aggregate c.storage_data.writes []) (
    commit_codes c.contract_codes.writes
      (commit_cbi_versions c.cbi_versions.writes (commit_balances c.balances.writes c.ws)))
