-- ===== src/Cache/World/Laws.antt =====
-- What the operations of `WorldStateCache` do to the accounts that a reader sees. A read changes
-- only the read sets: `pending` forgets them.
use pchain_runtime.Prelude.{
  ℕ, ◌≡◌, refl, ap, Option, none, some, ◌==◌, nat_eq, bytes_eq, pair_eq, if◌then◌else◌, arith,
}
use pchain_runtime.Types.{PublicAddress, Bytes}
use pchain_runtime.HashMap
use pchain_runtime.HashMap.{HashMap}
use pchain_runtime.HashMap.Laws.{IsUnique, get-insert}
use pchain_runtime.Cache.Data
use pchain_runtime.Cache.Data.{CacheData, U32}
use pchain_runtime.Cache.Data.Laws.{
  IsCoherent, get-view, get-IsCoherent, writes-get, set-IsCoherent, empty-IsCoherent,
  remove_write-IsCoherent, or_else,
}
use pchain_runtime.Cache.World.{
  WorldState, WorldStateCache, balance_of, storage_of, new, revert, balance, purge_balance,
  set_balance, cbi_version, set_cbi_version, contract_code, set_contract_code, storage_data,
  set_storage_data,
}

-- The world state and the pending writes, without the cached reads.
pub record Pending (WS : Type 0) : Type 0 where
  pub ws : WS
  pub balances : HashMap PublicAddress ℕ
  pub cbi_versions : HashMap PublicAddress U32
  pub contract_codes : HashMap PublicAddress Bytes
  pub storage_data : HashMap (PublicAddress × Bytes) Bytes

abbrev pub pending : {WS : Type 0} → WorldStateCache WS → Pending WS
pending c = record {
  ws = c.ws;
  balances = c.balances.writes;
  cbi_versions = c.cbi_versions.writes;
  contract_codes = c.contract_codes.writes;
  storage_data = c.storage_data.writes;
}

abbrev pub balance_or : Option ℕ → ℕ → ℕ
balance_or none b = b
balance_or (some b) _ = b

module _ {WS : Type 0} ⦃t : WorldState WS⦄ where
  -- The balance that a reader sees: the pending write, else the world state.
  abbrev pub seen_balance : Pending WS → PublicAddress → ℕ
  seen_balance p a = balance_or (HashMap.get a p.balances) (t.balance p.ws a)

  abbrev pub seen_storage : Pending WS → PublicAddress × Bytes → Option Bytes
  seen_storage p k = or_else (HashMap.get k p.storage_data) (storage_of p.ws k)

  pub record IsValid (c : WorldStateCache WS) : Type 0 where
    pub balances : IsCoherent (balance_of c.ws) c.balances
    pub cbi_versions : IsCoherent (t.cbi_version c.ws) c.cbi_versions
    pub contract_codes : IsCoherent (t.code c.ws) c.contract_codes
    pub storage_data : IsCoherent (storage_of c.ws) c.storage_data

  -- No key has two pending writes.
  pub record HasUniqueWrites (c : WorldStateCache WS) : Type 0 where
    pub balances : IsUnique c.balances.writes
    pub cbi_versions : IsUnique c.cbi_versions.writes
    pub contract_codes : IsUnique c.contract_codes.writes
    pub storage_data : IsUnique c.storage_data.writes

  pub IsValid-HasUniqueWrites : {c : WorldStateCache WS} → IsValid c → HasUniqueWrites c
  IsValid-HasUniqueWrites h = record {
    balances = h.balances.unique;
    cbi_versions = h.cbi_versions.unique;
    contract_codes = h.contract_codes.unique;
    storage_data = h.storage_data.unique;
  }

  pub pending-balance :
      (a : PublicAddress) (c : WorldStateCache WS) → pending (balance a c).1 ≡ pending c
  unfolding balance
  pending-balance a c = simp (writes-get a (balance_of c.ws) c.balances)

  pub pending-cbi_version :
      (a : PublicAddress) (c : WorldStateCache WS) → pending (cbi_version a c).1 ≡ pending c
  unfolding cbi_version
  pending-cbi_version a c = simp (writes-get a (t.cbi_version c.ws) c.cbi_versions)

  pub pending-contract_code :
      (a : PublicAddress) (c : WorldStateCache WS) → pending (contract_code a c).1 ≡ pending c
  unfolding contract_code
  pending-contract_code a c = simp (writes-get a (t.code c.ws) c.contract_codes)

  pub pending-storage_data :
      (a : PublicAddress) (k : Bytes) (c : WorldStateCache WS)
      → pending (storage_data a k c).1 ≡ pending c
  unfolding storage_data
  pending-storage_data a k c = simp (writes-get (a, k) (storage_of c.ws) c.storage_data)

  -- The lookup behind `balance` always finds a value, so its `expect` does not panic.
  pub balance_no_panic :
      (a : PublicAddress) (c : WorldStateCache WS)
      → IsValid c
      → (Data.get a (balance_of c.ws) c.balances).0 ≡ some (seen_balance (pending c) a)
  balance_no_panic a c h = rw (get-view a h.balances) (ground arith)

  pub balance-seen :
      (a : PublicAddress) (c : WorldStateCache WS)
      → IsValid c
      → (balance a c).0 ≡ seen_balance (pending c) a
  unfolding balance
  balance-seen a c h = simp (balance_no_panic a c h)

  pub balance-IsValid :
      (a : PublicAddress) {c : WorldStateCache WS} → IsValid c → IsValid (balance a c).1
  unfolding balance
  balance-IsValid a h = record {
    balances = get-IsCoherent a h.balances;
    cbi_versions = h.cbi_versions;
    contract_codes = h.contract_codes;
    storage_data = h.storage_data;
  }

  pub set_balance-IsValid :
      (a : PublicAddress) (b : ℕ) {c : WorldStateCache WS} → IsValid c → IsValid (set_balance a b c)
  unfolding set_balance
  set_balance-IsValid a b h = record {
    balances = set-IsCoherent a b h.balances;
    cbi_versions = h.cbi_versions;
    contract_codes = h.contract_codes;
    storage_data = h.storage_data;
  }

  pub seen_balance-set_balance :
      (a : PublicAddress) (b : ℕ) (c : WorldStateCache WS) (j : PublicAddress)
      → seen_balance (pending (set_balance a b c)) j
        ≡ (if a == j then b else seen_balance (pending c) j)
  unfolding set_balance Data.set
  seen_balance-set_balance a b c j = ground (arith, get-insert a j b c.balances.writes)

  pub new-IsValid : (ws : WS) → IsValid (new ws)
  unfolding new
  new-IsValid ws = record {
    balances = empty-IsCoherent (balance_of ws);
    cbi_versions = empty-IsCoherent (t.cbi_version ws);
    contract_codes = empty-IsCoherent (t.code ws);
    storage_data = empty-IsCoherent (storage_of ws);
  }

  -- A reverted cache is the cache of a new transaction over the same world state.
  pub revert-new : (c : WorldStateCache WS) → revert c ≡ new c.ws
  unfolding revert new Data.revert Data.empty
  revert-new c = refl

  pub cbi_version-IsValid :
      (a : PublicAddress) {c : WorldStateCache WS} → IsValid c → IsValid (cbi_version a c).1
  unfolding cbi_version
  cbi_version-IsValid a h = record {
    balances = h.balances;
    cbi_versions = get-IsCoherent a h.cbi_versions;
    contract_codes = h.contract_codes;
    storage_data = h.storage_data;
  }

  pub contract_code-IsValid :
      (a : PublicAddress) {c : WorldStateCache WS} → IsValid c → IsValid (contract_code a c).1
  unfolding contract_code
  contract_code-IsValid a h = record {
    balances = h.balances;
    cbi_versions = h.cbi_versions;
    contract_codes = get-IsCoherent a h.contract_codes;
    storage_data = h.storage_data;
  }

  pub storage_data-IsValid :
      (a : PublicAddress) (k : Bytes) {c : WorldStateCache WS}
      → IsValid c
      → IsValid (storage_data a k c).1
  unfolding storage_data
  storage_data-IsValid a k h = record {
    balances = h.balances;
    cbi_versions = h.cbi_versions;
    contract_codes = h.contract_codes;
    storage_data = get-IsCoherent (a, k) h.storage_data;
  }

  pub set_cbi_version-IsValid :
      (a : PublicAddress) (v : U32) {c : WorldStateCache WS}
      → IsValid c
      → IsValid (set_cbi_version a v c)
  unfolding set_cbi_version
  set_cbi_version-IsValid a v h = record {
    balances = h.balances;
    cbi_versions = set-IsCoherent a v h.cbi_versions;
    contract_codes = h.contract_codes;
    storage_data = h.storage_data;
  }

  pub set_contract_code-IsValid :
      (a : PublicAddress) (v : Bytes) {c : WorldStateCache WS}
      → IsValid c
      → IsValid (set_contract_code a v c)
  unfolding set_contract_code
  set_contract_code-IsValid a v h = record {
    balances = h.balances;
    cbi_versions = h.cbi_versions;
    contract_codes = set-IsCoherent a v h.contract_codes;
    storage_data = h.storage_data;
  }

  pub set_storage_data-IsValid :
      (a : PublicAddress) (k v : Bytes) {c : WorldStateCache WS}
      → IsValid c
      → IsValid (set_storage_data a k v c)
  unfolding set_storage_data
  set_storage_data-IsValid a k v h = record {
    balances = h.balances;
    cbi_versions = h.cbi_versions;
    contract_codes = h.contract_codes;
    storage_data = set-IsCoherent (a, k) v h.storage_data;
  }

  pub purge_balance-seen :
      (a : PublicAddress) (c : WorldStateCache WS)
      → IsValid c
      → (purge_balance a c).0 ≡ seen_balance (pending c) a
  unfolding purge_balance
  purge_balance-seen a c h = balance-seen a c h

  pub pending-purge_balance :
      (a : PublicAddress) (c : WorldStateCache WS)
      → pending (purge_balance a c).1
        ≡ record (pending c) { balances = HashMap.remove a c.balances.writes }
  unfolding purge_balance Data.remove_write
  pending-purge_balance a c =
      ap (λ (p : Pending WS). record p { balances = HashMap.remove a p.balances })
        (pending-balance a c)

  pub purge_balance-IsValid :
      (a : PublicAddress) (c : WorldStateCache WS) → IsValid c → IsValid (purge_balance a c).1
  unfolding purge_balance
  purge_balance-IsValid a c h =
      let v = balance-IsValid a h in
      record {
        balances = remove_write-IsCoherent a v.balances;
        cbi_versions = v.cbi_versions;
        contract_codes = v.contract_codes;
        storage_data = v.storage_data;
      }
