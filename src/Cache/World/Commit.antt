-- ===== src/Cache/World/Commit.antt =====
-- Committing writes to the world state what a reader of the cache saw.
use mathlib.Core.Path.{fun_ext}
use pchain_runtime.Prelude.{
  ℕ, ◌≡◌, refl, ap, none, some, [], ◌∷◌, ◌==◌, ==_iff, nat_eq, bytes_eq, pair_eq, if◌then◌else◌,
  arith, ◌∙◌,
}
use pchain_runtime.Types.{PublicAddress, Bytes}
use pchain_runtime.HashMap
use pchain_runtime.HashMap.{HashMap}
use pchain_runtime.HashMap.Laws.{IsUnique, get-nil, get-cons, get-insert, insert-IsUnique}
use pchain_runtime.Cache.Data.{U32}
use pchain_runtime.Cache.Data.Laws.{or_else}
use pchain_runtime.Cache.World.{
  WorldState, WorldStateCache, commit_balances, commit_cbi_versions, commit_codes, commit_storage,
  commit_to_world_state, aggregate, entry_or_new,
}
use pchain_runtime.Cache.World.Interface.{WorldStateLaws, Accounts, accounts, update, overlay}
use pchain_runtime.Cache.World.Laws.{Pending, pending, balance_or, HasUniqueWrites}

-- Pending writes over the accounts, one map at a time.
abbrev write_balances : HashMap PublicAddress ℕ → Accounts → Accounts
write_balances m v = record v { balance = λ j. balance_or (HashMap.get j m) (v.balance j) }

abbrev write_cbi_versions : HashMap PublicAddress U32 → Accounts → Accounts
write_cbi_versions m v = record v { cbi_version = λ j. or_else (HashMap.get j m) (v.cbi_version j) }

abbrev write_codes : HashMap PublicAddress Bytes → Accounts → Accounts
write_codes m v = record v { code = λ j. or_else (HashMap.get j m) (v.code j) }

abbrev write_storage : HashMap PublicAddress (HashMap Bytes Bytes) → Accounts → Accounts
write_storage m v = record v {
  storage = λ a k. overlay (HashMap.get k (entry_or_new (HashMap.get a m))) (v.storage a k);
}

-- The accounts that a reader of the cache sees: each field's pending write, else the world state's.
-- A pending empty value is an absent one.
abbrev pub seen_accounts : {WS : Type 0} ⦃t : WorldState WS⦄ → Pending WS → Accounts
seen_accounts p = record (accounts p.ws) {
  balance = λ j. balance_or (HashMap.get j p.balances) ((accounts p.ws).balance j);
  cbi_version = λ j. or_else (HashMap.get j p.cbi_versions) ((accounts p.ws).cbi_version j);
  code = λ j. or_else (HashMap.get j p.contract_codes) ((accounts p.ws).code j);
  storage = λ a k. overlay (HashMap.get (a, k) p.storage_data) ((accounts p.ws).storage a k);
}

write_balances-cons :
    (a : PublicAddress) (b : ℕ) (m : HashMap PublicAddress ℕ) (v : Accounts)
    → HashMap.get a m ≡ none
    → write_balances m (record v { balance = update v.balance a b }) ≡ write_balances ((a, b) ∷ m) v
write_balances-cons a b m v h =
    ap (λ f. record v { balance = f }) (fun_ext λ j. ground (arith, get-cons a j b m, ==_iff a j))

write_cbi_versions-cons :
    (a : PublicAddress) (x : U32) (m : HashMap PublicAddress U32) (v : Accounts)
    → HashMap.get a m ≡ none
    → write_cbi_versions m (record v { cbi_version = update v.cbi_version a (some x) })
      ≡ write_cbi_versions ((a, x) ∷ m) v
write_cbi_versions-cons a x m v h =
    ap (λ f. record v { cbi_version = f })
      (fun_ext λ j. ground (arith, get-cons a j x m, ==_iff a j))

write_codes-cons :
    (a : PublicAddress) (x : Bytes) (m : HashMap PublicAddress Bytes) (v : Accounts)
    → HashMap.get a m ≡ none
    → write_codes m (record v { code = update v.code a (some x) }) ≡ write_codes ((a, x) ∷ m) v
write_codes-cons a x m v h =
    ap (λ f. record v { code = f }) (fun_ext λ j. ground (arith, get-cons a j x m, ==_iff a j))

write_storage-cons :
    (a : PublicAddress) (kv : HashMap Bytes Bytes) (m : HashMap PublicAddress (HashMap Bytes Bytes))
    (v : Accounts)
    → HashMap.get a m ≡ none
    → write_storage m (record v {
      storage = λ b k. if a == b then overlay (HashMap.get k kv) (v.storage b k) else v.storage b k;
    })
      ≡ write_storage ((a, kv) ∷ m) v
write_storage-cons a kv m v h =
    ap (λ f. record v { storage = f })
      (fun_ext
        λ b. fun_ext λ k. ground (arith, get-cons a b kv m, ==_iff a b, get-nil {V = Bytes} k))

module _ {WS : Type 0} ⦃t : WorldState WS⦄ (laws : WorldStateLaws WS) where
  accounts-commit_balances :
      (m : HashMap PublicAddress ℕ) (ws : WS)
      → IsUnique m
      → accounts (commit_balances m ws) ≡ write_balances m (accounts ws)
  unfolding commit_balances HashMap.get
  accounts-commit_balances [] ws u = refl
  accounts-commit_balances ((a, b) ∷ m) ws u =
      accounts-commit_balances m (t.set_balance ws a b) u.1
      ∙ ap (write_balances m) (laws.accounts-set_balance ws a b)
      ∙ write_balances-cons a b m (accounts ws) u.0

  accounts-commit_cbi_versions :
      (m : HashMap PublicAddress U32) (ws : WS)
      → IsUnique m
      → accounts (commit_cbi_versions m ws) ≡ write_cbi_versions m (accounts ws)
  unfolding commit_cbi_versions HashMap.get
  accounts-commit_cbi_versions [] ws u = refl
  accounts-commit_cbi_versions ((a, x) ∷ m) ws u =
      accounts-commit_cbi_versions m (t.set_cbi_version ws a x) u.1
      ∙ ap (write_cbi_versions m) (laws.accounts-set_cbi_version ws a x)
      ∙ write_cbi_versions-cons a x m (accounts ws) u.0

  accounts-commit_codes :
      (m : HashMap PublicAddress Bytes) (ws : WS)
      → IsUnique m
      → accounts (commit_codes m ws) ≡ write_codes m (accounts ws)
  unfolding commit_codes HashMap.get
  accounts-commit_codes [] ws u = refl
  accounts-commit_codes ((a, x) ∷ m) ws u =
      accounts-commit_codes m (t.set_code ws a x) u.1
      ∙ ap (write_codes m) (laws.accounts-set_code ws a x)
      ∙ write_codes-cons a x m (accounts ws) u.0

  accounts-commit_storage :
      (m : HashMap PublicAddress (HashMap Bytes Bytes)) (ws : WS)
      → IsUnique m
      → accounts (commit_storage m ws) ≡ write_storage m (accounts ws)
  unfolding commit_storage HashMap.get
  accounts-commit_storage [] ws u = refl
  accounts-commit_storage ((a, kv) ∷ m) ws u =
      accounts-commit_storage m (t.storage_batch_set ws a kv) u.1
      ∙ ap (write_storage m) (laws.accounts-storage_batch_set ws a kv)
      ∙ write_storage-cons a kv m (accounts ws) u.0

aggregate-IsUnique :
    (m : HashMap (PublicAddress × Bytes) Bytes) (acc : HashMap PublicAddress (HashMap Bytes Bytes))
    → IsUnique acc
    → IsUnique (aggregate m acc)
unfolding aggregate
aggregate-IsUnique [] acc u = u
aggregate-IsUnique (((a, k), v) ∷ m) acc u =
    aggregate-IsUnique m _
      (insert-IsUnique a (HashMap.insert k v (entry_or_new (HashMap.get a acc))) acc u)

-- The aggregated writes of an address hold the write to each of its keys.
get-aggregate :
    (m : HashMap (PublicAddress × Bytes) Bytes) (acc : HashMap PublicAddress (HashMap Bytes Bytes))
    (b : PublicAddress) (j : Bytes)
    → IsUnique m
    → HashMap.get j (entry_or_new (HashMap.get b (aggregate m acc)))
      ≡ or_else (HashMap.get (b, j) m) (HashMap.get j (entry_or_new (HashMap.get b acc)))
unfolding aggregate
get-aggregate [] acc b j u = rw (get-nil {K = PublicAddress × Bytes} {V = Bytes} (b, j))
get-aggregate (((a, k), v) ∷ m) acc b j u =
    let kv = HashMap.insert k v (entry_or_new (HashMap.get a acc)) in
    ground (
      arith,
      get-aggregate m (HashMap.insert a kv acc) b j u.1,
      get-cons (a, k) (b, j) v m,
      get-insert a b kv acc,
      get-insert k j v (entry_or_new (HashMap.get a acc)),
      ==_iff a b,
      ==_iff k j,
      u.0,
    )

write_storage-aggregate :
    (m : HashMap (PublicAddress × Bytes) Bytes) (v : Accounts)
    → IsUnique m
    → write_storage (aggregate m []) v
      ≡ record v { storage = λ a k. overlay (HashMap.get (a, k) m) (v.storage a k) }
write_storage-aggregate m v u =
    ap (λ f. record v { storage = f })
      (fun_ext λ a. fun_ext λ k. ground (
        arith,
        get-aggregate m [] a k u,
        get-nil {V = HashMap Bytes Bytes} a,
        get-nil {V = Bytes} k,
      ))

module _ {WS : Type 0} ⦃t : WorldState WS⦄ (laws : WorldStateLaws WS) where
  -- Over a world state that meets the laws, committing a cache in which no key has two pending
  -- writes leaves accounts that read exactly as the cache showed them: each field of each account
  -- is its pending write, or else what the world state had.
  pub commit_to_world_state_lem :
      (c : WorldStateCache WS)
      → HasUniqueWrites c
      → accounts (commit_to_world_state c) ≡ seen_accounts (pending c)
  unfolding commit_to_world_state
  commit_to_world_state_lem c h =
      let m = c.storage_data.writes in
      let ws₁ = commit_balances c.balances.writes c.ws in
      let ws₂ = commit_cbi_versions c.cbi_versions.writes ws₁ in
      let ws₃ = commit_codes c.contract_codes.writes ws₂ in
      accounts-commit_storage laws (aggregate m []) ws₃ (aggregate-IsUnique m [] tt)
      ∙ ap (write_storage (aggregate m [])) (
          accounts-commit_codes laws c.contract_codes.writes ws₂ h.contract_codes
          ∙ ap (write_codes c.contract_codes.writes) (
              accounts-commit_cbi_versions laws c.cbi_versions.writes ws₁ h.cbi_versions
              ∙ ap (write_cbi_versions c.cbi_versions.writes)
                  (accounts-commit_balances laws c.balances.writes c.ws h.balances)))
      ∙ write_storage-aggregate m _ h.storage_data
