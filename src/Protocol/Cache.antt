-- ===== src/Protocol/Cache.antt =====
-- `NetworkAccountWorldState` of src/commands/protocol.rs: a program on the network account runs on the
-- world state cache, with no gas charged. It changes nothing but that account's storage.
use pchain_runtime.Prelude.{◌≡◌, ◌≢◌, refl, ap, ◌∙◌, [], nat_eq, bytes_eq, pair_eq, arith}
use pchain_runtime.Types.{PublicAddress, Bytes}
use pchain_runtime.HashMap
use pchain_runtime.HashMap.Laws.{get-insert}
use pchain_runtime.Cache.Data
use pchain_runtime.Cache.World
use pchain_runtime.Cache.World.{WorldState, WorldStateCache}
use pchain_runtime.Cache.World.Laws.{
  Pending, pending, IsValid, pending-storage_data, storage_data-IsValid, set_storage_data-IsValid,
}
use pchain_runtime.Network.{StorageProgram, done, get, contains, set, delete}

-- All but the storage.
abbrev pub other_writes : {WS : Type 0} → Pending WS → Pending WS
other_writes p = record p { storage_data = [] }

module _ {WS : Type 0} ⦃t : WorldState WS⦄ where
  unfoldable pub run_on_cache :
      {A : Type 0} → PublicAddress → StorageProgram A → WorldStateCache WS → A × WorldStateCache WS
  unfolding World.storage_data World.contains_storage_data World.set_storage_data
  run_on_cache address (done a) c = (a, c)
  run_on_cache address (get k next) c =
      let (v, c') = World.storage_data address k c in run_on_cache address (next v) c'
  run_on_cache address (contains k next) c =
      run_on_cache address (next (World.contains_storage_data address k c)) c
  run_on_cache address (set k v next) c =
      run_on_cache address next (World.set_storage_data address k v c)
  run_on_cache address (delete k next) c =
      run_on_cache address next (World.set_storage_data address k [] c)

  -- The writes to other accounts' storage are those from before.
  pub record IsNetworkStep (address : PublicAddress) (c c' : WorldStateCache WS) : Type 0 where
    pub others : other_writes (pending c') ≡ other_writes (pending c)
    pub storage :
        (a : PublicAddress) (k : Bytes)
        → address ≢ a
        → HashMap.get (a, k) c'.storage_data.writes ≡ HashMap.get (a, k) c.storage_data.writes
    pub valid : IsValid c → IsValid c'

  IsNetworkStep-refl :
      (address : PublicAddress) (c : WorldStateCache WS) → IsNetworkStep address c c
  IsNetworkStep-refl address c = record { others = refl; storage = λ a k n. refl; valid = λ h. h }

  IsNetworkStep-trans :
      (address : PublicAddress) {a b c : WorldStateCache WS}
      → IsNetworkStep address a b
      → IsNetworkStep address b c
      → IsNetworkStep address a c
  IsNetworkStep-trans address h k = record {
    others = k.others ∙ h.others;
    storage = λ a j n. k.storage a j n ∙ h.storage a j n;
    valid = λ v. k.valid (h.valid v);
  }

  IsNetworkStep-storage_data :
      (address : PublicAddress) (k : Bytes) (c : WorldStateCache WS)
      → IsNetworkStep address c (World.storage_data address k c).1
  IsNetworkStep-storage_data address k c = record {
    others = ap other_writes (pending-storage_data address k c);
    storage = λ a j n.
        ap (λ (p : Pending WS). HashMap.get (a, j) p.storage_data)
          (pending-storage_data address k c);
    valid = λ v. storage_data-IsValid address k v;
  }

  IsNetworkStep-set_storage_data :
      (address : PublicAddress) (k v : Bytes) (c : WorldStateCache WS)
      → IsNetworkStep address c (World.set_storage_data address k v c)
  unfolding World.set_storage_data Data.set
  IsNetworkStep-set_storage_data address k v c = record {
    others = refl;
    storage = λ a j n. ground (arith, get-insert (address, k) (a, j) v c.storage_data.writes, n);
    valid = λ h. set_storage_data-IsValid address k v h;
  }

  pub IsNetworkStep-run_on_cache :
      {A : Type 0} (address : PublicAddress) (p : StorageProgram A) (c : WorldStateCache WS)
      → IsNetworkStep address c (run_on_cache address p c).1
  unfolding run_on_cache
  IsNetworkStep-run_on_cache address (done a) c = IsNetworkStep-refl address c
  IsNetworkStep-run_on_cache address (get k next) c =
      IsNetworkStep-trans address (IsNetworkStep-storage_data address k c) (
        IsNetworkStep-run_on_cache address (next (World.storage_data address k c).0)
          (World.storage_data address k c).1)
  IsNetworkStep-run_on_cache address (contains k next) c =
      IsNetworkStep-run_on_cache address (next (World.contains_storage_data address k c)) c
  IsNetworkStep-run_on_cache address (set k v next) c =
      IsNetworkStep-trans address (IsNetworkStep-set_storage_data address k v c)
        (IsNetworkStep-run_on_cache address next (World.set_storage_data address k v c))
  IsNetworkStep-run_on_cache address (delete k next) c =
      IsNetworkStep-trans address (IsNetworkStep-set_storage_data address k [] c)
        (IsNetworkStep-run_on_cache address next (World.set_storage_data address k [] c))
