-- ===== src/Cache/Data/Laws.antt =====
-- `CacheData` implements a map over the world state: a lookup sees the pending write, else the
-- world state, and the cached reads are never seen by a caller.
use pchain_runtime.Prelude.{
  ◌≡◌, Option, none, some, HashKey, ◌==◌, ==_iff, if◌then◌else◌, arith, Option-cases, inl, inr,
}
use pchain_runtime.HashMap
use pchain_runtime.HashMap.{HashMap}
use pchain_runtime.HashMap.Laws.{get-nil, get-insert, IsUnique, insert-IsUnique, remove-IsUnique}
use pchain_runtime.Cache.Data.{CacheData, empty, get, set, remove_write}

abbrev pub or_else : {V : Type 0} → Option V → Option V → Option V
or_else none b = b
or_else (some v) b = some v

module _ {K V : Type 0} ⦃e : HashKey K⦄ where
  -- The abstract map: what a reader of the key sees.
  abbrev pub view : (K → Option V) → CacheData K V → K → Option V
  view ws_get c k = or_else (HashMap.get k c.writes) (ws_get k)

  -- Every cached read is what the world state holds, and no key is written twice.
  pub record IsCoherent (ws_get : K → Option V) (c : CacheData K V) : Type 0 where
    pub agrees : (k : K) (o : Option V) → HashMap.get k c.reads ≡ some o → o ≡ ws_get k
    pub unique : IsUnique c.writes

  -- A read through a coherent cache gives the pending write of the key, or else what the world
  -- state holds.
  pub get-view :
      (k : K) {ws_get : K → Option V} {c : CacheData K V}
      → IsCoherent ws_get c
      → (get k ws_get c).0 ≡ view ws_get c k
  unfolding get
  get-view k {c} h = elim (Option-cases (HashMap.get k c.reads)) [
    | inl fresh ↦ ground arith
    | inr (o, e) ↦ ground (arith, h.agrees k o e)
  ]

  pub writes-get :
      (k : K) (ws_get : K → Option V) (c : CacheData K V) → (get k ws_get c).1.writes ≡ c.writes
  unfolding get
  writes-get k ws_get c = ground arith

  pub get-IsCoherent :
      (k : K) {ws_get : K → Option V} {c : CacheData K V}
      → IsCoherent ws_get c
      → IsCoherent ws_get (get k ws_get c).1
  unfolding get
  get-IsCoherent k {ws_get} {c} h = record {
    agrees = λ j o. ground (arith, h.agrees j o, get-insert k j (ws_get k) c.reads, ==_iff k j);
    unique = rw (writes-get k ws_get c) h.unique;
  }

  pub view-set :
      (k : K) (v : V) (ws_get : K → Option V) (c : CacheData K V) (j : K)
      → view ws_get (set k v c) j ≡ (if k == j then some v else view ws_get c j)
  unfolding set
  view-set k v ws_get c j = ground (arith, get-insert k j v c.writes)

  pub set-IsCoherent :
      (k : K) (v : V) {ws_get : K → Option V} {c : CacheData K V}
      → IsCoherent ws_get c
      → IsCoherent ws_get (set k v c)
  unfolding set
  set-IsCoherent k v {c} h = record {
    agrees = h.agrees;
    unique = insert-IsUnique k v c.writes h.unique;
  }

  pub empty-IsCoherent : (ws_get : K → Option V) → IsCoherent ws_get (empty {K = K} {V = V})
  unfolding empty
  empty-IsCoherent ws_get = record { agrees = λ k o p. cc (get-nil {V = Option V} k); unique = tt }

  pub remove_write-IsCoherent :
      (k : K) {ws_get : K → Option V} {c : CacheData K V}
      → IsCoherent ws_get c
      → IsCoherent ws_get (remove_write k c)
  unfolding remove_write
  remove_write-IsCoherent k {c} h = record {
    agrees = h.agrees;
    unique = remove-IsUnique k c.writes h.unique;
  }
