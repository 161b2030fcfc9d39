-- ===== src/Phases/Charge.antt =====
-- What the charge phase pays, to whom, and when it does not panic.
use pchain_runtime.Prelude.{
  ℕ, ◌+◌, ◌-◌, ◌*◌, ◌/◌, ◌≤◌, ◌<◌, ◌≡◌, ◌≢◌, refl, ap, Option, none, some, arith, ◌==◌, ==_iff,
  nat_eq, if◌then◌else◌,
}
use native.Mathlib.Nat.{mul-le-mul}
use pchain_runtime.Word.{u64_max, saturating_add}
use pchain_runtime.Types.{PublicAddress}
use pchain_runtime.HashMap
use pchain_runtime.HashMap.Laws.{get-remove}
use pchain_runtime.Cache.World
use pchain_runtime.Cache.World.{WorldState, WorldStateCache}
use pchain_runtime.Cache.World.Interface.{WorldStateLaws, Accounts, update}
use pchain_runtime.Cache.World.Laws.{
  Pending, pending, seen_balance, IsValid, purge_balance-seen, pending-purge_balance,
  purge_balance-IsValid,
}
use pchain_runtime.State.{ExecutionState}
use pchain_runtime.Execution.Behaves.{cache_of}
use pchain_runtime.Phases.{
  charge, gas_paid, NewBalances, new_balances, finish_charge, commit_charge, set_cache,
}

-- A credit to one account.
abbrev pub credit : (PublicAddress → ℕ) → PublicAddress → ℕ → PublicAddress → ℕ
credit b a amount = update b a (saturating_add (b a) amount)

module _ {WS E : Type 0} ⦃t : WorldState WS⦄ where
  -- What goes back to the signer, to the proposer and to the treasury.
  abbrev pub refund : ExecutionState WS E → ℕ
  refund s =
      (s.txn_meta.gas_limit - gas_paid s) * (s.bd.this_base_fee + s.txn_meta.priority_fee_per_gas)

  abbrev pub tip : ExecutionState WS E → ℕ
  tip s = gas_paid s * s.txn_meta.priority_fee_per_gas

  abbrev pub cut : ExecutionState WS E → ℕ
  cut s = gas_paid s * s.bd.this_base_fee * 20 / 100

  -- The balances after the three payments, one after the other, so that they add up where two of the
  -- three accounts are one.
  abbrev pub settled_from : (PublicAddress → ℕ) → ExecutionState WS E → PublicAddress → ℕ
  settled_from b s =
      let signer = s.txn_meta.signer in
      credit (credit (update b signer (b signer + refund s)) s.bd.proposer_address (tip s))
        s.bd.treasury_address (cut s)

  abbrev pub settled : ExecutionState WS E → PublicAddress → ℕ
  settled s = settled_from (seen_balance (pending (cache_of s))) s

module _ {WS : Type 0} ⦃t : WorldState WS⦄ where
  -- A purge of one account's balance is not seen at another.
  seen-purge_balance :
      (a : PublicAddress) (c : WorldStateCache WS) (j : PublicAddress)
      → seen_balance (pending (World.purge_balance a c).1) j
        ≡ (if a == j then t.balance c.ws j else seen_balance (pending c) j)
  seen-purge_balance a c j =
      rw (pending-purge_balance a c) (ground (arith, get-remove a j c.balances.writes))

  abbrev purge_three :
      PublicAddress → PublicAddress → PublicAddress → WorldStateCache WS → WorldStateCache WS
  purge_three x y z c =
      (World.purge_balance z (World.purge_balance y (World.purge_balance x c).1).1).1

  writes-three :
      (x y z : PublicAddress) (c : WorldStateCache WS) (j : PublicAddress)
      → HashMap.get j (purge_three x y z c).balances.writes ≡ (
          if z == j
          then none
          else if y == j
          then none
          else if x == j
          then none
          else HashMap.get j c.balances.writes)
  writes-three x y z c j =
      let c₁ = (World.purge_balance x c).1 in
      let c₂ = (World.purge_balance y c₁).1 in
      let at = λ (p : Pending WS). HashMap.get j p.balances in
      ground (
        arith,
        ap at (pending-purge_balance x c),
        ap at (pending-purge_balance y c₁),
        ap at (pending-purge_balance z c₂),
        get-remove x j c.balances.writes,
        get-remove y j c₁.balances.writes,
        get-remove z j c₂.balances.writes,
      )

  ws-three : (x y z : PublicAddress) (c : WorldStateCache WS) → (purge_three x y z c).ws ≡ c.ws
  unfolding World.purge_balance
  ws-three x y z c = refl

module _ {WS E : Type 0} ⦃t : WorldState WS⦄ (laws : WorldStateLaws WS) where
  balance-commit_charge :
      (s : ExecutionState WS E) (ws : WS) (x y z : ℕ) (j : PublicAddress)
      → t.balance (commit_charge s ws x y z) j
        ≡ update
            (update (update (t.balance ws) s.txn_meta.signer x) s.bd.proposer_address y)
            s.bd.treasury_address
            z
            j
  unfolding commit_charge
  balance-commit_charge s ws x y z j =
      let ws₁ = t.set_balance ws s.txn_meta.signer x in
      let ws₂ = t.set_balance ws₁ s.bd.proposer_address y in
      let ws₃ = t.set_balance ws₂ s.bd.treasury_address z in
      let nonce = saturating_add (t.nonce ws₃ s.txn_meta.signer) 1 in
      ground (
        arith,
        ap (λ (v : Accounts). v.balance j) (laws.accounts-set_nonce ws₃ s.txn_meta.signer nonce),
        ap (λ (v : Accounts). v.balance j) (laws.accounts-set_balance ws₂ s.bd.treasury_address z),
        ap (λ (v : Accounts). v.balance j) (laws.accounts-set_balance ws₁ s.bd.proposer_address y),
        ap (λ (v : Accounts). v.balance j) (laws.accounts-set_balance ws s.txn_meta.signer x),
      )

  nonce-commit_charge :
      (s : ExecutionState WS E) (ws : WS) (x y z : ℕ) (j : PublicAddress)
      → t.nonce (commit_charge s ws x y z) j
        ≡ update (t.nonce ws) s.txn_meta.signer (saturating_add (t.nonce ws s.txn_meta.signer) 1) j
  unfolding commit_charge
  nonce-commit_charge s ws x y z j =
      let signer = s.txn_meta.signer in
      let ws₁ = t.set_balance ws signer x in
      let ws₂ = t.set_balance ws₁ s.bd.proposer_address y in
      let ws₃ = t.set_balance ws₂ s.bd.treasury_address z in
      let nonce = saturating_add (t.nonce ws₃ signer) 1 in
      let at = λ (v : Accounts) (a : PublicAddress). v.nonce a in
      ground (
        arith,
        ap (λ (v : Accounts). v.nonce j) (laws.accounts-set_nonce ws₃ signer nonce),
        ap (λ (v : Accounts). v.nonce j) (laws.accounts-set_balance ws₂ s.bd.treasury_address z),
        ap (λ (v : Accounts). v.nonce j) (laws.accounts-set_balance ws₁ s.bd.proposer_address y),
        ap (λ (v : Accounts). v.nonce j) (laws.accounts-set_balance ws signer x),
        ap (λ (v : Accounts). v.nonce signer)
            (laws.accounts-set_balance ws₂ s.bd.treasury_address z),
        ap (λ (v : Accounts). v.nonce signer)
            (laws.accounts-set_balance ws₁ s.bd.proposer_address y),
        ap (λ (v : Accounts). v.nonce signer) (laws.accounts-set_balance ws signer x),
      )

  pub charge_inversion :
      (s : ExecutionState WS E) (c : WorldStateCache WS) (o : Option NewBalances)
      {s' : ExecutionState WS E}
      → finish_charge s c o ≡ some s'
      → (b : NewBalances) × (o ≡ some b)
        × (set_cache (record c { ws = commit_charge s c.ws b.signer b.proposer b.treasury }) s ≡ s')
  charge_inversion s c none h = cc
  charge_inversion s c (some b) h = (b, refl, cc)

  new_balances_lem :
      (s : ExecutionState WS E) (x y z : ℕ) {b : NewBalances}
      → new_balances s x y z ≡ some b
      → (b.signer ≡ x + refund s)
        × (b.proposer
            ≡ saturating_add
                (if s.txn_meta.signer == s.bd.proposer_address then b.signer else y)
                (tip s))
        × (b.treasury
            ≡ saturating_add
                (if s.bd.proposer_address == s.bd.treasury_address
                  then b.proposer
                  else if s.txn_meta.signer == s.bd.treasury_address
                  then b.signer
                  else z)
                (cut s))
  unfolding new_balances
  new_balances_lem s x y z h = ground arith

  -- The charge phase over a coherent cache, where it does not panic, adds the refund of unused gas
  -- to the signer's balance, the tip to the proposer's and the cut of the base fee to the
  -- treasury's, each payment to the latter two up to a `u64` at most and one after the other, so
  -- that they add up where two of the three accounts are one; every other balance stays.
  pub seen-charge :
      (s : ExecutionState WS E) {s' : ExecutionState WS E}
      → IsValid (cache_of s)
      → charge s ≡ some s'
      → (j : PublicAddress) → seen_balance (pending (cache_of s')) j ≡ settled s j
  unfolding charge
  seen-charge s h e j =
      let signer = s.txn_meta.signer in
      let proposer = s.bd.proposer_address in
      let treasury = s.bd.treasury_address in
      let c = cache_of s in
      let c₁ = (World.purge_balance signer c).1 in
      let c₂ = (World.purge_balance proposer c₁).1 in
      let c₃ = (World.purge_balance treasury c₂).1 in
      let v₁ = purge_balance-IsValid signer c h in
      let v₂ = purge_balance-IsValid proposer c₁ v₁ in
      let found = (World.purge_balance signer c).0 in
      let (b, made, e') = charge_inversion s c₃ _ e in
      rw (← e') (
        ground (
          arith,
          new_balances_lem s found (World.purge_balance proposer c₁).0
              (World.purge_balance treasury c₂).0 made,
          purge_balance-seen signer c h,
          purge_balance-seen proposer c₁ v₁,
          purge_balance-seen treasury c₂ v₂,
          seen-purge_balance signer c proposer,
          seen-purge_balance signer c treasury,
          seen-purge_balance proposer c₁ treasury,
          writes-three signer proposer treasury c j,
          ws-three signer proposer treasury c,
          balance-commit_charge s c₃.ws b.signer b.proposer b.treasury j,
          ==_iff signer proposer,
          ==_iff signer treasury,
          ==_iff proposer treasury,
          ==_iff signer j,
          ==_iff proposer j,
          ==_iff treasury j,
        ))

  finish_charge-none :
      (s : ExecutionState WS E) (c : WorldStateCache WS) (o : Option NewBalances)
      → finish_charge s c o ≡ none
      → o ≡ none
  finish_charge-none s c none h = refl
  finish_charge-none s c (some b) h = cc

  new_balances_total :
      (s : ExecutionState WS E) (x y z : ℕ)
      → s.txn_meta.gas_limit * (s.bd.this_base_fee + s.txn_meta.priority_fee_per_gas) ≤ u64_max
      → s.bd.this_base_fee + s.txn_meta.priority_fee_per_gas ≤ u64_max
      → x + refund s ≤ u64_max
      → gas_paid s * s.bd.this_base_fee * 20 ≤ u64_max
      → new_balances s x y z ≢ none
  unfolding new_balances
  new_balances_total s x y z limit fee refunded burnt =
      let g = s.txn_meta.gas_limit in
      let p = gas_paid s in
      let base = s.bd.this_base_fee in
      let priority = s.txn_meta.priority_fee_per_gas in
      let below =
        mul-le-mul {n₁ = g - p} {m₁ = base + priority} {n₂ = g} {m₂ = base + priority} (omega arith)
          (omega arith) in
      let tip_below =
        mul-le-mul {n₁ = p} {m₁ = priority} {n₂ = g} {m₂ = base + priority} (omega arith)
          (omega arith) in
      let burnt_below =
        mul-le-mul {n₁ = p * base} {m₁ = 1} {n₂ = p * base} {m₂ = 20} (omega arith) (omega arith) in
      ground arith

  new_balances_panics :
      (s : ExecutionState WS E) (x y z : ℕ)
      → u64_max < gas_paid s * s.bd.this_base_fee * 20
      → new_balances s x y z ≡ none
  unfolding new_balances
  new_balances_panics s x y z over = ground arith

  -- The charge phase over a coherent cache panics for no overflow if the pre-charge and its fee fit
  -- in a `u64`, the signer's refunded balance does, and the base fee of the gas paid does when
  -- multiplied by 20.
  pub charge_total :
      (s : ExecutionState WS E)
      → IsValid (cache_of s)
      → s.txn_meta.gas_limit * (s.bd.this_base_fee + s.txn_meta.priority_fee_per_gas) ≤ u64_max
      → s.bd.this_base_fee + s.txn_meta.priority_fee_per_gas ≤ u64_max
      → seen_balance (pending (cache_of s)) s.txn_meta.signer + refund s ≤ u64_max
      → gas_paid s * s.bd.this_base_fee * 20 ≤ u64_max
      → charge s ≢ none
  unfolding charge
  charge_total s h limit fee refunded burnt = λ e.
      new_balances_total s _ _ _ limit fee
        (rw (purge_balance-seen s.txn_meta.signer (cache_of s) h) refunded) burnt
        (finish_charge-none s _ _ e)

  -- Whenever twenty times the base fee of the gas paid does not fit in a `u64`, the charge phase
  -- panics.
  pub charge_panics :
      (s : ExecutionState WS E) → u64_max < gas_paid s * s.bd.this_base_fee * 20 → charge s ≡ none
  unfolding charge
  charge_panics s over = rw (new_balances_panics s _ _ _ over) refl
