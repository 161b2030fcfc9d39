-- ===== src/Cache/World/Interface.antt =====
-- What the runtime relies on of a world state: each setter of pchain_world_state changes its field
-- of its account and nothing else. An empty value reads as an absent one, stored or not.
use pchain_runtime.Prelude.{
  ℕ, ◌≡◌, refl, false, true, Option, none, some, ◌==◌, nat_eq, bytes_eq, if◌then◌else◌, arith,
}
use pchain_runtime.Types.{PublicAddress, Bytes}
use pchain_runtime.HashMap
use pchain_runtime.HashMap.{HashMap}
use pchain_runtime.Cache.Data.{U32}
use pchain_runtime.Cache.World.{WorldState, non_empty}

abbrev pub update : {A : Type 0} → (PublicAddress → A) → PublicAddress → A → PublicAddress → A
update f a v j = if a == j then v else f j

-- A batch of writes over an account's storage, as a reader sees it.
abbrev pub overlay : Option Bytes → Option Bytes → Option Bytes
overlay none old = old
overlay (some v) _ = non_empty (some v)

pub record Accounts : Type 0 where
  pub balance : PublicAddress → ℕ
  pub nonce : PublicAddress → ℕ
  pub cbi_version : PublicAddress → Option U32
  pub code : PublicAddress → Option Bytes
  pub storage : PublicAddress → Bytes → Option Bytes

module _ {WS : Type 0} ⦃t : WorldState WS⦄ where
  abbrev pub accounts : WS → Accounts
  accounts ws = record {
    balance = t.balance ws;
    nonce = t.nonce ws;
    cbi_version = t.cbi_version ws;
    code = t.code ws;
    storage = λ a k. non_empty (t.storage_get ws a k);
  }

pub record WorldStateLaws (WS : Type 0) ⦃t : WorldState WS⦄ : Type 0 where
  pub accounts-set_balance :
      (ws : WS) (a : PublicAddress) (b : ℕ)
      → accounts (t.set_balance ws a b)
        ≡ record (accounts ws) { balance = update (t.balance ws) a b }
  pub accounts-set_nonce :
      (ws : WS) (a : PublicAddress) (n : ℕ)
      → accounts (t.set_nonce ws a n) ≡ record (accounts ws) { nonce = update (t.nonce ws) a n }
  pub accounts-set_cbi_version :
      (ws : WS) (a : PublicAddress) (v : U32)
      → accounts (t.set_cbi_version ws a v)
        ≡ record (accounts ws) { cbi_version = update (t.cbi_version ws) a (some v) }
  pub accounts-set_code :
      (ws : WS) (a : PublicAddress) (code : Bytes)
      → accounts (t.set_code ws a code)
        ≡ record (accounts ws) { code = update (t.code ws) a (some code) }
  pub accounts-storage_batch_set :
      (ws : WS) (a : PublicAddress) (kv : HashMap Bytes Bytes)
      → accounts (t.storage_batch_set ws a kv) ≡ record (accounts ws) {
        storage = λ b k.
            if a == b
            then overlay (HashMap.get k kv) (non_empty (t.storage_get ws b k))
            else non_empty (t.storage_get ws b k);
      }

-- A world state that meets the laws: the accounts themselves.
instance abbrev pub in_memory : WorldState Accounts
in_memory = record {
  balance = λ w. w.balance;
  nonce = λ w. w.nonce;
  cbi_version = λ w. w.cbi_version;
  code = λ w. w.code;
  storage_get = λ w. w.storage;
  storage_contains = λ w a k. elim (w.storage a k) [ none ↦ false | some _ ↦ true ];
  set_balance = λ w a b. record w { balance = update w.balance a b };
  set_nonce = λ w a n. record w { nonce = update w.nonce a n };
  set_cbi_version = λ w a v. record w { cbi_version = update w.cbi_version a (some v) };
  set_code = λ w a code. record w { code = update w.code a (some code) };
  storage_batch_set = λ w a kv. record w {
    storage = λ b k. if a == b then overlay (HashMap.get k kv) (w.storage b k) else w.storage b k;
  };
}

non_empty-batch :
    (a b : PublicAddress) (written old : Option Bytes)
    → non_empty (if a == b then overlay written old else old)
      ≡ (if a == b then overlay written (non_empty old) else non_empty old)
non_empty-batch a b written old = ground arith

pub in_memory_laws : WorldStateLaws Accounts
in_memory_laws = record {
  accounts-set_balance = λ ws a b. refl;
  accounts-set_nonce = λ ws a n. refl;
  accounts-set_cbi_version = λ ws a v. refl;
  accounts-set_code = λ ws a code. refl;
  accounts-storage_batch_set = λ ws a kv i. record (accounts ws) {
    storage = λ b k. non_empty-batch a b (HashMap.get k kv) (ws.storage b k) i;
  };
}
