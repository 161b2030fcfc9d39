-- ===== src/Commands/Contract/Deploy.antt =====
-- What a deployment leaves.
use pchain_runtime.Prelude.{
  ℕ, ◌≤◌, ◌≡◌, refl, ap, sym, ◌∙◌, Bool, true, false, Option, none, some, ltb, leb, if◌then◌else◌,
  nat_eq, arith,
}
use pchain_runtime.Error.{
  TransitionError, Result, ok, err, panic, contract_already_exists, execution_proper_gas_exhausted,
}
use pchain_runtime.Types.{PublicAddress, Bytes}
use pchain_runtime.HashMap
use pchain_runtime.Cache.Data
use pchain_runtime.Cache.Data.{U32}
use pchain_runtime.Cache.World.{WorldState}
use pchain_runtime.Cache.World.Laws
use pchain_runtime.Cache.World.Laws.{Pending, pending, seen_balance}
use pchain_runtime.Gas.Meter
use pchain_runtime.Gas.Meter.{GasMeter}
use pchain_runtime.State.{ExecutionState}
use pchain_runtime.Execution.{
  Execution, continue, ◌>>=◌, ◌>>◌, metered, metered_, gets, abort, pure, abort_if_gas_exhausted,
}
use pchain_runtime.Execution.Behaves.{cache_of}
use pchain_runtime.Contract.Engine.{Engine, ModuleBuildError, ContractValidateError}
use pchain_runtime.Commands.Contract.{
  abort_on, build_error, validate_error, check_contract, deploy, contract_address,
  current_cbi_version, is_cbi_compatible,
}

module _ {WS : Type 0} ⦃t : WorldState WS⦄ where
  pending-ws_set_code :
      (a : PublicAddress) (code : Bytes) (g : GasMeter WS)
      → pending (Meter.ws_set_code a code g).ws_cache ≡ (record (pending g.ws_cache) {
        contract_codes = HashMap.insert a code (pending g.ws_cache).contract_codes;
      })
  unfolding Meter.ws_set_code Data.set HashMap.insert
  pending-ws_set_code a code g =
      ap (λ (p : Pending WS). record p { contract_codes = HashMap.insert a code p.contract_codes })
        (Laws.pending-contract_code a g.ws_cache)

  pending-ws_set_cbi_version :
      (a : PublicAddress) (v : U32) (g : GasMeter WS)
      → pending (Meter.ws_set_cbi_version a v g).ws_cache ≡ (record (pending g.ws_cache) {
        cbi_versions = HashMap.insert a v (pending g.ws_cache).cbi_versions;
      })
  unfolding Meter.ws_set_cbi_version Data.set HashMap.insert
  pending-ws_set_cbi_version a v g =
      ap (λ (p : Pending WS). record p { cbi_versions = HashMap.insert a v p.cbi_versions })
        (Laws.pending-cbi_version a g.ws_cache)

-- The contract may be deployed at the address.
pub record IsDeployable {M WS : Type 0} (engine : Engine M) ⦃t : WorldState WS⦄ (contract : Bytes)
    (cbi_version : ℕ) (address : PublicAddress) (g : GasMeter WS) : Type 0 where
  pub compatible : cbi_version ≤ current_cbi_version
  pub absent : (Meter.ws_cbi_version address g).0 ≡ none
  pub compiles : engine.from_bytecode_checked contract ≡ none
  pub valid : engine.validate_proper_contract contract ≡ none

abbrev pub is_ok : {A : Type 0} → Result A → Bool
is_ok (ok _) = true
is_ok (err _) = false
is_ok panic = false

module _ {WS E : Type 0} where
  nothing_found :
      (v : Option U32) (b : Option ModuleBuildError) (c : Option ContractValidateError)
      (s : ExecutionState WS E)
      → let m =
          abort_on (λ _. contract_already_exists) v
          >> (abort_on build_error b >> abort_on validate_error c) in
        is_ok (m s).0 ≡ true → (v ≡ none) × (b ≡ none) × (c ≡ none) × ((m s).1 ≡ s)
  unfolding ◌>>=◌ abort pure
  nothing_found none none none s h = (refl, refl, refl, refl)
  nothing_found (some v) b c s h = absurd (cc h)
  nothing_found none (some b) c s h = absurd (cc h)
  nothing_found none none (some c) s h = absurd (cc h)

  guarded :
      (test : Bool) (m : Execution WS E (Unit {0})) (e : TransitionError) (s : ExecutionState WS E)
      → is_ok ((if test then m else abort e) s).0 ≡ true
      → (test ≡ true) × (is_ok (m s).0 ≡ true) × (((if test then m else abort e) s).1 ≡ (m s).1)
  unfolding abort
  guarded true m e s h = (refl, h, refl)
  guarded false m e s h = absurd (cc h)

module _ {M WS E : Type 0} (engine : Engine M) ⦃t : WorldState WS⦄ where
  -- The state after the check.
  abbrev looked_up : PublicAddress → ExecutionState WS E → ExecutionState WS E
  looked_up address s = record s {
    ctx = record s.ctx { gas_meter = (Meter.ws_cbi_version address s.ctx.gas_meter).1 };
  }

  check_contract_lem :
      (contract : Bytes) (cbi_version : ℕ) (address : PublicAddress) (s : ExecutionState WS E)
      → is_ok (check_contract engine contract cbi_version address s).0 ≡ true
      → IsDeployable engine contract cbi_version address s.ctx.gas_meter
        × ((check_contract engine contract cbi_version address s).1 ≡ looked_up address s)
  unfolding check_contract ◌>>=◌ metered is_cbi_compatible
  check_contract_lem contract cbi_version address s h =
      let (compatible, ran, same) = guarded (leb cbi_version current_cbi_version) _ _ s h in
      let (absent, compiles, valid, kept) =
        nothing_found (Meter.ws_cbi_version address s.ctx.gas_meter).0
          (engine.from_bytecode_checked contract) (engine.validate_proper_contract contract)
          (looked_up address s) ran in
      (
        record {
          compatible = ground (arith, compatible);
          absent = absent;
          compiles = compiles;
          valid = valid;
        },
        same ∙ kept,
      )

module _ {WS E A : Type 0} where
  ok_then :
      (r : Result (Unit {0})) (f : Unit {0} → Execution WS E A) (s : ExecutionState WS E)
      → is_ok (continue r f s).0 ≡ true
      → (is_ok r ≡ true) × (continue r f s ≡ f tt s)
  ok_then (ok tt) f s h = (refl, refl)
  ok_then (err e) f s h = absurd (cc h)
  ok_then panic f s h = absurd (cc h)

module _ {WS E : Type 0} where
  -- Two tests for exhausted gas leave the state alone where they pass.
  unexhausted :
      (first : Bool) (e : TransitionError) (s : ExecutionState WS E)
      → let m = if first then abort e else abort_if_gas_exhausted in
        is_ok (m s).0 ≡ true → (m s).1 ≡ s
  unfolding abort abort_if_gas_exhausted
  unexhausted true e s h = absurd (cc h)
  unexhausted false e s h =
      passed (ltb s.txn_meta.gas_limit (Meter.total_gas_used s.ctx.gas_meter)) s h
    where
      passed :
          (test : Bool) (s : ExecutionState WS E)
          → is_ok (if test then abort execution_proper_gas_exhausted s else (ok tt, s)).0 ≡ true
          → (if test then abort execution_proper_gas_exhausted s else (ok tt, s)).1 ≡ s
      passed true s h = absurd (cc h)
      passed false s h = refl

module _ {WS : Type 0} ⦃t : WorldState WS⦄ where
  -- The gas meter after the code and the version are written.
  abbrev deploy_meter : PublicAddress → Bytes → U32 → GasMeter WS → GasMeter WS
  deploy_meter a contract v g =
      Meter.ws_set_cbi_version a v (Meter.ws_set_code a contract (Meter.ws_cbi_version a g).1)

  pending-ws_cbi_version :
      (a : PublicAddress) (g : GasMeter WS)
      → pending (Meter.ws_cbi_version a g).1.ws_cache ≡ pending g.ws_cache
  unfolding Meter.ws_cbi_version
  pending-ws_cbi_version a g = Laws.pending-cbi_version a g.ws_cache

  pending-deploy_meter :
      (a : PublicAddress) (contract : Bytes) (v : U32) (g : GasMeter WS)
      → pending (deploy_meter a contract v g).ws_cache ≡ (record (pending g.ws_cache) {
        contract_codes = HashMap.insert a contract (pending g.ws_cache).contract_codes;
        cbi_versions = HashMap.insert a v (pending g.ws_cache).cbi_versions;
      })
  pending-deploy_meter a contract v g =
      let g₁ = (Meter.ws_cbi_version a g).1 in
      pending-ws_set_cbi_version a v (Meter.ws_set_code a contract g₁)
      ∙ ap (λ (p : Pending WS). record p { cbi_versions = HashMap.insert a v p.cbi_versions })
          (pending-ws_set_code a contract g₁
            ∙ ap
                (λ (p : Pending WS). record p {
                  contract_codes = HashMap.insert a contract p.contract_codes;
                })
                (pending-ws_cbi_version a g))

module _ {WS E : Type 0} ⦃t : WorldState WS⦄ where
  -- The end of a deployment, once the contract is checked.
  abbrev write_contract : PublicAddress → Bytes → U32 → Execution WS E (Unit {0})
  write_contract a contract v = do
    metered_ (Meter.ws_set_code a contract)
    metered_ (Meter.ws_set_cbi_version a v)
    exhausted ← gets (λ s. ltb s.txn_meta.gas_limit (Meter.total_gas_used s.ctx.gas_meter))
    if exhausted then abort execution_proper_gas_exhausted else abort_if_gas_exhausted

  abbrev with_contract : PublicAddress → Bytes → U32 → ExecutionState WS E → ExecutionState WS E
  with_contract a contract v s = record s {
    ctx = record s.ctx {
      gas_meter = Meter.ws_set_cbi_version a v (Meter.ws_set_code a contract s.ctx.gas_meter);
    };
  }

  write_contract_lem :
      (a : PublicAddress) (contract : Bytes) (v : U32) (s : ExecutionState WS E)
      → is_ok (write_contract a contract v s).0 ≡ true
      → (write_contract a contract v s).1 ≡ with_contract a contract v s
  unfolding ◌>>=◌ metered_ gets
  write_contract_lem a contract v s h =
      let s' = with_contract a contract v s in
      unexhausted (ltb s'.txn_meta.gas_limit (Meter.total_gas_used s'.ctx.gas_meter))
        execution_proper_gas_exhausted s' h

module _ {M WS E : Type 0} (engine : Engine M) ⦃t : WorldState WS⦄ where
  -- If a deployment succeeds, its CBI version is compatible, the address, which is made from the
  -- signer, the nonce and in a V2 transaction the command's index, had no CBI version, and the code
  -- compiles and is a valid contract; what is pending is then what was pending before with the code
  -- and the version written at the address.
  pub deploy_lem :
      (i : ℕ) (contract : Bytes) (cbi_version : ℕ) (s : ExecutionState WS E)
      → let (r, s') = deploy engine i contract cbi_version s in
        let a = contract_address engine s.txn_meta.version s.txn_meta.signer s.txn_meta.nonce i in
        is_ok r ≡ true
        → IsDeployable engine contract cbi_version a s.ctx.gas_meter
          × (pending (cache_of s') ≡ (record (pending (cache_of s)) {
            contract_codes = HashMap.insert a contract (pending (cache_of s)).contract_codes;
            cbi_versions =
                HashMap.insert a
                  (record { value = cbi_version })
                  (pending (cache_of s)).cbi_versions;
          }))
  unfolding deploy ◌>>=◌ gets metered_
  deploy_lem i contract cbi_version s h =
      let a = contract_address engine s.txn_meta.version s.txn_meta.signer s.txn_meta.nonce i in
      let v : U32 = record { value = cbi_version } in
      let (r, u) = check_contract engine contract cbi_version a s in
      let (fine, reached) = ok_then r (λ _. write_contract a contract v) u h in
      let (deployable, looked) = check_contract_lem engine contract cbi_version a s fine in
      (
        deployable,
        ap (λ out. pending (cache_of out.1)) reached
            ∙ ap (λ w. pending (cache_of w))
                (write_contract_lem a contract v u (sym (ap (λ out. is_ok out.0) reached) ∙ h))
            ∙ ap (λ w. pending (cache_of (with_contract a contract v w))) looked
            ∙ pending-deploy_meter a contract v s.ctx.gas_meter,
      )
