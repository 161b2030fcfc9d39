-- ===== src/Protocol/Program.antt =====
-- Programs on the network account that may panic, as the command of the next epoch does where it
-- unwraps what the storage should hold. After a panic nothing more runs.
use pchain_runtime.Prelude.{ℕ, zero, suc, Bool, true, false, Option, none, some, List, [], ◌∷◌}
use pchain_runtime.Network
use pchain_runtime.Network.{StorageProgram, done}

abbrev pub Fallible : Type 0 → Type 0
Fallible A = StorageProgram (Option A)

module _ {A : Type 0} where
  unfoldable pub pure : A → Fallible A
  pure a = done (some a)

  -- A program that does not panic.
  unfoldable pub lift : StorageProgram A → Fallible A
  unfolding Network.◌>>=◌
  lift p = Network.◌>>=◌ p (λ a. done (some a))

  -- `Option::unwrap` of what a program gives.
  unfoldable pub unwrap : StorageProgram (Option A) → Fallible A
  unwrap p = p

  -- The panic of an overflow or of a missing key.
  unfoldable pub checked : Option A → Fallible A
  checked a = done a

module _ {A B : Type 0} where
  abbrev pub continue : (A → Fallible B) → Option A → Fallible B
  continue f none = done none
  continue f (some a) = f a

  infixl 10 ◌>>=◌ ◌>>◌
  unfoldable pub ◌>>=◌ : Fallible A → (A → Fallible B) → Fallible B
  unfolding Network.◌>>=◌
  m >>= f = Network.◌>>=◌ m (continue f)

  abbrev pub ◌>>◌ : Fallible A → Fallible B → Fallible B
  m >> n = m >>= λ _. n

-- `assert`-like: a `None` that is unwrapped for its presence alone.
unfoldable pub expect : Bool → Fallible (Unit {0})
expect true = done (some tt)
expect false = done none

-- `for i in start..start + n`, with what the body pushes.
module _ {A : Type 0} where
  unfoldable pub collect : ℕ → ℕ → (ℕ → Fallible A) → Fallible (List A)
  unfolding pure ◌>>=◌
  collect start zero body = pure []
  collect start (suc n) body = do x ← body start; xs ← collect (suc start) n body; pure (x ∷ xs)

  -- `for x in xs`.
  unfoldable pub for_each : List A → (A → Fallible (Unit {0})) → Fallible (Unit {0})
  unfolding pure ◌>>=◌
  for_each [] body = pure tt
  for_each (x ∷ xs) body = do body x; for_each xs body
