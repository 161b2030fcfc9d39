-- ===== src/Word.antt =====
-- Machine integers as natural numbers: Rust's saturating, checked and truncating operations on
-- `u64`, as the code calls them, and one on `u32`. Release builds have `overflow-checks = true` (Cargo.toml), so a
-- plain `+` or `*` that overflows panics: it is `checked_add` or `checked_mul`, with `none` the panic.
use pchain_runtime.Prelude.{ℕ, ◌+◌, ◌-◌, ◌*◌, ◌%◌, ◌^◌, min, Option, none, some, leb, if◌then◌else◌}

abbrev pub u64_max : ℕ
u64_max = 18446744073709551615

abbrev pub saturating_add : ℕ → ℕ → ℕ
saturating_add a b = min (a + b) u64_max

abbrev pub u32_saturating_add : ℕ → ℕ → ℕ
u32_saturating_add a b = min (a + b) 4294967295

abbrev pub saturating_sub : ℕ → ℕ → ℕ
saturating_sub a b = a - b

abbrev pub saturating_mul : ℕ → ℕ → ℕ
saturating_mul a b = min (a * b) u64_max

abbrev pub checked_add : ℕ → ℕ → Option ℕ
checked_add a b = if leb (a + b) u64_max then some (a + b) else none

abbrev pub checked_sub : ℕ → ℕ → Option ℕ
checked_sub a b = if leb b a then some (a - b) else none

abbrev pub checked_mul : ℕ → ℕ → Option ℕ
checked_mul a b = if leb (a * b) u64_max then some (a * b) else none

-- `x as u64`
abbrev pub as_u64 : ℕ → ℕ
as_u64 x = x % 2 ^ 64

-- The panic of an overflow ends the computation.
infixl 10 ◌>>=◌ ◌>>◌
abbrev pub ◌>>=◌ : {A B : Type 0} → Option A → (A → Option B) → Option B
none >>= f = none
some a >>= f = f a

abbrev pub ◌>>◌ : {A B : Type 0} → Option A → Option B → Option B
m >> n = m >>= λ _. n
