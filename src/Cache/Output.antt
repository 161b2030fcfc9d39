-- ===== src/Cache/Output.antt =====
-- `CommandOutputCache` of src/execution/cache/output_buffer.rs: `MaybeUnused` is an `Option` that
-- `as_mut` fills with the default.
use pchain_runtime.Prelude.{ℕ, Option, none, some, List, []}
use pchain_runtime.Types.{Bytes, Log, CommandOutput}

abbrev pub MaybeUnused : Type 0 → Type 0
MaybeUnused A = Option A

pub record CommandOutputCache : Type 0 where
  pub logs : MaybeUnused (List Log)
  pub return_value : MaybeUnused Bytes
  pub amount_withdrawn : MaybeUnused ℕ
  pub amount_staked : MaybeUnused ℕ
  pub amount_unstaked : MaybeUnused ℕ

unfoldable pub empty : CommandOutputCache
empty = record {
  logs = none;
  return_value = none;
  amount_withdrawn = none;
  amount_staked = none;
  amount_unstaked = none;
}

abbrev pub take_or_default : {A : Type 0} → A → MaybeUnused A → A
take_or_default default none = default
take_or_default default (some a) = a

-- The values, and the cache emptied.
unfoldable pub take : CommandOutputCache → CommandOutput × CommandOutputCache
unfolding empty
take c = (
  record {
    logs = take_or_default [] c.logs;
    return_value = take_or_default [] c.return_value;
    amount_withdrawn = take_or_default 0 c.amount_withdrawn;
    amount_staked = take_or_default 0 c.amount_staked;
    amount_unstaked = take_or_default 0 c.amount_unstaked;
  },
  empty,
)

unfoldable pub take_return_value : CommandOutputCache → Option Bytes × CommandOutputCache
take_return_value c = (c.return_value, record c { return_value = none })
