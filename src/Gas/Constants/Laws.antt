-- ===== src/Gas/Constants/Laws.antt =====
-- The costs of src/gas/constants.rs: refunds, and the size of the receipt that a transaction pays for.
use pchain_runtime.Prelude.{ℕ, ◌+◌, ◌*◌, ◌≤◌, ◌<◌, List, [], ◌∷◌, length, arith}
use pchain_runtime.Types.{Log}
use pchain_runtime.Types.Receipt.{CommandReceiptV2}
use pchain_runtime.Gas.Constants.{set_cost_delete_old_value, set_cost_write_new_value}

-- The refund for an old value that is overwritten by a value that is not empty is at most half of
-- what writing the old value cost.
pub refund-le-half_write :
    (key_len old_len new_len : ℕ)
    → 0 < new_len
    → 2 * set_cost_delete_old_value key_len old_len new_len ≤ set_cost_write_new_value old_len
unfolding set_cost_delete_old_value set_cost_write_new_value
refund-le-half_write key_len old_len new_len h = ground arith

-- The bytes of the fields: an exit code has one, a `u64` eight, and a vector four and its elements'.
abbrev pub logs_size : List Log → ℕ
logs_size [] = 0
logs_size (log ∷ logs) = 4 + length log.topic + (4 + length log.value) + logs_size logs

abbrev pub cmd_recp_size : CommandReceiptV2 → ℕ
cmd_recp_size (CommandReceiptV2.call e g logs value) =
    1 + 8 + (4 + logs_size logs) + (4 + length value)
cmd_recp_size (CommandReceiptV2.withdraw_deposit e g amount) = 1 + 8 + 8
cmd_recp_size (CommandReceiptV2.stake_deposit e g amount) = 1 + 8 + 8
cmd_recp_size (CommandReceiptV2.unstake_deposit e g amount) = 1 + 8 + 8
cmd_recp_size _ = 1 + 8

abbrev pub recps_size : List CommandReceiptV2 → ℕ
recps_size [] = 0
recps_size (r ∷ rs) = cmd_recp_size r + recps_size rs

-- A receipt that has the given command receipts: the gas used, the exit code and the vector.
abbrev pub receipt_size : List CommandReceiptV2 → ℕ
receipt_size rs = 8 + 1 + (4 + recps_size rs)
