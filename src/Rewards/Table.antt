-- ===== src/Rewards/Table.antt =====
-- `ISSUANCE_RATE_REDUCTION_FACTOR` of src/rewards_formulas.rs: 0.85^(n/365) * 10000 for the epochs
-- before the rate is constant.
pub mod Early
pub mod Late
pub mod Laws
use pchain_runtime.Prelude.{ℕ, List, ◌++◌}
use pchain_runtime.Rewards.Table.Early.{factors_0, factors_1, factors_2, factors_3, factors_4}
use pchain_runtime.Rewards.Table.Late.{factors_5, factors_6, factors_7, factors_8, factors_9}

unfoldable pub issuance_rate_reduction_factor : List ℕ
unfolding factors_0 factors_1 factors_2 factors_3 factors_4 factors_5 factors_6 factors_7 factors_8
    factors_9
issuance_rate_reduction_factor =
    factors_0 ++ factors_1 ++ factors_2 ++ factors_3 ++ factors_4 ++ factors_5 ++ factors_6
    ++ factors_7 ++ factors_8 ++ factors_9
