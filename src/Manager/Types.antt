-- ===== src/Manager/Types.antt =====
-- The state of the validator manager (src/blockchain/validator_manager.js).
use bt2c.Base.{ℕ, Bool, List}
use bt2c.Base.Int.{ℤ}
use bt2c.Base.Text.{Text}
use bt2c.Base.Dict.{Dict}
use bt2c.Validator.{Validator}

-- An average is the quotient of a sum by `total_validators`, or 0 where there are none.
pub record Stats : Type 0 where
  pub active_count : ℕ
  pub inactive_count : ℕ
  pub jailed_count : ℕ
  pub tombstoned_count : ℕ
  pub total_validators : ℕ
  pub stake_sum : ℤ
  pub reputation_sum : ℤ
  pub rewards_claimed : ℕ

-- `min_stake` is one BT2C, the `MIN_STAKE` of the manager and the bound of a validator's `isEligible`.
pub record Manager : Type 0 where
  pub validators : Dict Validator
  pub total_stake : ℤ
  pub distribution_end_time : ℕ
  pub developer_node_address : Text
  pub min_stake : ℤ
  pub stats : Stats
  pub selection_history : List Text

-- What a method returns or throws.
pub data Answer : Type 0 where
  yes no : Answer
  already_exists stake_too_low not_found : Answer
  already_claimed joined_too_late : Answer
  paid : ℕ → Answer

-- The runtime's floating-point numbers.
pub record Reals : Type 1 where
  pub Real : Type 0
  pub number : ℤ → Real
  pub plus : Real → Real → Real
  pub times : Real → Real → Real
  pub over : Real → Real → Real
  pub at_most : Real → Real → Bool
  pub less : Real → Real → Bool
