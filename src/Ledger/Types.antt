-- ===== src/Ledger/Types.antt =====
-- The data of src/blockchain/state_machine.js: options, accounts, blocks, transactions and the state
-- of `class StateMachine`.
-- Numbers: an amount counts base units, as a signed whole number; the configured rewards, stakes and
-- bounds are not negative. A string that is absent and the empty string, which the code treats alike
-- by `!x` and `x || y`, are both the empty text.
use bt2c.Base.{ℕ, Bool, Option, List}
use bt2c.Base.Int.{ℤ}
use bt2c.Base.Text.{Text}
use bt2c.Base.Dict.{Dict}
use bt2c.Validator.{Validator}

-- `min_reward` is the literal 0.00000001 of `calculateBlockReward`.
pub record Options : Type 0 where
  pub minimum_stake : ℕ
  pub developer_node_reward : ℕ
  pub early_validator_reward : ℕ
  pub distribution_period : ℕ
  pub distribution_start_time : ℕ
  pub halving_interval : ℕ
  pub block_reward : ℕ
  pub max_supply : ℕ
  pub min_reward : ℕ

pub record Account : Type 0 where
  pub address : Text
  pub balance : ℤ
  pub nonce : ℕ
  pub stake : ℤ
  pub created_at : ℕ
  pub updated_at : ℕ

-- `none` is an amount or a fee that is absent.
pub record Transaction : Type 0 where
  pub hash : Text
  pub from : Text
  pub sender : Text
  pub to : Text
  pub recipient : Text
  pub amount : Option ℤ
  pub fee : Option ℤ
  pub nonce : ℕ
  pub validator_address : Text

-- `transactions` is `none` where it is no array.
pub record Block : Type 0 where
  pub hash : Text
  pub height : ℕ
  pub previous_hash : Text
  pub validator_address : Text
  pub timestamp : ℕ
  pub transactions : Option (List Transaction)

-- A value of the map of validators. The copy `{ ...validator }` has the fields of the object and not
-- the methods of its class.
pub record Entry : Type 0 where
  pub validator : Validator
  pub has_methods : Bool

pub record State : Type 0 where
  pub options : Options
  pub accounts : Dict Account
  pub validators : Dict Entry
  pub current_height : ℕ
  pub last_block_hash : Option Text
  pub total_supply : ℤ
  pub developer_node_set : Bool

pub record Snapshot : Type 0 where
  pub accounts : Dict Account
  pub validators : Dict Entry
  pub current_height : ℕ
  pub last_block_hash : Option Text
  pub total_supply : ℤ
  pub developer_node_set : Bool

pub data Message : Type 0 where
  invalid_block_structure unexpected_height invalid_previous_hash future_timestamp : Message
  invalid_transaction_structure missing_address invalid_amount invalid_fee : Message
  insufficient_funds invalid_nonce : Message
  transaction_failed : Text → Message → Message

pub data Outcome : Type 0 where
  accepted : Text → Outcome
  rejected : Message → Outcome

-- What a method that returns a Boolean did: it returned, or it called a method that is not there.
pub data Answer : Type 0 where
  returned : Bool → Answer
  type_error : Answer
