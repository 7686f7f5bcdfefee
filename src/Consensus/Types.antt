-- ===== src/Consensus/Types.antt =====
-- The state of the consensus engine (src/consensus/rpos.js). Amounts count base units. The timers are
-- not part of the state: what they call is an event that may come at any time. The list
-- `finalizedBlocks` is left out, since nothing is ever put on it.
use bt2c.Base.{ℕ, Bool, Option, List}
use bt2c.Base.Int.{ℤ}
use bt2c.Base.Text.{Text}
use bt2c.Base.Dict.{Dict}
use bt2c.Validator.{Validator}

-- `ConsensusState`
pub data Phase : Type 0 where
  syncing waiting proposing validating voting finalizing : Phase

pub data VoteType : Type 0 where
  prevote precommit : VoteType

pub record Vote : Type 0 where
  pub block_hash : Text
  pub height : ℕ
  pub round : ℕ

-- The fields of a block that the engine reads.
pub record Candidate : Type 0 where
  pub hash : Text
  pub height : ℕ
  pub timestamp : ℕ
  pub transaction_count : ℕ

pub record Proposal : Type 0 where
  pub block : Candidate
  pub proposer_address : Text

-- `currentProposer`: null, the value undefined, or an address.
pub data Proposer : Type 0 where
  nobody undefined_proposer : Proposer
  someone : Text → Proposer

-- The threshold of votes is the quotient `threshold_num / threshold_den`, the penalty of slashing
-- `penalty_num / penalty_den`; `validator_address` is none where it is null.
pub record Settings : Type 0 where
  pub min_validators : ℕ
  pub max_missed_blocks : ℕ
  pub jail_duration : ℕ
  pub validator_address : Option Text
  pub penalty_num : ℕ
  pub penalty_den : ℕ
  pub tombstoning_offenses : List Text
  pub block_reward : ℕ
  pub min_reward : ℕ
  pub max_supply : ℕ
  pub halving_interval : ℕ
  pub developer_node_reward : ℕ
  pub early_validator_reward : ℕ
  pub distribution_period : ℕ
  pub distribution_start_time : ℕ
  pub minimum_stake : ℤ
  pub threshold_num : ℕ
  pub threshold_den : ℕ

pub record Engine : Type 0 where
  pub settings : Settings
  pub phase : Phase
  pub members : Dict Validator
  pub active_validators : ℕ
  pub current_proposer : Proposer
  pub current_height : ℕ
  pub current_round : ℕ
  pub round_start_time : ℕ
  pub total_stake : ℤ
  pub is_running : Bool
  pub developer_node_set : Bool
  pub total_supply : ℤ
  pub prevotes : Dict Vote
  pub precommits : Dict Vote
  pub current_proposal : Option Proposal

-- What the functions passed in as options return at a call, none for a function that is not given:
-- `getValidators`, `getEligibleValidators`, and `selectValidator` on the seed that is hashed from the
-- height, the round and the time.
pub record Hooks : Type 0 where
  pub get_validators : Option (List Validator)
  pub get_eligible_validators : Option (List Validator)
  pub select_validator : Option (ℕ → ℕ → ℕ → Option Validator)
  pub block_hash : ℕ → ℕ → Text → Text

-- What a call leaves: the state, and whether it threw a TypeError.
abbrev pub Run : Type 0
Run = Engine × Bool
