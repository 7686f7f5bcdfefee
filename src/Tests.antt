-- ===== src/Tests.antt =====
-- Small concrete inputs on which the theorems are applied, one module per component.
mod OnLedger
mod OnStaking
mod OnUtxo
mod OnValidator
mod OnMempool
mod OnParts
mod OnSealing
mod OnRegistry
mod OnManager
mod OnConsensus
mod OnBlockstore
use bt2c.Base.{ℕ, Bool, true, false, Option, none, some, List, [], ◌∷◌}
use bt2c.Base.Int.{ℤ, pos}
use bt2c.Base.Text.{Text}
use bt2c.Ledger.Types.{Options, Account, Transaction, Block, Entry, State}
use bt2c.Validator.{Validator, ValidatorState}

abbrev pub alice : Text
alice = 97 ∷ []

abbrev pub bob : Text
bob = 98 ∷ []

abbrev pub carol : Text
carol = 99 ∷ []

abbrev pub options : Options
options = record {
  minimum_stake = 1;
  developer_node_reward = 10;
  early_validator_reward = 1;
  distribution_period = 1000;
  distribution_start_time = 0;
  halving_interval = 100;
  block_reward = 50;
  max_supply = 1000;
  min_reward = 1;
}

abbrev pub alice_account : Account
alice_account = record {
  address = alice;
  balance = pos 100;
  nonce = 0;
  stake = pos 5;
  created_at = 0;
  updated_at = 0;
}

abbrev pub carol_validator : Validator
carol_validator = record {
  address = carol;
  public_key = 1 ∷ [];
  stake = pos 7;
  moniker = [];
  state = ValidatorState.inactive;
  reputation = pos 500000;
  blocks_produced = 0;
  blocks_validated = 0;
  blocks_missed = 0;
  uptime_num = 100;
  uptime_den = 1;
  last_active = 0;
  jailed_until = 0;
  is_first_validator = false;
  joined_during_distribution = false;
  distribution_reward_claimed = false;
}

abbrev pub carol_entry : Entry
carol_entry = record { validator = carol_validator; has_methods = true }

abbrev pub start : State
start = record {
  options = options;
  accounts = (alice, alice_account) ∷ [];
  validators = (carol, carol_entry) ∷ [];
  current_height = 0;
  last_block_hash = none;
  total_supply = pos 100;
  developer_node_set = false;
}

abbrev pub pay : Transaction
pay = record {
  hash = 116 ∷ [];
  from = alice;
  sender = [];
  to = bob;
  recipient = [];
  amount = some (pos 30);
  fee = some (pos 2);
  nonce = 1;
  validator_address = carol;
}

abbrev pub first_block : Block
first_block = record {
  hash = 49 ∷ [];
  height = 1;
  previous_hash = 48 ∷ [];
  validator_address = carol;
  timestamp = 5;
  transactions = some (pay ∷ []);
}

-- A second payment by alice in the same block.
abbrev pub pay_again : Transaction
pay_again = record pay { hash = 117 ∷ []; nonce = 2 }

abbrev pub double_block : Block
double_block = record first_block { transactions = some (pay ∷ pay_again ∷ []) }

-- Two payments, neither too much alone, with the same nonce.
abbrev pub clash_block : Block
clash_block = record first_block { transactions = some (pay ∷ record pay { hash = 117 ∷ [] } ∷ []) }
