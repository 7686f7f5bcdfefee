-- ===== src/Distribution.antt =====
-- `class DistributionPeriod` of src/consensus/distribution.js, without a database: the one-time rewards
-- of the first two weeks. Each call is taken to end before the next begins, so the points where the code
-- awaits are not seen. `Date.now()` is the argument `now`. Amounts count base units; a developer
-- address that is null is the empty text.
pub mod Tally
use bt2c.Base.{ℕ, ◌+◌, ◌-◌, Bool, true, false, ◌&&◌, not, List, [], ltb, leb, if◌then◌else◌}
use bt2c.Base.Text.{Text, text_eq, is_empty}
use bt2c.Utxo.{member, set_add}

pub data RewardType : Type 0 where
  developer validator : RewardType

pub record PeriodOptions : Type 0 where
  pub duration : ℕ
  pub start_time : ℕ
  pub developer_address : Text
  pub developer_reward : ℕ
  pub validator_reward : ℕ

pub record Period : Type 0 where
  pub options : PeriodOptions
  pub rewarded_addresses : List Text
  pub end_time : ℕ
  pub developer_rewarded : Bool
  pub validators_rewarded : ℕ
  pub total_distributed : ℕ

pub data Refusal : Type 0 where
  not_active already_received developer_already_rewarded not_the_developer : Refusal

pub data Eligibility : Type 0 where
  eligible : RewardType → ℕ → Eligibility
  ineligible : Refusal → Eligibility

pub data RewardResult : Type 0 where
  rewarded : Text → ℕ → RewardType → ℕ → RewardResult
  refused : Refusal → RewardResult
  failed : RewardResult

unfoldable pub new_period : PeriodOptions → Period
new_period o = record {
  options = o;
  rewarded_addresses = [];
  end_time = o.start_time + o.duration;
  developer_rewarded = false;
  validators_rewarded = 0;
  total_distributed = 0;
}

unfoldable pub is_active : ℕ → Period → Bool
is_active now p = leb p.options.start_time now && leb now p.end_time

unfoldable pub get_time_remaining : ℕ → Period → ℕ
get_time_remaining now p = if ltb p.end_time now then 0 else p.end_time - now

unfoldable pub check_eligibility : ℕ → Text → Bool → Period → Eligibility
check_eligibility now address is_developer p =
    if not (is_active now p)
    then ineligible not_active
    else if member address p.rewarded_addresses
    then ineligible already_received
    else if is_developer
    then (if p.developer_rewarded
        then ineligible developer_already_rewarded
        else if not (is_empty p.options.developer_address)
            && not (text_eq address p.options.developer_address)
        then ineligible not_the_developer
        else eligible RewardType.developer p.options.developer_reward)
    else eligible RewardType.validator p.options.validator_reward

-- The update of the fields in memory.
unfoldable pub record_reward : Text → RewardType → ℕ → Period → Period
record_reward address RewardType.developer amount p = record p {
  rewarded_addresses = set_add address p.rewarded_addresses;
  developer_rewarded = true;
  total_distributed = p.total_distributed + amount;
}
record_reward address RewardType.validator amount p = record p {
  rewarded_addresses = set_add address p.rewarded_addresses;
  validators_rewarded = p.validators_rewarded + 1;
  total_distributed = p.total_distributed + amount;
}

-- What follows on the method of the state machine: an exception is caught, and then nothing is recorded.
abbrev pub finish_reward {ℓ} :
    {S : Type ℓ} → ℕ → Text → RewardType → ℕ → Period → S × Bool → (Period × S) × RewardResult
finish_reward now address kind amount p (s, true) = ((p, s), failed)
finish_reward now address kind amount p (s, false) =
    ((record_reward address kind amount p, s), rewarded address amount kind now)

-- `add_balance` is the method of the state machine `options.stateMachine`, whose state is `S`; true says
-- that it threw. What it returns is not looked at.
unfoldable pub process_reward {ℓ} :
    {S : Type ℓ}
    → (Text → ℕ → S → S × Bool)
    → ℕ
    → Text
    → Bool
    → Period × S
    → (Period × S) × RewardResult
process_reward add_balance now address is_developer (p, s) =
    elim (check_eligibility now address is_developer p) [
      | ineligible reason ↦ ((p, s), refused reason)
      | eligible kind amount ↦
          finish_reward now address kind amount p (add_balance address amount s)
    ]
