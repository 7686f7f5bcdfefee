-- ===== src/Validator.antt =====
-- The validator object of src/blockchain/validator.js: its life cycle (inactive, active, jailed,
-- tombstoned), its reputation and its block counters. A method that changes the object returns the
-- new record; `Date.now()` is the argument `now`, in milliseconds.
-- Numbers: a stake counts base units; a percentage counts thousandths of a percent, and a
-- reputation counts 1/5000 of a point, so that the source's `(x - 95) / 5` is exact.
use bt2c.Base.{ℕ, ◌+◌, ◌-◌, ◌*◌, Bool, true, false, ◌&&◌, ltb, leb, ◌==◌, if◌then◌else◌}
use bt2c.Base.Int.{ℤ, pos, negsuc, ◌+ℤ◌, ◌-ℤ◌, leb_ℤ}
use bt2c.Base.Text.{Text}
pub mod Lifecycle
pub mod Reputation

-- `ValidatorState`
pub data ValidatorState : Type 0 where
  active inactive jailed tombstoned : ValidatorState

abbrev pub state_eq : ValidatorState → ValidatorState → Bool
state_eq ValidatorState.active ValidatorState.active = true
state_eq ValidatorState.inactive ValidatorState.inactive = true
state_eq ValidatorState.jailed ValidatorState.jailed = true
state_eq ValidatorState.tombstoned ValidatorState.tombstoned = true
state_eq _ _ = false

-- `uptime` is the quotient `uptime_num / uptime_den`, in percent.
pub record Validator : Type 0 where
  pub address : Text
  pub public_key : Text
  pub stake : ℤ
  pub moniker : Text
  pub state : ValidatorState
  pub reputation : ℤ
  pub blocks_produced : ℕ
  pub blocks_validated : ℕ
  pub blocks_missed : ℕ
  pub uptime_num : ℕ
  pub uptime_den : ℕ
  pub last_active : ℕ
  pub jailed_until : ℕ
  pub is_first_validator : Bool
  pub joined_during_distribution : Bool
  pub distribution_reward_claimed : Bool

-- One point of reputation.
abbrev pub points : ℕ → ℤ
points n = pos (n * 5000)

abbrev pub max_ℤ : ℤ → ℤ → ℤ
max_ℤ a b = if leb_ℤ a b then b else a

abbrev pub clamp : ℤ → ℤ → ℤ → ℤ
clamp lo hi x = max_ℤ lo (if leb_ℤ hi x then hi else x)

unfoldable pub new : ℕ → Text → Text → ℤ → Text → Validator
new now address public_key stake moniker = record {
  address = address;
  public_key = public_key;
  stake = stake;
  moniker = moniker;
  state = ValidatorState.inactive;
  reputation = points 100;
  blocks_produced = 0;
  blocks_validated = 0;
  blocks_missed = 0;
  uptime_num = 100;
  uptime_den = 1;
  last_active = now;
  jailed_until = 0;
  is_first_validator = false;
  joined_during_distribution = false;
  distribution_reward_claimed = false;
}

unfoldable pub update_reputation : Bool → ℕ → ℕ → Validator → Validator
update_reputation produced_block validation_accuracy current_uptime v =
    let r1 = if produced_block then v.reputation +ℤ points 1 else v.reputation -ℤ points 5 in
    let r2 = r1 +ℤ (pos validation_accuracy -ℤ pos 95000) in
    let r3 = r2 +ℤ (pos current_uptime -ℤ pos 95000) in
    record v { reputation = clamp (pos 0) (points 200) r3 }

unfoldable pub jail : ℕ → ℕ → Validator → Validator
jail now duration v = record v {
  state = ValidatorState.jailed;
  jailed_until = now + duration * 1000;
  reputation = max_ℤ (pos 0) (v.reputation -ℤ points 20);
}

unfoldable pub try_unjail : ℕ → Validator → Validator × Bool
try_unjail now v =
    if state_eq v.state ValidatorState.jailed && ltb v.jailed_until now
    then (record v { state = ValidatorState.inactive }, true)
    else (v, false)

unfoldable pub tombstone : Validator → Validator
tombstone v = record v { state = ValidatorState.tombstoned; reputation = pos 0 }

unfoldable pub activate : ℕ → Validator → Validator × Bool
activate now v =
    if state_eq v.state ValidatorState.inactive
    then (record v { state = ValidatorState.active; last_active = now }, true)
    else (v, false)

unfoldable pub deactivate : Validator → Validator
deactivate v =
    if state_eq v.state ValidatorState.active
    then record v { state = ValidatorState.inactive }
    else v

-- `this.stake >= 1.0`; `coin` is the number of base units in one BT2C
unfoldable pub is_eligible : ℤ → Validator → Bool
is_eligible coin v = state_eq v.state ValidatorState.active && leb_ℤ coin v.stake

unfoldable pub update_stats : Bool → Validator → Validator
update_stats produced v =
    let blocks_produced : ℕ = if produced then v.blocks_produced + 1 else v.blocks_produced in
    let blocks_missed : ℕ = if produced then v.blocks_missed else v.blocks_missed + 1 in
    let total_blocks : ℕ = blocks_produced + blocks_missed in
    record v {
      blocks_produced = blocks_produced;
      blocks_missed = blocks_missed;
      uptime_num = if ltb 0 total_blocks then blocks_produced * 100 else 100;
      uptime_den = if ltb 0 total_blocks then total_blocks else 1;
    }

unfoldable pub check_and_jail_if_needed : ℕ → ℕ → ℕ → Validator → Validator × Bool
unfolding jail
check_and_jail_if_needed now max_missed_blocks jail_duration v =
    if ltb max_missed_blocks v.blocks_missed then (jail now jail_duration v, true) else (v, false)

-- `fromJSON` on the fields of `toJSON()`, which are those of the object: every field is copied.
unfoldable pub from_json : ℕ → Validator → Validator
unfolding new
from_json now d = record (new now d.address d.public_key d.stake d.moniker) {
  state = d.state;
  reputation = d.reputation;
  blocks_produced = d.blocks_produced;
  blocks_validated = d.blocks_validated;
  blocks_missed = d.blocks_missed;
  uptime_num = d.uptime_num;
  uptime_den = d.uptime_den;
  last_active = d.last_active;
  jailed_until = d.jailed_until;
  is_first_validator = d.is_first_validator;
  joined_during_distribution = d.joined_during_distribution;
  distribution_reward_claimed = d.distribution_reward_claimed;
}
