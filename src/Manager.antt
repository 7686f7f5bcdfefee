-- ===== src/Manager.antt =====
-- `class ValidatorManager` of src/blockchain/validator_manager.js: the map of validators, its statistics
-- and the stake-weighted choice of a proposer. A validator is changed through the manager only. The
-- monitoring service, which is only told numbers, is left out. `Date.now()` is the argument `now`.
pub mod Types
pub mod Choice
pub mod Counting
pub mod Filing
pub mod Service
pub mod Runs
use bt2c.Base.{
  ℕ, suc, ◌+◌, ◌-◌, ◌*◌, Bool, true, false, not, Option, none, some, List, [], ◌∷◌, ◌++◌, length,
  drop, ltb, if◌then◌else◌,
}
use bt2c.Base.Int.{ℤ, pos, ◌+ℤ◌, ltb_ℤ}
use bt2c.Base.Text.{Text, text_eq, is_empty}
use bt2c.Base.Dict.{Dict, lookup, contains, insert, erase}
use bt2c.Validator.{
  Validator, ValidatorState, state_eq, new, from_json, jail, try_unjail, tombstone, activate,
  deactivate, is_eligible, update_stats, check_and_jail_if_needed,
}
use Types.{
  Stats, Manager, Answer, yes, no, already_exists, stake_too_low, not_found, already_claimed,
  joined_too_late, paid, Reals,
}
use Choice.{choose}

-- The loop of `_updateStats`, which begins with zeros.
abbrev pub count_in : ValidatorState → Validator → ℕ → ℕ
count_in s v n = if state_eq v.state s then n + 1 else n

abbrev pub add_up : Validator → Stats → Stats
add_up v t = record t {
  active_count = count_in ValidatorState.active v t.active_count;
  inactive_count = count_in ValidatorState.inactive v t.inactive_count;
  jailed_count = count_in ValidatorState.jailed v t.jailed_count;
  tombstoned_count = count_in ValidatorState.tombstoned v t.tombstoned_count;
  stake_sum = t.stake_sum +ℤ v.stake;
  reputation_sum = t.reputation_sum +ℤ v.reputation;
  rewards_claimed =
      if v.distribution_reward_claimed then t.rewards_claimed + 1 else t.rewards_claimed;
}

unfoldable pub count_each : Dict Validator → Stats → Stats
count_each [] t = t
count_each ((a, v) ∷ d) t = count_each d (add_up v t)

abbrev pub no_stats : ℕ → Stats
no_stats n = record {
  active_count = 0;
  inactive_count = 0;
  jailed_count = 0;
  tombstoned_count = 0;
  total_validators = n;
  stake_sum = pos 0;
  reputation_sum = pos 0;
  rewards_claimed = 0;
}

-- `_updateStats`
unfoldable pub refresh : Manager → Manager
refresh m =
    let t = count_each m.validators (no_stats (length m.validators)) in
    record m { stats = t; total_stake = t.stake_sum }

-- `_updateValidatorMetrics`
unfoldable pub update_validator_metrics : Manager → Manager
unfolding refresh
update_validator_metrics m = refresh m

-- The two calls after a change of the map.
abbrev pub put : Dict Validator → Manager → Manager
put d m = update_validator_metrics (refresh (record m { validators = d }))

unfoldable pub new_manager : ℕ → Text → ℤ → Manager
new_manager distribution_end_time developer_node_address min_stake = record {
  validators = [];
  total_stake = pos 0;
  distribution_end_time = distribution_end_time;
  developer_node_address = developer_node_address;
  min_stake = min_stake;
  stats = no_stats 0;
  selection_history = [];
}

unfoldable pub handle_new_block : Text → Manager → Manager
handle_new_block producer m = if is_empty producer then m else elim (lookup producer m.validators) [
  | none ↦ m
  | some v ↦
      update_validator_metrics
        (record m { validators = insert producer (update_stats true v) m.validators })
]

unfoldable pub is_distribution_period_active : ℕ → Manager → Bool
is_distribution_period_active now m = ltb now m.distribution_end_time

unfoldable pub get_distribution_time_remaining : ℕ → Manager → ℕ
get_distribution_time_remaining now m = m.distribution_end_time - now

unfoldable pub register_validator : ℕ → Text → Text → ℤ → Text → Manager → Manager × Answer
register_validator now address public_key stake moniker m =
    if contains address m.validators
    then (m, already_exists)
    else if ltb_ℤ stake m.min_stake
    then (m, stake_too_low)
    else let v = new now address public_key stake moniker in
      let w = record v {
        is_first_validator = text_eq address m.developer_node_address;
        joined_during_distribution = ltb now m.distribution_end_time;
      } in
      (put (insert address w m.validators) m, yes)

unfoldable pub remove_validator : Text → Manager → Manager × Answer
remove_validator address m =
    if contains address m.validators then (put (erase address m.validators) m, yes) else (m, no)

unfoldable pub get_validator : Text → Manager → Option Validator
get_validator address m = lookup address m.validators

abbrev pub values_of : (Validator → Bool) → Dict Validator → List Validator
values_of f [] = []
values_of f ((a, v) ∷ d) = let rest = values_of f d in if f v then v ∷ rest else rest

unfoldable pub get_all_validators : Manager → List Validator
get_all_validators m = values_of (λ (v : Validator). true) m.validators

unfoldable pub get_active_validators : Manager → List Validator
get_active_validators m =
    values_of (λ (v : Validator). state_eq v.state ValidatorState.active) m.validators

unfoldable pub get_eligible_validators : Manager → List Validator
get_eligible_validators m = values_of (is_eligible m.min_stake) m.validators

unfoldable pub update_stake : Text → ℤ → Manager → Manager × Answer
update_stake address new_stake m = elim (lookup address m.validators) [
  | none ↦ (m, no)
  | some v ↦
      if ltb_ℤ new_stake m.min_stake
      then (m, stake_too_low)
      else (put (insert address (record v { stake = new_stake }) m.validators) m, yes)
]

-- A method whose result says whether it did anything: the statistics are renewed only then.
abbrev pub attempt : Text → (Validator → Validator × Bool) → Manager → Manager × Answer
attempt address f m = elim (lookup address m.validators) [
  | none ↦ (m, no)
  | some v ↦ if (f v).1 then (put (insert address (f v).0 m.validators) m, yes) else (m, no)
]

-- A method that always succeeds.
abbrev pub apply : Text → (Validator → Validator) → Manager → Manager × Answer
apply address f m = elim (lookup address m.validators) [
  | none ↦ (m, no)
  | some v ↦ (put (insert address (f v) m.validators) m, yes)
]

unfoldable pub activate_validator : ℕ → Text → Manager → Manager × Answer
activate_validator now address m = attempt address (activate now) m

unfoldable pub deactivate_validator : Text → Manager → Manager × Answer
deactivate_validator address m = apply address deactivate m

unfoldable pub jail_validator : ℕ → Text → ℕ → Manager → Manager × Answer
jail_validator now address duration m = apply address (jail now duration) m

unfoldable pub try_unjail_validator : ℕ → Text → Manager → Manager × Answer
try_unjail_validator now address m = attempt address (try_unjail now) m

unfoldable pub tombstone_validator : Text → Manager → Manager × Answer
tombstone_validator address m = apply address tombstone m

-- With `MAX_MISSED_BLOCKS` and `DEFAULT_JAIL_DURATION`.
abbrev pub jail_missing : ℕ → Validator → Validator
jail_missing now v =
    if state_eq v.state ValidatorState.active then (check_and_jail_if_needed now 50 3600 v).0 else v

abbrev pub each_value : (Validator → Validator) → Dict Validator → Dict Validator
each_value f [] = []
each_value f ((a, v) ∷ d) = (a, f v) ∷ each_value f d

unfoldable pub check_and_jail_missing_validators : ℕ → Manager → Manager
check_and_jail_missing_validators now m = put (each_value (jail_missing now) m.validators) m

-- One more selection, of which the last thousand are kept.
unfoldable pub remember_selection : Text → List Text → List Text
remember_selection a h =
    let longer = h ++ (a ∷ []) in if ltb 1000 (length longer) then drop 1 longer else longer

-- The random value stands for the first digits of the hash of the seed.
unfoldable pub select_validator : (r : Reals) → r.Real → Manager → Manager × Option Validator
select_validator r random m = elim (choose r random m.total_stake (get_eligible_validators m)) [
  | none ↦ (m, none)
  | some v ↦ (
    update_validator_metrics
        (record m { selection_history = remember_selection v.address m.selection_history }),
    some v,
  )
]

unfoldable pub process_distribution_reward : ℕ → ℕ → Text → Manager → Manager × Answer
process_distribution_reward developer_reward early_validator_reward address m =
    elim (lookup address m.validators) [
      | none ↦ (m, not_found)
      | some v ↦
          if v.distribution_reward_claimed
          then (m, already_claimed)
          else if not v.joined_during_distribution
          then (m, joined_too_late)
          else (
            refresh (record m {
              validators =
                  insert address (record v { distribution_reward_claimed = true }) m.validators;
            }),
            paid (if v.is_first_validator then developer_reward else early_validator_reward),
          )
    ]

abbrev pub load_list : ℕ → List Validator → Dict Validator → Dict Validator
load_list now [] d = d
load_list now (v ∷ vs) d = let w = from_json now v in load_list now vs (insert w.address w d)

unfoldable pub load_from_json : ℕ → List Validator → Manager → Manager
load_from_json now data_list m = put (load_list now data_list []) m

unfoldable pub get_stats : Manager → Stats
get_stats m = m.stats
