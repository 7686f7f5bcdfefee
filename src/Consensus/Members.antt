-- ===== src/Consensus/Members.antt =====
-- The methods on validators of `class RPoSConsensus` (src/consensus/rpos.js). A validator is an object
-- of the map; what the code that passed it in does to it later is the event `altered`. `Date.now()` is the argument `now`.
use bt2c.Base.{
  ℕ, suc, ◌+◌, ◌-◌, ◌*◌, ◌/◌, ◌^◌, Bool, true, false, not, none, some, List, [], ◌∷◌, ltb,
  if◌then◌else◌,
}
use bt2c.Base.Int.{ℤ, pos, negsuc, ◌+ℤ◌, ◌-ℤ◌, ltb_ℤ, min_ℤ}
use bt2c.Base.Text.{Text}
use bt2c.Base.Dict.{Dict, lookup, contains, insert, erase}
use bt2c.Utxo.{member}
use bt2c.Validator.{
  Validator, ValidatorState, state_eq, max_ℤ, jail, tombstone, activate, deactivate,
  check_and_jail_if_needed,
}
use bt2c.Consensus.Types.{Settings, Engine}

-- A method call on the object under an address, if there is one.
abbrev pub change : Text → (Validator → Validator) → Dict Validator → Dict Validator
change a f d = elim (lookup a d) [ none ↦ d | some v ↦ insert a (f v) d ]

unfoldable pub is_in_distribution_period : ℕ → Settings → Bool
is_in_distribution_period now o = ltb now (o.distribution_start_time + o.distribution_period)

unfoldable pub award_developer_node_reward : Engine → Engine
award_developer_node_reward c = record c {
  total_supply = c.total_supply +ℤ pos c.settings.developer_node_reward;
}

unfoldable pub award_early_validator_reward : Text → Engine → Engine
award_early_validator_reward address c = elim (lookup address c.members) [
  | none ↦ c
  | some v ↦
      if v.distribution_reward_claimed
      then c
      else let claimed = record v {
        distribution_reward_claimed = true;
        joined_during_distribution = true;
      } in
        record c {
          members = insert address claimed c.members;
          total_supply = c.total_supply +ℤ pos c.settings.early_validator_reward;
        }
]

-- The rewards that `addValidator` gives before it stores the validator.
unfoldable pub greet : ℕ → Validator → Engine → Engine
greet now v c =
    if not c.developer_node_set
    then (if is_in_distribution_period now c.settings
        then award_developer_node_reward (record c { developer_node_set = true })
        else record c { developer_node_set = true })
    else if is_in_distribution_period now c.settings
    then award_early_validator_reward v.address c
    else c

unfoldable pub add_validator : ℕ → Validator → Engine → Engine × Bool
add_validator now validator c =
    if contains validator.address c.members
    then (c, false)
    else if ltb_ℤ validator.stake c.settings.minimum_stake
    then (c, false)
    else let named =
        if c.developer_node_set
        then validator
        else record validator { is_first_validator = true } in
      let s = greet now validator c in
      (
        record s {
          members = insert validator.address (activate now named).0 s.members;
          total_stake = s.total_stake +ℤ validator.stake;
          active_validators = s.active_validators + 1;
        },
        true,
      )

unfoldable pub remove_validator : Text → Engine → Engine × Bool
remove_validator address c = elim (lookup address c.members) [
  | none ↦ (c, false)
  | some v ↦ (
    record c {
      total_stake = c.total_stake -ℤ v.stake;
      members = erase address c.members;
      active_validators =
          if state_eq v.state ValidatorState.active
          then c.active_validators - 1
          else c.active_validators;
    },
    true,
  )
]

-- The validator with its new stake, and the count of active ones.
unfoldable pub restaked : ℕ → ℤ → ℤ → Validator → Validator
restaked now minimum_stake new_stake v =
    if ltb_ℤ new_stake minimum_stake
    then record (deactivate v) { stake = new_stake }
    else (activate now (record v { stake = new_stake })).0

unfoldable pub recounted : ℤ → ℤ → Validator → ℕ → ℕ
recounted minimum_stake new_stake v n =
    if ltb_ℤ new_stake minimum_stake
    then (if state_eq v.state ValidatorState.active then n - 1 else n)
    else (if state_eq v.state ValidatorState.inactive then n + 1 else n)

unfoldable pub update_validator_stake : ℕ → Text → ℤ → Engine → Engine × Bool
update_validator_stake now address new_stake c = elim (lookup address c.members) [
  | none ↦ (c, false)
  | some v ↦ (
    record c {
      total_stake = (c.total_stake -ℤ v.stake) +ℤ new_stake;
      members = insert address (restaked now c.settings.minimum_stake new_stake v) c.members;
      active_validators = recounted c.settings.minimum_stake new_stake v c.active_validators;
    },
    true,
  )
]

unfoldable pub is_validator_slashable : Text → Text → Engine → Bool
is_validator_slashable address offense c = elim (lookup address c.members) [
  | none ↦ false
  | some v ↦ if member offense c.settings.tombstoning_offenses then true else ltb_ℤ (pos 0) v.stake
]

-- The product with the penalty, rounded towards 0.
unfoldable pub slash_amount : Settings → ℤ → ℤ
slash_amount o (pos n) = pos (n * o.penalty_num / o.penalty_den)
slash_amount o (negsuc n) = pos 0 -ℤ pos (suc n * o.penalty_num / o.penalty_den)

unfoldable pub slash_validator : ℕ → Text → Text → Engine → Engine × Bool
slash_validator now address offense c = elim (lookup address c.members) [
  | none ↦ (c, false)
  | some v ↦
      if member offense c.settings.tombstoning_offenses
      then (record c { members = change address tombstone c.members }, true)
      else let s =
          (update_validator_stake now address (v.stake -ℤ slash_amount c.settings v.stake) c).0 in
        (
          record s { members = change address (jail now (c.settings.jail_duration * 2)) s.members },
          true,
        )
]

-- The method of an active validator that `checkAndJailValidators` calls.
abbrev pub jail_if_missing : ℕ → Settings → Validator → Validator
jail_if_missing now o v =
    if state_eq v.state ValidatorState.active
    then (check_and_jail_if_needed now o.max_missed_blocks o.jail_duration v).0
    else v

abbrev pub each : (Validator → Validator) → Dict Validator → Dict Validator
each f [] = []
each f ((a, v) ∷ d) = (a, f v) ∷ each f d

unfoldable pub check_and_jail_validators : ℕ → Engine → Engine
check_and_jail_validators now c = record c {
  members = each (jail_if_missing now c.settings) c.members;
}

unfoldable pub calculate_block_reward : Engine → ℤ
calculate_block_reward c =
    let halvings : ℕ = c.current_height / c.settings.halving_interval in
    let reward : ℤ = pos (c.settings.block_reward / 2 ^ halvings) in
    let least : ℤ = pos c.settings.min_reward in
    let cap : ℤ = pos c.settings.max_supply in
    if ltb_ℤ cap (c.total_supply +ℤ reward)
    then min_ℤ (cap -ℤ c.total_supply) least
    else max_ℤ reward least

unfoldable pub award_block_reward : Engine → Engine
award_block_reward c = record c { total_supply = c.total_supply +ℤ calculate_block_reward c }

-- The loop of `_loadValidators` over what the manager returns. It stores the manager's own objects.
unfoldable pub load_each : List Validator → Engine → Engine
load_each [] c = c
load_each (v ∷ vs) c = load_each vs (record c {
  members = insert v.address v c.members;
  total_stake = c.total_stake +ℤ v.stake;
  active_validators =
      if state_eq v.state ValidatorState.active
      then c.active_validators + 1
      else c.active_validators;
})
