-- ===== src/Staking.antt =====
-- Stakes, validators and distribution rewards of `class StateMachine`
-- (src/blockchain/state_machine.js). `Date.now()` is the argument `now`, read once for a call.
use bt2c.Base.{
  ℕ, ◌+◌, Bool, true, false, ◌&&◌, not, Option, none, some, List, [], ◌∷◌, ltb, if◌then◌else◌,
}
use bt2c.Base.Int.{ℤ, pos, ◌+ℤ◌, ◌-ℤ◌, ltb_ℤ, leb_ℤ}
use bt2c.Base.Text.{Text}
use bt2c.Base.Dict.{Dict, lookup, contains, insert}
use bt2c.Validator.{Validator, ValidatorState, state_eq, jail, tombstone}
use bt2c.Ledger.Types.{Account, Entry, State, Answer, returned, type_error}
use bt2c.Ledger.Accounts.{ensure, account, modify}
pub mod Stakes
pub mod Registration

abbrev pub touch_balance : ℕ → ℤ → Account → Account
touch_balance now x a = record a { balance = a.balance +ℤ x; updated_at = now }

-- `Math.abs(amount) > funds` for a negative amount
abbrev pub exceeds : ℤ → ℤ → Bool
exceeds amount funds = ltb_ℤ amount (pos 0) && ltb_ℤ funds (pos 0 -ℤ amount)

unfoldable pub update_account_balance : ℕ → Text → ℤ → State → State × Bool
unfolding ensure account modify
update_account_balance now address amount s =
    let d = ensure now address s.accounts in
    if exceeds amount (account address d).balance
    then (record s { accounts = d }, false)
    else (record s { accounts = modify address (touch_balance now amount) d }, true)

-- The account moves `amount` from its balance to its stake, or back if the amount is negative.
abbrev pub restake : ℕ → ℤ → Account → Account
restake now amount a = record a {
  stake = a.stake +ℤ amount;
  balance =
      if ltb_ℤ (pos 0) amount
      then a.balance -ℤ amount
      else if ltb_ℤ amount (pos 0)
      then a.balance +ℤ (pos 0 -ℤ amount)
      else a.balance;
  updated_at = now;
}

-- The state that a validator gets with its new stake.
abbrev pub staked_state : ℕ → ℤ → ValidatorState → ValidatorState
staked_state minimum_stake stake state =
    if leb_ℤ (pos minimum_stake) stake
    then (if state_eq state ValidatorState.inactive then ValidatorState.active else state)
    else (if state_eq state ValidatorState.active then ValidatorState.inactive else state)

-- The writes to the validator's fields are plain assignments, so they do not need its methods.
unfoldable pub set_validator_stake : ℕ → Text → ℤ → Dict Entry → Dict Entry
set_validator_stake minimum_stake address stake d = elim (lookup address d) [
  | none ↦ d
  | some e ↦
      let v = e.validator in
      insert address
        (record e {
          validator = record v { stake = stake; state = staked_state minimum_stake stake v.state };
        })
        d
]

unfoldable pub update_account_stake : ℕ → Text → ℤ → State → State × Bool
unfolding ensure account modify set_validator_stake
update_account_stake now address amount s =
    let d = ensure now address s.accounts in
    let a = account address d in
    if exceeds amount a.stake
    then (record s { accounts = d }, false)
    else if ltb_ℤ (pos 0) amount && ltb_ℤ a.balance amount
    then (record s { accounts = d }, false)
    else (
      record s {
        accounts = modify address (restake now amount) d;
        validators =
            set_validator_stake s.options.minimum_stake address (a.stake +ℤ amount) s.validators;
      },
      true,
    )

unfoldable pub is_in_distribution_period : ℕ → State → Bool
is_in_distribution_period now s =
    ltb now (s.options.distribution_start_time + s.options.distribution_period)

unfoldable pub award_developer_node_reward : ℕ → Text → State → State
award_developer_node_reward now address s =
    let reward : ℤ = pos s.options.developer_node_reward in
    let s1 = (update_account_balance now address reward s).0 in
    record s1 { total_supply = s1.total_supply +ℤ reward; developer_node_set = true }

unfoldable pub award_early_validator_reward : ℕ → Text → State → State
award_early_validator_reward now address s = elim (lookup address s.validators) [
  | none ↦ s
  | some e ↦
      if e.validator.distribution_reward_claimed
      then s
      else let reward : ℤ = pos s.options.early_validator_reward in
        let v = e.validator in
        let claimed = record v {
          distribution_reward_claimed = true;
          joined_during_distribution = true;
        } in
        let s1 = record s {
          validators = insert address (record e { validator = claimed }) s.validators;
        } in
        let s2 = (update_account_balance now address reward s1).0 in
        record s2 { total_supply = s2.total_supply +ℤ reward }
]

-- The registered object is a validator with the methods of its class.
unfoldable pub register_validator : ℕ → Validator → State → State × Bool
register_validator now validator s =
    if contains validator.address s.validators
    then (s, false)
    else let s1 = record s { accounts = ensure now validator.address s.accounts } in
      let a = account validator.address s1.accounts in
      if ltb_ℤ a.stake (pos s.options.minimum_stake)
      then (s1, false)
      else let staked = record validator { stake = a.stake } in
        let first = not s1.developer_node_set in
        let named = if first then record staked { is_first_validator = true } else staked in
        let s2 =
          if first
          then (if is_in_distribution_period now s1
              then award_developer_node_reward now validator.address
                  (record s1 { developer_node_set = true })
              else record s1 { developer_node_set = true })
          else (if is_in_distribution_period now s1
              then award_early_validator_reward now validator.address s1
              else s1) in
        let e : Entry = record { validator = named; has_methods = true } in
        (record s2 { validators = insert validator.address e s2.validators }, true)

-- A call of a method on a plain copy throws a TypeError, before anything is written.
abbrev pub with_methods : Text → (Validator → Validator) → State → State × Answer
with_methods address f s = elim (lookup address s.validators) [
  | none ↦ (s, returned false)
  | some e ↦
      if e.has_methods
      then (
        record s {
          validators = insert address (record e { validator = f e.validator }) s.validators;
        },
        returned true,
      )
      else (s, type_error)
]

unfoldable pub jail_validator : ℕ → Text → ℕ → State → State × Answer
unfolding jail
jail_validator now address duration s = with_methods address (jail now duration) s

unfoldable pub tombstone_validator : Text → State → State × Answer
unfolding tombstone
tombstone_validator address s = with_methods address tombstone s

-- The class of validators has neither a method `canUnjail` nor a method `unjail`.
unfoldable pub unjail_validator : Text → State → State × Answer
unjail_validator address s = elim (lookup address s.validators) [
  | none ↦ (s, returned false)
  | some e ↦ (s, type_error)
]
