-- ===== src/Registry.antt =====
-- `class StateMachine` of src/consensus/state_machine.js, without a database: accounts, validators
-- and the distribution period as the consensus sees them. `Date.now()` is the argument `now`. A missing
-- text and the empty one, which the code does not tell apart, are both the empty list. Amounts count
-- base units.
pub mod Backing
pub mod Steps
pub mod Runs
pub mod Minting
use bt2c.Base.{
  ℕ, ◌+◌, ◌*◌, Bool, true, false, ◌||◌, ◌&&◌, not, Option, none, some, List, [], ◌∷◌, ltb, leb,
  if◌then◌else◌,
}
use bt2c.Base.Int.{ℤ, pos, ◌+ℤ◌, ◌-ℤ◌, ltb_ℤ, leb_ℤ}
use bt2c.Base.Text.{Text, text_eq, is_empty}
use bt2c.Base.Dict.{Dict, lookup, insert}
use bt2c.Validator.{ValidatorState, state_eq}
use bt2c.Distribution.{Period, is_active, process_reward}

pub record Funds : Type 0 where
  pub balance : ℤ
  pub nonce : ℕ

-- A validator of the map, whose status is one of `ValidatorStatus`.
pub record Staker : Type 0 where
  pub public_key : Text
  pub stake : ℤ
  pub status : ValidatorState
  pub jailed_until : Option ℕ
  pub missed_blocks : ℕ
  pub last_active : ℕ

-- `period` is `options.distributionPeriod`, whose `stateMachine` is this object. A developer address
-- that is null is the empty text.
pub record Registry : Type 0 where
  pub min_stake : ℤ
  pub jail_duration : ℕ
  pub funds : Dict Funds
  pub stakers : Dict Staker
  pub developer : Text
  pub period : Option Period

pub data Fault : Type 0 where
  missing_parameters already_registered not_registered insufficient_balance : Fault
  insufficient_stake stake_too_low remaining_too_low : Fault
  amount_not_positive nonce_too_low not_jailed still_jailed : Fault

pub data Reply : Type 0 where
  success : Reply
  failure : Fault → Reply

-- Reading an account stores a new one where there is none.
abbrev pub with_account : Text → Dict Funds → Option Funds → Dict Funds × Funds
with_account a d (some f) = (d, f)
with_account a d none = let f : Funds = record { balance = pos 0; nonce = 0 } in (insert a f d, f)

unfoldable pub get_account : Text → Dict Funds → Dict Funds × Funds
get_account a d = with_account a d (lookup a d)

unfoldable pub get_validator : Text → Registry → Option Staker
get_validator a r = lookup a r.stakers

unfoldable pub get_validators : Registry → List (Text × Staker)
get_validators r = r.stakers

abbrev pub active_only : List (Text × Staker) → List (Text × Staker)
active_only [] = []
active_only ((a, v) ∷ d) =
    let rest = active_only d in
    if state_eq v.status ValidatorState.active then (a, v) ∷ rest else rest

unfoldable pub get_active_validators : Registry → List (Text × Staker)
unfolding get_validators
get_active_validators r = active_only (get_validators r)

unfoldable pub update_balance : Text → ℤ → Registry → Registry × Reply
update_balance address amount r =
    let (d, account) = get_account address r.funds in
    let s = record r { funds = d } in
    if ltb_ℤ amount (pos 0) && ltb_ℤ (account.balance +ℤ amount) (pos 0)
    then (s, failure insufficient_balance)
    else (
      record s {
        funds = insert address (record account { balance = account.balance +ℤ amount }) d;
      },
      success,
    )

unfoldable pub add_balance : Text → ℤ → Registry → Registry × Reply
add_balance address amount r =
    if leb_ℤ amount (pos 0)
    then (r, failure amount_not_positive)
    else update_balance address amount r

unfoldable pub update_nonce : Text → ℕ → Registry → Registry × Reply
update_nonce address nonce r =
    let (d, account) = get_account address r.funds in
    let s = record r { funds = d } in
    if leb nonce account.nonce
    then (s, failure nonce_too_low)
    else (record s { funds = insert address (record account { nonce = nonce }) d }, success)

abbrev pub is_zero : ℤ → Bool
is_zero x = leb_ℤ x (pos 0) && leb_ℤ (pos 0) x

-- The period pays through `addBalance` of this object.
abbrev pub pay_through : Text → ℕ → Registry → Registry
pay_through address amount s = (add_balance address (pos amount) s).0

unfoldable pub pay_within : ℕ → Text → Registry → Period → Registry
pay_within now address r p =
    if is_active now p
    then (let (q, s) =
          (process_reward (λ a x s. (pay_through a x s, false)) now address
            (text_eq address r.developer) (p, r)).0 in
        record s { period = some q })
    else r

unfoldable pub pay_newcomer : ℕ → Text → Registry → Registry
pay_newcomer now address r = elim r.period [ none ↦ r | some p ↦ pay_within now address r p ]

-- From the look at the account on.
unfoldable pub register_new : ℕ → Text → Text → ℤ → Registry → Registry × Reply
register_new now address public_key stake r =
    let (d, account) = get_account address r.funds in
    let s = record r { funds = d } in
    if ltb_ℤ account.balance stake
    then (s, failure insufficient_balance)
    else if ltb_ℤ stake r.min_stake
    then (s, failure stake_too_low)
    else let v : Staker = record {
      public_key = public_key;
      stake = stake;
      status = ValidatorState.active;
      jailed_until = none;
      missed_blocks = 0;
      last_active = now;
    } in
      let joined = record s { stakers = insert address v s.stakers } in
      (pay_newcomer now address (update_balance address (pos 0 -ℤ stake) joined).0, success)

unfoldable pub register_validator : ℕ → Text → Text → ℤ → Text → Registry → Registry × Reply
register_validator now address public_key stake signature r =
    if is_empty address || is_empty public_key || is_zero stake || is_empty signature
    then (r, failure missing_parameters)
    else elim (lookup address r.stakers) [
      | some v ↦ (r, failure already_registered)
      | none ↦ register_new now address public_key stake r
    ]

-- For a validator that is registered.
unfoldable pub stake_more : Text → ℤ → Registry → Staker → Registry × Reply
stake_more address amount r v =
    let (d, account) = get_account address r.funds in
    let s = record r { funds = d } in
    if ltb_ℤ account.balance amount
    then (s, failure insufficient_balance)
    else let staked = record v { stake = v.stake +ℤ amount } in
      let s1 = record s { stakers = insert address staked s.stakers } in
      ((update_balance address (pos 0 -ℤ amount) s1).0, success)

unfoldable pub stake_tokens : Text → ℤ → Text → Registry → Registry × Reply
stake_tokens address amount signature r =
    if is_empty address || is_zero amount || is_empty signature
    then (r, failure missing_parameters)
    else elim (lookup address r.stakers) [
      | none ↦ (r, failure not_registered)
      | some v ↦ stake_more address amount r v
    ]

unfoldable pub stake_less : Text → ℤ → Registry → Staker → Registry × Reply
stake_less address amount r v =
    if ltb_ℤ v.stake amount
    then (r, failure insufficient_stake)
    else if ltb_ℤ (v.stake -ℤ amount) r.min_stake
    then (r, failure remaining_too_low)
    else let unstaked = record v { stake = v.stake -ℤ amount } in
      let s1 = record r { stakers = insert address unstaked r.stakers } in
      ((update_balance address amount s1).0, success)

unfoldable pub unstake_tokens : Text → ℤ → Text → Registry → Registry × Reply
unstake_tokens address amount signature r =
    if is_empty address || is_zero amount || is_empty signature
    then (r, failure missing_parameters)
    else elim (lookup address r.stakers) [
      | none ↦ (r, failure not_registered)
      | some v ↦ stake_less address amount r v
    ]

unfoldable pub jail_validator : ℕ → Text → Registry → Registry × Reply
jail_validator now address r = elim (lookup address r.stakers) [
  | none ↦ (r, failure not_registered)
  | some v ↦
      let jailed = record v {
        status = ValidatorState.jailed;
        jailed_until = some (now + r.jail_duration * 1000);
      } in
      (record r { stakers = insert address jailed r.stakers }, success)
]

-- `validator.jailedUntil && validator.jailedUntil > Date.now()`
abbrev pub still_serving : ℕ → Option ℕ → Bool
still_serving now none = false
still_serving now (some t) = ltb now t

unfoldable pub unjail_validator : ℕ → Text → Text → Registry → Registry × Reply
unjail_validator now address signature r =
    if is_empty address || is_empty signature
    then (r, failure missing_parameters)
    else elim (lookup address r.stakers) [
      | none ↦ (r, failure not_registered)
      | some v ↦
          if not (state_eq v.status ValidatorState.jailed)
          then (r, failure not_jailed)
          else if still_serving now v.jailed_until
          then (r, failure still_jailed)
          else let freed = record v {
            status = ValidatorState.active;
            jailed_until = none;
            missed_blocks = 0;
          } in
            (record r { stakers = insert address freed r.stakers }, success)
    ]
