-- ===== src/Ledger.antt =====
-- `class StateMachine` of src/blockchain/state_machine.js: transfers, block rewards and the
-- application of blocks with rollback. `Date.now()` is the argument `now`, read once for a call. The
-- events that a call emits are not recorded: nothing of the state depends on them.
pub mod Types
pub mod Accounts
pub mod Sums
pub mod Steps
pub mod Move
pub mod Transfer
pub mod Rollback
pub mod Supply
pub mod Blocks
pub mod Nonces
pub mod Chain
use bt2c.Base.{
  ℕ, zero, suc, ◌+◌, ◌*◌, ◌/◌, ◌^◌, Bool, true, false, ◌&&◌, ◌||◌, not, Option, none, some, List,
  [], ◌∷◌, map, ltb, ◌==◌, if◌then◌else◌,
}
use bt2c.Base.Int.{ℤ, pos, ◌+ℤ◌, ◌-ℤ◌, ltb_ℤ, leb_ℤ, min_ℤ}
use bt2c.Base.Text.{Text, text_eq, is_empty}
use bt2c.Base.Dict.{Dict, lookup, contains, insert}
use Types.{
  Options, Account, Transaction, Block, Entry, State, Snapshot, Message, Outcome, accepted,
  rejected, invalid_block_structure, unexpected_height, invalid_previous_hash, future_timestamp,
  invalid_transaction_structure, missing_address, invalid_amount, invalid_fee, insufficient_funds,
  invalid_nonce, transaction_failed,
}
use Accounts.{ensure, account, modify, add_balance, set_nonce}

-- `a || b` on strings
abbrev pub or_else : Text → Text → Text
or_else a b = if is_empty a then b else a

abbrev pub sender_of : Transaction → Text
sender_of t = or_else t.from t.sender

abbrev pub recipient_of : Transaction → Text
recipient_of t = or_else t.to t.recipient

-- Lines 253 to 264: the writes of an accepted transaction, each through the map, so that one account
-- may play several parts.
unfoldable pub move : ℕ → Text → Text → Transaction → ℤ → ℤ → Dict Account → Dict Account
unfolding ensure modify
move now sender recipient t amount fee d =
    let d1 = modify sender (add_balance (pos 0 -ℤ (amount +ℤ fee))) d in
    let d2 = modify recipient (add_balance amount) d1 in
    let d3 = modify sender (set_nonce t.nonce) d2 in
    if ltb_ℤ (pos 0) fee && not (is_empty t.validator_address)
    then modify t.validator_address (add_balance fee) (ensure now t.validator_address d3)
    else d3

-- The rest of `applyTransaction`, once the fields are known to be numbers in range.
unfoldable pub transfer : ℕ → Text → Text → Transaction → ℤ → ℤ → State → State × Outcome
unfolding ensure account move
transfer now sender recipient t amount fee s =
    let d = ensure now recipient (ensure now sender s.accounts) in
    let from_account = account sender d in
    if ltb_ℤ from_account.balance (amount +ℤ fee)
    then (record s { accounts = d }, rejected insufficient_funds)
    else if not (t.nonce == from_account.nonce + 1)
    then (record s { accounts = d }, rejected invalid_nonce)
    else (record s { accounts = move now sender recipient t amount fee d }, accepted t.hash)

unfoldable pub apply_transaction : ℕ → Option Transaction → State → State × Outcome
unfolding transfer
apply_transaction now none s = (s, rejected invalid_transaction_structure)
apply_transaction now (some t) s =
    if is_empty (sender_of t) || is_empty (recipient_of t)
    then (s, rejected missing_address)
    else elim t.amount [
      | none ↦ (s, rejected invalid_amount)
      | some amount ↦ if leb_ℤ amount (pos 0) then (s, rejected invalid_amount) else elim t.fee [
        | none ↦ (s, rejected invalid_fee)
        | some fee ↦
            if ltb_ℤ fee (pos 0)
            then (s, rejected invalid_fee)
            else transfer now (sender_of t) (recipient_of t) t amount fee s
      ]
    ]

unfoldable pub calculate_block_reward : State → ℤ
calculate_block_reward s =
    let halvings : ℕ = s.current_height / s.options.halving_interval in
    let reward : ℤ = pos (s.options.block_reward / 2 ^ halvings) in
    if ltb_ℤ (pos s.options.max_supply) (s.total_supply +ℤ reward)
    then min_ℤ (pos s.options.max_supply -ℤ s.total_supply) (pos s.options.min_reward)
    else reward

unfoldable pub process_block_reward : ℕ → Block → State → State
unfolding calculate_block_reward ensure modify
process_block_reward now b s =
    let reward = calculate_block_reward s in
    record s {
      accounts =
          modify b.validator_address (add_balance reward)
            (ensure now b.validator_address s.accounts);
      total_supply = s.total_supply +ℤ reward;
    }

-- `balance < amount + fee`, which is false where the sum is not a number
abbrev pub is_short : ℤ → Option ℤ → Option ℤ → Bool
is_short balance (some amount) (some fee) = ltb_ℤ balance (amount +ℤ fee)
is_short balance (some amount) none = false
is_short balance none fee = false

-- The first loop of `applyBlock`: the map, in which accounts may have been created, and the error.
unfoldable pub pre_validate : ℕ → List Transaction → Dict Account → Dict Account × Option Message
unfolding ensure account
pre_validate now [] d = (d, none)
pre_validate now (t ∷ ts) d =
    let d1 = ensure now (sender_of t) d in
    let from_account = account (sender_of t) d1 in
    let rest = pre_validate now ts d1 in
    if is_short from_account.balance t.amount t.fee
    then (d1, some (transaction_failed t.hash insufficient_funds))
    else if not (t.nonce == from_account.nonce + 1)
    then (d1, some (transaction_failed t.hash invalid_nonce))
    else rest

-- The second loop of `applyBlock`: it stops at the first transaction that is not accepted.
unfoldable pub apply_transactions : ℕ → List Transaction → State → State × Option Message
unfolding apply_transaction
apply_transactions now [] s = (s, none)
apply_transactions now (t ∷ ts) s =
    let (s1, outcome) = apply_transaction now (some t) s in
    elim outcome [
      | rejected m ↦ (s1, some (transaction_failed t.hash m))
      | accepted h ↦ apply_transactions now ts s1
    ]

-- `{ ...validator }`
abbrev pub copy_entry : Text × Entry → Text × Entry
copy_entry (a, e) = (a, record e { has_methods = false })

-- The copies of accounts are new objects with the same fields.
unfoldable pub create_state_snapshot : State → Snapshot
create_state_snapshot s = record {
  accounts = s.accounts;
  validators = map copy_entry s.validators;
  current_height = s.current_height;
  last_block_hash = s.last_block_hash;
  total_supply = s.total_supply;
  developer_node_set = s.developer_node_set;
}

unfoldable pub restore_state_snapshot : Snapshot → State → State
restore_state_snapshot snapshot s = record s {
  accounts = snapshot.accounts;
  validators = map copy_entry snapshot.validators;
  current_height = snapshot.current_height;
  last_block_hash = snapshot.last_block_hash;
  total_supply = snapshot.total_supply;
  developer_node_set = snapshot.developer_node_set;
}

-- The body of the `try`: the state when it ends or throws, and the error.
unfoldable pub try_block : ℕ → Block → List Transaction → State → State × Option Message
unfolding pre_validate process_block_reward apply_transactions
try_block now b ts s =
    let (d, failure) = pre_validate now ts s.accounts in
    let s1 = record s { accounts = d } in
    elim failure [
      | some m ↦ (s1, some m)
      | none ↦
          let (s2, failure2) = apply_transactions now ts (process_block_reward now b s1) in
          elim failure2 [
            | some m ↦ (s2, some m)
            | none ↦ (record s2 { current_height = b.height; last_block_hash = some b.hash }, none)
          ]
    ]

abbrev pub breaks_chain : Option Text → Text → Bool
breaks_chain none previous = false
breaks_chain (some last) previous = not (text_eq previous last)

-- `applyBlock` behind its test of the structure.
unfoldable pub apply_valid_block : ℕ → Block → List Transaction → State → State × Outcome
unfolding try_block create_state_snapshot restore_state_snapshot
apply_valid_block now b ts s =
    if not (b.height == s.current_height + 1)
    then (s, rejected unexpected_height)
    else if breaks_chain s.last_block_hash b.previous_hash
    then (s, rejected invalid_previous_hash)
    else if ltb (now + 60000) b.timestamp
    then (s, rejected future_timestamp)
    else let snapshot = create_state_snapshot s in
      let (s1, failure) = try_block now b ts s in
      elim failure [
        | some m ↦ (restore_state_snapshot snapshot s1, rejected m)
        | none ↦ (s1, accepted b.hash)
      ]

unfoldable pub apply_block : ℕ → Option Block → State → State × Outcome
unfolding apply_valid_block
apply_block now none s = (s, rejected invalid_block_structure)
apply_block now (some b) s =
    if is_empty b.hash || is_empty b.validator_address
    then (s, rejected invalid_block_structure)
    else elim b.transactions [
      | none ↦ (s, rejected invalid_block_structure)
      | some ts ↦ apply_valid_block now b ts s
    ]
