-- ===== src/Tests/OnLedger.antt =====
-- The theorems on the ledger (src/blockchain/state_machine.js) at concrete blocks.
use bt2c.Base.{◌+◌, ◌≡◌, ◌≢◌, ◌⊎◌, refl, none, some, List, [], ◌∷◌, arith}
use bt2c.Base.Int.{pos, ◌+ℤ◌, ◌-ℤ◌, ◌≤ℤ◌, int_laws}
use bt2c.Base.Text.{Text, text_eq}
use bt2c.Ledger.Types.{Transaction, State, transaction_failed, invalid_nonce, rejected, accepted}
use bt2c.Ledger.Accounts.{ensure, account, modify}
use bt2c.Ledger.{
  move, transfer, apply_transaction, calculate_block_reward, process_block_reward, pre_validate,
  apply_transactions, try_block, apply_valid_block, apply_block,
}
use bt2c.Ledger.Transfer.{Transfers, apply_transaction-Transfers}
use bt2c.Ledger.Rollback.{plain, apply_block_atomic}
use bt2c.Ledger.Supply.{funds, burned_all, reward_bounds}
use bt2c.Ledger.Blocks.{apply_block_accepted}
use bt2c.Ledger.Nonces.{DistinctSenders, run_chain, block_senders_distinct, no_replay}
use bt2c.Ledger.Chain.{IsSound, run_chain-IsSound}
use bt2c.Tests.{start, pay, first_block, double_block, clash_block}

apply_transaction-Transfers_example : Transfers pay start (apply_transaction 9 (some pay) start)
apply_transaction-Transfers_example = apply_transaction-Transfers 9 pay start

accepts_pay : (apply_transaction 9 (some pay) start).1 ≡ accepted pay.hash
unfolding apply_transaction transfer move ensure account modify text_eq ◌+ℤ◌ ◌-ℤ◌
accepts_pay = refl

accepts_first_block : (apply_block 9 (some first_block) start).1 ≡ accepted first_block.hash
unfolding apply_block apply_valid_block try_block pre_validate process_block_reward
    calculate_block_reward apply_transactions apply_transaction transfer move ensure account modify
    text_eq ◌+ℤ◌ ◌-ℤ◌
accepts_first_block = refl

abbrev pub after_clash : State
after_clash = (apply_block 9 (some clash_block) start).0

pub rejects_clash_block :
    (apply_block 9 (some clash_block) start).1
    ≡ rejected (transaction_failed (117 ∷ []) invalid_nonce)
unfolding apply_block apply_valid_block try_block pre_validate process_block_reward
    calculate_block_reward apply_transactions apply_transaction transfer move ensure account modify
    text_eq ◌+ℤ◌ ◌-ℤ◌
rejects_clash_block = refl

apply_block_atomic_example : plain after_clash ≡ plain start
apply_block_atomic_example =
    apply_block_atomic 9 (some clash_block) start (transaction_failed (117 ∷ []) invalid_nonce)
      rejects_clash_block

reward_bounds_example :
    (pos 0 ≤ℤ calculate_block_reward start)
    × (start.total_supply +ℤ calculate_block_reward start ≤ℤ pos start.options.max_supply)
reward_bounds_example = reward_bounds start (omega arith)

abbrev grown : State
grown = (apply_block 9 (some first_block) start).0

apply_block_accepted_example :
    (ts : List Transaction) × (first_block.transactions ≡ some ts)
    × (grown.current_height ≡ 0 + 1)
    × (grown.last_block_hash ≡ some first_block.hash)
    × ((start.last_block_hash ≡ none) ⊎ (start.last_block_hash ≡ some first_block.previous_hash))
    × (grown.total_supply ≡ pos 100 +ℤ calculate_block_reward start)
    × (funds grown +ℤ burned_all ts ≡ funds start +ℤ calculate_block_reward start)
apply_block_accepted_example =
    apply_block_accepted 9 first_block start first_block.hash accepts_first_block

block_senders_distinct_example : DistinctSenders (pay ∷ [])
block_senders_distinct_example =
    block_senders_distinct 9 first_block (pay ∷ []) start first_block.hash refl accepts_first_block

no_replay_example :
    (apply_transaction 20
      (some pay)
      (run_chain ((9, some first_block) ∷ []) (apply_transaction 9 (some pay) start).0)).1
    ≢ accepted pay.hash
no_replay_example =
    no_replay 9 20 pay ((9, some first_block) ∷ []) start pay.hash pay.hash accepts_pay

start-NoneOverdrawn : (j : Text) → pos 0 ≤ℤ (account j start.accounts).balance
unfolding account text_eq
start-NoneOverdrawn j = ground arith

start-IsSound : IsSound start
start-IsSound = record {
  none_overdrawn = start-NoneOverdrawn;
  capped = omega arith;
  covered = omega int_laws;
}

run_chain-IsSound_example :
    IsSound (run_chain ((9, some first_block) ∷ (10, some double_block) ∷ []) start)
run_chain-IsSound_example =
    run_chain-IsSound ((9, some first_block) ∷ (10, some double_block) ∷ []) start start-IsSound
