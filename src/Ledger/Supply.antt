-- ===== src/Ledger/Supply.antt =====
-- The money of src/blockchain/state_machine.js: what an accepted block adds to the balances and to
-- the supply, and the bound on the supply.
use bt2c.Base.{ℕ, ◌≡◌, refl, sym, ap, ◌∙◌, Option, none, some, List, [], ◌∷◌, arith, inl, inr}
use bt2c.Base.Int.{ℤ, pos, ◌+ℤ◌, ◌≤ℤ◌, int_laws}
use bt2c.Base.Text.{Text}
use bt2c.Base.Dict.{Dict}
use bt2c.Ledger.Types.{Account, Transaction, Block, State, Message, accepted}
use bt2c.Ledger.Accounts.{ensure}
use bt2c.Ledger.Sums.{
  total, balance_of, nonce_of, at, balance_of-ensure, nonce_of-ensure, total-ensure,
  balance_of-add_balance, nonce_of-add_balance, total_balance-add_balance, IsPresent-ensure,
}
use bt2c.Ledger.Steps.{
  Outcome-cases, apply_transactions_stop, apply_transactions_go, pre_validated, rewarded,
}
use bt2c.Ledger.Move.{burned}
use bt2c.Ledger.Transfer.{accepted-Transfers}
use bt2c.Ledger.{
  sender_of, apply_transaction, apply_transactions, process_block_reward, calculate_block_reward,
  pre_validate,
}

-- The sum of all balances.
abbrev pub funds : State → ℤ
funds s = total (λ c. c.balance) s.accounts

-- The fees of a block's transactions that nobody is paid.
abbrev pub burned_by : Transaction → ℤ
burned_by t = elim t.fee [ none ↦ pos 0 | some fee ↦ burned t fee ]

abbrev pub burned_all : List Transaction → ℤ
burned_all [] = pos 0
burned_all (t ∷ ts) = burned_by t +ℤ burned_all ts

pub balance_of-pre_validate :
    (now : ℕ) (j : Text) (ts : List Transaction) (d : Dict Account)
    → balance_of j (pre_validate now ts d).0 ≡ balance_of j d
unfolding pre_validate
balance_of-pre_validate now j [] d = refl
balance_of-pre_validate now j (t ∷ ts) d = ground (
  arith,
  balance_of-pre_validate now j ts (ensure now (sender_of t) d),
  balance_of-ensure now j (sender_of t) d,
)

pub nonce_of-pre_validate :
    (now : ℕ) (j : Text) (ts : List Transaction) (d : Dict Account)
    → nonce_of j (pre_validate now ts d).0 ≡ nonce_of j d
unfolding pre_validate
nonce_of-pre_validate now j [] d = refl
nonce_of-pre_validate now j (t ∷ ts) d = ground (
  arith,
  nonce_of-pre_validate now j ts (ensure now (sender_of t) d),
  nonce_of-ensure now j (sender_of t) d,
)

total-pre_validate :
    (now : ℕ) (ts : List Transaction) (d : Dict Account)
    → total (λ c. c.balance) (pre_validate now ts d).0 ≡ total (λ c. c.balance) d
unfolding pre_validate
total-pre_validate now [] d = refl
total-pre_validate now (t ∷ ts) d = ground (
  arith,
  total-pre_validate now ts (ensure now (sender_of t) d),
  total-ensure (λ c. c.balance) now (sender_of t) d refl,
)

-- The reward goes to the validator of the block and to the supply.
pub funds-rewarded :
    (now : ℕ) (b : Block) (ts : List Transaction) (s : State)
    → funds (rewarded now b ts s) ≡ funds s +ℤ calculate_block_reward s
unfolding rewarded pre_validated process_block_reward
funds-rewarded now b ts s = rw (
  total_balance-add_balance b.validator_address (calculate_block_reward s) _
      (IsPresent-ensure now b.validator_address (pre_validate now ts s.accounts).0),
  total-ensure (λ c. c.balance) now b.validator_address (pre_validate now ts s.accounts).0 refl,
  total-pre_validate now ts s.accounts,
)

pub supply-rewarded :
    (now : ℕ) (b : Block) (ts : List Transaction) (s : State)
    → (rewarded now b ts s).total_supply ≡ s.total_supply +ℤ calculate_block_reward s
unfolding rewarded pre_validated process_block_reward
supply-rewarded now b ts s = refl

pub balance_of-rewarded :
    (now : ℕ) (j : Text) (b : Block) (ts : List Transaction) (s : State)
    → balance_of j (rewarded now b ts s).accounts
      ≡ balance_of j s.accounts +ℤ at b.validator_address j (calculate_block_reward s)
unfolding rewarded pre_validated process_block_reward
balance_of-rewarded now j b ts s = rw (
  balance_of-add_balance j b.validator_address (calculate_block_reward s) _
      (IsPresent-ensure now b.validator_address (pre_validate now ts s.accounts).0),
  balance_of-ensure now j b.validator_address (pre_validate now ts s.accounts).0,
  balance_of-pre_validate now j ts s.accounts,
)

pub nonce_of-rewarded :
    (now : ℕ) (j : Text) (b : Block) (ts : List Transaction) (s : State)
    → nonce_of j (rewarded now b ts s).accounts ≡ nonce_of j s.accounts
unfolding rewarded pre_validated process_block_reward
nonce_of-rewarded now j b ts s = rw (
  nonce_of-add_balance j b.validator_address (calculate_block_reward s) _
      (IsPresent-ensure now b.validator_address (pre_validate now ts s.accounts).0),
  nonce_of-ensure now j b.validator_address (pre_validate now ts s.accounts).0,
  nonce_of-pre_validate now j ts s.accounts,
)

burned_by_fee : (t : Transaction) (fee : ℤ) → t.fee ≡ some fee → burned_by t ≡ burned t fee
burned_by_fee t fee e = rw e

funds-apply_transaction :
    (now : ℕ) (t : Transaction) (s : State) (h : Text)
    → (apply_transaction now (some t) s).1 ≡ accepted h
    → funds (apply_transaction now (some t) s).0 +ℤ burned_by t ≡ funds s
funds-apply_transaction now t s h e =
    let (amount, fee, _, ef, _, _, _, _, _, _, sum) = accepted-Transfers now t s h e in
    rw (burned_by_fee t fee ef) sum

-- The transactions of a block that all succeed lower the funds by the burned fees.
pub funds-apply_transactions :
    (now : ℕ) (ts : List Transaction) (s : State)
    → (apply_transactions now ts s).1 ≡ none
    → funds (apply_transactions now ts s).0 +ℤ burned_all ts ≡ funds s
funds-apply_transactions now [] s h = unfold apply_transactions in omega int_laws
funds-apply_transactions now (t ∷ ts) s h =
    elim (Outcome-cases (apply_transaction now (some t) s).1) [
      | inl (m, e) ↦ cc (apply_transactions_stop now t ts s m e)
      | inr (g, e) ↦
          let s1 = (apply_transaction now (some t) s).0 in
          let ih = funds-apply_transactions now ts s1 (
            ap (λ (r : State × Option Message). r.1) (sym (apply_transactions_go now t ts s g e))
            ∙ h) in
          rw (apply_transactions_go now t ts s g e)
            (regroup _ _ _ _ _ ih (funds-apply_transaction now t s g e))
    ]
  where
    regroup : (a p q c f : ℤ) → a +ℤ q ≡ c → c +ℤ p ≡ f → a +ℤ (p +ℤ q) ≡ f
    regroup a p q c f h k = rw (← k, ← h) (omega int_laws)

-- While the supply is within the bound the reward is not negative, and it keeps within the bound.
pub reward_bounds :
    (s : State)
    → s.total_supply ≤ℤ pos s.options.max_supply
    → (pos 0 ≤ℤ calculate_block_reward s)
      × (s.total_supply +ℤ calculate_block_reward s ≤ℤ pos s.options.max_supply)
unfolding calculate_block_reward
reward_bounds s h = grind int_laws
