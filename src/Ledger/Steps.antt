-- ===== src/Ledger/Steps.antt =====
-- The loops and the `try` of `applyBlock` (src/blockchain/state_machine.js) as equations, one for
-- each way on.
use bt2c.Base.{ℕ, ◌≡◌, refl, none, some, List, ◌∷◌, ◌⊎◌, inl, inr, arith}
use bt2c.Base.Text.{Text}
use bt2c.Ledger.Types.{
  Transaction, Block, State, Message, Outcome, accepted, rejected, transaction_failed,
}
use bt2c.Ledger.{
  apply_transaction, apply_transactions, process_block_reward, pre_validate, try_block,
}

-- To split on an outcome and keep the equation.
pub Outcome-cases :
    (o : Outcome) → ((m : Message) × (o ≡ rejected m)) ⊎ ((h : Text) × (o ≡ accepted h))
Outcome-cases (accepted h) = inr (h, refl)
Outcome-cases (rejected m) = inl (m, refl)

pub apply_transactions_stop :
    (now : ℕ) (t : Transaction) (ts : List Transaction) (s : State) (m : Message)
    → (apply_transaction now (some t) s).1 ≡ rejected m
    → apply_transactions now (t ∷ ts) s
      ≡ ((apply_transaction now (some t) s).0, some (transaction_failed t.hash m))
unfolding apply_transactions
apply_transactions_stop now t ts s m e = rw (e, apply_transactions)

pub apply_transactions_go :
    (now : ℕ) (t : Transaction) (ts : List Transaction) (s : State) (h : Text)
    → (apply_transaction now (some t) s).1 ≡ accepted h
    → apply_transactions now (t ∷ ts) s
      ≡ apply_transactions now ts (apply_transaction now (some t) s).0
unfolding apply_transactions
apply_transactions_go now t ts s h e = rw (e, apply_transactions)

-- The state in which the accounts of the senders are present.
unfoldable pub pre_validated : ℕ → List Transaction → State → State
pre_validated now ts s = record s { accounts = (pre_validate now ts s.accounts).0 }

-- The state in which the reward is paid.
unfoldable pub rewarded : ℕ → Block → List Transaction → State → State
unfolding pre_validated
rewarded now b ts s = process_block_reward now b (pre_validated now ts s)

pub try_block_invalid :
    (now : ℕ) (b : Block) (ts : List Transaction) (s : State) (m : Message)
    → (pre_validate now ts s.accounts).1 ≡ some m
    → try_block now b ts s ≡ (pre_validated now ts s, some m)
unfolding try_block pre_validated
try_block_invalid now b ts s m e = rw (e, try_block)

pub try_block_failed :
    (now : ℕ) (b : Block) (ts : List Transaction) (s : State) (m : Message)
    → (pre_validate now ts s.accounts).1 ≡ none
    → (apply_transactions now ts (rewarded now b ts s)).1 ≡ some m
    → try_block now b ts s ≡ ((apply_transactions now ts (rewarded now b ts s)).0, some m)
unfolding try_block rewarded
try_block_failed now b ts s m e f = ground arith

pub try_block_done :
    (now : ℕ) (b : Block) (ts : List Transaction) (s : State)
    → (pre_validate now ts s.accounts).1 ≡ none
    → (apply_transactions now ts (rewarded now b ts s)).1 ≡ none
    → try_block now b ts s ≡ (
      record (apply_transactions now ts (rewarded now b ts s)).0 {
        current_height = b.height;
        last_block_hash = some b.hash;
      },
      none,
    )
unfolding try_block rewarded
try_block_done now b ts s e f = ground arith
