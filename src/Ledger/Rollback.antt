-- ===== src/Ledger/Rollback.antt =====
-- `applyBlock` of src/blockchain/state_machine.js: what a rejected block leaves behind, and which
-- parts of the state an accepted one leaves alone.
use bt2c.Base.{
  ℕ, ◌≡◌, refl, ap, ◌∙◌, Option, none, some, List, [], ◌∷◌, map, arith, Option-cases, inl, inr,
}
use bt2c.Base.Dict.{Dict}
use bt2c.Ledger.Types.{Transaction, Block, Entry, State, Message, rejected}
use bt2c.Ledger.Steps.{
  Outcome-cases, apply_transactions_stop, apply_transactions_go, pre_validated, rewarded,
  try_block_invalid, try_block_failed, try_block_done,
}
use bt2c.Ledger.{
  pre_validate, copy_entry, apply_transaction, apply_transactions, process_block_reward, try_block,
  create_state_snapshot, restore_state_snapshot, apply_valid_block, apply_block,
}

-- The state with every validator replaced by a plain copy of its fields.
unfoldable pub plain : State → State
plain s = record s { validators = map copy_entry s.validators }

-- Everything but the accounts and the supply is as it was.
pub record SameFrame (s s' : State) : Type 0 where
  pub same_options : s'.options ≡ s.options
  pub same_validators : s'.validators ≡ s.validators
  pub same_height : s'.current_height ≡ s.current_height
  pub same_hash : s'.last_block_hash ≡ s.last_block_hash
  pub same_flag : s'.developer_node_set ≡ s.developer_node_set

pub SameFrame-trans : (s t u : State) → SameFrame s t → SameFrame t u → SameFrame s u
SameFrame-trans s t u p q = record {
  same_options = q.same_options ∙ p.same_options;
  same_validators = q.same_validators ∙ p.same_validators;
  same_height = q.same_height ∙ p.same_height;
  same_hash = q.same_hash ∙ p.same_hash;
  same_flag = q.same_flag ∙ p.same_flag;
}

pub apply_transaction-SameFrame :
    (now : ℕ) (t : Transaction) (s : State) → SameFrame s (apply_transaction now (some t) s).0
unfolding apply_transaction
apply_transaction-SameFrame now t s = ground arith

pub apply_transaction-supply :
    (now : ℕ) (t : Transaction) (s : State)
    → (apply_transaction now (some t) s).0.total_supply ≡ s.total_supply
unfolding apply_transaction
apply_transaction-supply now t s = ground arith

pub apply_transactions-SameFrame :
    (now : ℕ) (ts : List Transaction) (s : State) → SameFrame s (apply_transactions now ts s).0
unfolding apply_transactions
apply_transactions-SameFrame now [] s = ground arith
apply_transactions-SameFrame now (t ∷ ts) s =
    elim (Outcome-cases (apply_transaction now (some t) s).1) [
      | inl (m, e) ↦
          rw (apply_transactions_stop now t ts s m e) (apply_transaction-SameFrame now t s)
      | inr (h, e) ↦ rw (apply_transactions_go now t ts s h e) (
          SameFrame-trans _ _ _ (apply_transaction-SameFrame now t s)
            (apply_transactions-SameFrame now ts (apply_transaction now (some t) s).0))
    ]

pub apply_transactions-supply :
    (now : ℕ) (ts : List Transaction) (s : State)
    → (apply_transactions now ts s).0.total_supply ≡ s.total_supply
unfolding apply_transactions
apply_transactions-supply now [] s = refl
apply_transactions-supply now (t ∷ ts) s =
    elim (Outcome-cases (apply_transaction now (some t) s).1) [
      | inl (m, e) ↦ rw (apply_transactions_stop now t ts s m e) (apply_transaction-supply now t s)
      | inr (h, e) ↦ rw (apply_transactions_go now t ts s h e) (
          apply_transactions-supply now ts (apply_transaction now (some t) s).0
          ∙ apply_transaction-supply now t s)
    ]

process_block_reward-SameFrame :
    (now : ℕ) (b : Block) (s : State) → SameFrame s (process_block_reward now b s)
unfolding process_block_reward
process_block_reward-SameFrame now b s = ground arith

pub rewarded-SameFrame :
    (now : ℕ) (b : Block) (ts : List Transaction) (s : State) → SameFrame s (rewarded now b ts s)
unfolding rewarded
rewarded-SameFrame now b ts s =
    SameFrame-trans s (pre_validated now ts s) _ (unfold pre_validated in ground arith)
      (process_block_reward-SameFrame now b (pre_validated now ts s))

pub applied-SameFrame :
    (now : ℕ) (b : Block) (ts : List Transaction) (s : State)
    → SameFrame s (apply_transactions now ts (rewarded now b ts s)).0
applied-SameFrame now b ts s =
    SameFrame-trans s (rewarded now b ts s) _ (rewarded-SameFrame now b ts s)
      (apply_transactions-SameFrame now ts (rewarded now b ts s))

-- The body of the `try` does not write to the options, however it ends.
try_block-options :
    (now : ℕ) (b : Block) (ts : List Transaction) (s : State)
    → (try_block now b ts s).0.options ≡ s.options
try_block-options now b ts s = elim (Option-cases (pre_validate now ts s.accounts).1) [
  | inr (m, e) ↦ rw (try_block_invalid now b ts s m e) (unfold pre_validated in refl)
  | inl e ↦ elim (Option-cases (apply_transactions now ts (rewarded now b ts s)).1) [
    | inr (m, e2) ↦
        rw (try_block_failed now b ts s m e e2) (applied-SameFrame now b ts s).same_options
    | inl e2 ↦ rw (try_block_done now b ts s e e2) (applied-SameFrame now b ts s).same_options
  ]
]

copy_twice : (d : Dict Entry) → map copy_entry (map copy_entry d) ≡ map copy_entry d
copy_twice [] = refl
copy_twice (e ∷ d) = ap (λ (l : Dict Entry). copy_entry e ∷ l) (copy_twice d)

plain_restored :
    (s s1 : State)
    → s1.options ≡ s.options
    → plain (restore_state_snapshot (create_state_snapshot s) s1) ≡ plain s
unfolding plain restore_state_snapshot create_state_snapshot
plain_restored s s1 e = rw (copy_twice (map copy_entry s.validators), copy_twice s.validators, e)

apply_valid_block_atomic :
    (now : ℕ) (b : Block) (ts : List Transaction) (s : State) (m : Message)
    → (apply_valid_block now b ts s).1 ≡ rejected m
    → plain (apply_valid_block now b ts s).0 ≡ plain s
unfolding apply_valid_block
apply_valid_block_atomic now b ts s m h =
    ground (arith, plain_restored s (try_block now b ts s).0 (try_block-options now b ts s))

-- A block that is rejected, at whichever check and after however many of its transactions, changes
-- nothing of the state, except that each validator may have become a plain copy of its fields.
pub apply_block_atomic :
    (now : ℕ) (b : Option Block) (s : State) (m : Message)
    → (apply_block now b s).1 ≡ rejected m
    → plain (apply_block now b s).0 ≡ plain s
unfolding apply_block
apply_block_atomic now none s m h = refl
apply_block_atomic now (some b) s m h = elim (Option-cases b.transactions) [
  | inl e ↦ ground arith
  | inr (ts, e) ↦ ground (arith, apply_valid_block_atomic now b ts s m)
]
