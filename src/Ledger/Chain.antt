-- ===== src/Ledger/Chain.antt =====
-- The invariant of a chain of blocks on src/blockchain/state_machine.js, about overdrawn accounts, the
-- supply's bound and what it covers.
use bt2c.Base.{ℕ, ◌≡◌, sym, ap, ◌∙◌, Option, none, some, List, [], ◌∷◌, arith, Bool-cases, inl, inr}
use bt2c.Base.Int.{ℤ, pos, pos_part, neg_part, ◌+ℤ◌, ◌-ℤ◌, ◌≤ℤ◌, int_laws}
use bt2c.Base.Text.{Text, text_eq, text_eq_sound}
use bt2c.Ledger.Types.{Transaction, Block, State, Message, accepted}
use bt2c.Ledger.Sums.{balance_of, at}
use bt2c.Ledger.Steps.{Outcome-cases, apply_transactions_stop, apply_transactions_go, rewarded}
use bt2c.Ledger.Move.{paid, burned}
use bt2c.Ledger.Transfer.{accepted-Transfers}
use bt2c.Ledger.Rollback.{plain, applied-SameFrame, apply_block_atomic, apply_transactions-supply}
use bt2c.Ledger.Supply.{
  funds, burned_by, burned_all, balance_of-rewarded, reward_bounds, funds-apply_transactions,
  funds-rewarded, supply-rewarded,
}
use bt2c.Ledger.Blocks.{applied, closes, block_accepted}
use bt2c.Ledger.Nonces.{run_chain}
use bt2c.Ledger.{
  sender_of, recipient_of, apply_transaction, apply_transactions, calculate_block_reward,
  apply_block,
}

abbrev pub NoneOverdrawn : State → Type 0
NoneOverdrawn s = (j : Text) → pos 0 ≤ℤ balance_of j s.accounts

pub record IsSound (s : State) : Type 0 where
  pub none_overdrawn : NoneOverdrawn s
  pub capped : s.total_supply ≤ℤ pos s.options.max_supply
  pub covered : funds s ≤ℤ s.total_supply

paid_nonneg : (t : Transaction) (fee : ℤ) → pos 0 ≤ℤ fee → pos 0 ≤ℤ paid t fee
paid_nonneg t fee h = ground arith

burned_nonneg : (t : Transaction) (fee : ℤ) → pos 0 ≤ℤ fee → pos 0 ≤ℤ burned t fee
burned_nonneg t fee h = ground arith

at_nonneg : (a j : Text) (x : ℤ) → pos 0 ≤ℤ x → pos 0 ≤ℤ at a j x
at_nonneg a j x h = ground arith

debit_covered :
    (a j : Text) (x b : ℤ) → pos 0 ≤ℤ b → (j ≡ a → x ≤ℤ b) → pos 0 ≤ℤ b +ℤ at a j (pos 0 -ℤ x)
debit_covered a j x b h k = elim (Bool-cases (text_eq j a)) [
  | inl y ↦ rw y (debit b x (k (text_eq_sound j a y)))
  | inr n ↦ rw n (omega int_laws)
]
  where
    debit : (b x : ℤ) → x ≤ℤ b → pos 0 ≤ℤ b +ℤ (pos 0 -ℤ x)
    debit b x h = omega int_laws

three_nonneg : (b x y : ℤ) → pos 0 ≤ℤ b → pos 0 ≤ℤ x → pos 0 ≤ℤ y → pos 0 ≤ℤ b +ℤ x +ℤ y
three_nonneg b x y h k l = omega int_laws

NoneOverdrawn-step :
    (now : ℕ) (t : Transaction) (s : State) (h : Text)
    → (apply_transaction now (some t) s).1 ≡ accepted h
    → NoneOverdrawn s
    → NoneOverdrawn (apply_transaction now (some t) s).0 × (pos 0 ≤ℤ burned_by t)
NoneOverdrawn-step now t s h e good =
    let (amount, fee, _, ef, pa, pf, enough, _, balances, _, _) = accepted-Transfers now t s h e in
    (
      λ j. rw (balances j) (
          three_nonneg _ _ _
            (debit_covered (sender_of t) j (amount +ℤ fee) (balance_of j s.accounts) (good j)
              (λ p. rw (← p) at enough))
            (at_nonneg (recipient_of t) j amount (omega arith))
            (at_nonneg t.validator_address j (paid t fee) (paid_nonneg t fee pf))),
      rw ef (burned_nonneg t fee pf),
    )

NoneOverdrawn-all :
    (now : ℕ) (ts : List Transaction) (s : State)
    → (apply_transactions now ts s).1 ≡ none
    → NoneOverdrawn s
    → NoneOverdrawn (apply_transactions now ts s).0 × (pos 0 ≤ℤ burned_all ts)
NoneOverdrawn-all now [] s h good = (unfold apply_transactions in good, omega arith)
NoneOverdrawn-all now (t ∷ ts) s h good =
    elim (Outcome-cases (apply_transaction now (some t) s).1) [
      | inl (m, e) ↦ cc (apply_transactions_stop now t ts s m e)
      | inr (g, e) ↦
          let step = apply_transactions_go now t ts s g e in
          let (good1, burn) = NoneOverdrawn-step now t s g e good in
          let (good2, rest) =
            NoneOverdrawn-all now ts (apply_transaction now (some t) s).0
              (ap (λ (r : State × Option Message). r.1) (sym step) ∙ h) good1 in
          (rw step good2, omega int_laws)
    ]

covers : (f b m r p : ℤ) → f +ℤ b ≡ m +ℤ r → pos 0 ≤ℤ b → m ≤ℤ p → f ≤ℤ p +ℤ r
covers f b m r p e h k = omega (int_laws, ap pos_part e, ap neg_part e)

sum_nonneg : (x y : ℤ) → pos 0 ≤ℤ x → pos 0 ≤ℤ y → pos 0 ≤ℤ x +ℤ y
sum_nonneg x y h k = omega int_laws

from_plain : (s s' : State) → plain s' ≡ plain s → IsSound s → IsSound s'
unfolding plain
from_plain s s' e sound = record {
  none_overdrawn = λ j. rw (ap (λ (r : State). balance_of j r.accounts) e) (sound.none_overdrawn j);
  capped = rw (ap (λ (r : State). r.options) e, ap (λ (r : State). r.total_supply) e) sound.capped;
  covered =
      rw (ap (λ (r : State). r.accounts) e, ap (λ (r : State). r.total_supply) e) sound.covered;
}

accepted-IsSound :
    (now : ℕ) (b : Block) (s : State) (h : Text)
    → (apply_block now (some b) s).1 ≡ accepted h
    → IsSound s
    → IsSound (apply_block now (some b) s).0
unfolding closes applied
accepted-IsSound now b s h e sound =
    let (ts, y, ok, same) = block_accepted now b s h e in
    let r : State = rewarded now b ts s in
    let bounds = reward_bounds s sound.capped in
    let (good, burn) = NoneOverdrawn-all now ts r ok.all_applied (λ j.
      rw (balance_of-rewarded now j b ts s) (
        sum_nonneg _ _ (sound.none_overdrawn j)
          (at_nonneg b.validator_address j (calculate_block_reward s) bounds.0))) in
    let supply = apply_transactions-supply now ts r ∙ supply-rewarded now b ts s in
    rw same (record {
      none_overdrawn = good;
      capped = rw (supply, (applied-SameFrame now b ts s).same_options) bounds.1;
      covered = rw supply (
          covers _ _ _ _ _
            (funds-apply_transactions now ts r ok.all_applied ∙ funds-rewarded now b ts s) burn
            sound.covered);
    })

apply_block-IsSound :
    (now : ℕ) (b : Option Block) (s : State) → IsSound s → IsSound (apply_block now b s).0
apply_block-IsSound now none s sound = unfold apply_block in sound
apply_block-IsSound now (some b) s sound = elim (Outcome-cases (apply_block now (some b) s).1) [
  | inl (m, e) ↦ from_plain s _ (apply_block_atomic now (some b) s m e) sound
  | inr (h, e) ↦ accepted-IsSound now b s h e sound
]

-- No account is overdrawn, the supply stays within its bound and covers the sum of all balances: this
-- holds after every chain of blocks, accepted or rejected, if it holds before it.
pub run_chain-IsSound :
    (bs : List (ℕ × Option Block)) (s : State) → IsSound s → IsSound (run_chain bs s)
unfolding run_chain
run_chain-IsSound [] s sound = sound
run_chain-IsSound ((now, b) ∷ bs) s sound =
    run_chain-IsSound bs (apply_block now b s).0 (apply_block-IsSound now b s sound)
