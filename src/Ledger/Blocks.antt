-- ===== src/Ledger/Blocks.antt =====
-- `applyBlock` of src/blockchain/state_machine.js where it accepts the block, and chains of blocks.
use bt2c.Base.{
  ℕ, ◌+◌, ◌≤◌, ◌≡◌, refl, ◌∙◌, false, Option, none, some, List, ◌⊎◌, arith, Option-cases, inl, inr,
}
use bt2c.Base.Int.{◌+ℤ◌}
use bt2c.Base.Text.{Text, text_eq_sound}
use bt2c.Ledger.Types.{Transaction, Block, State, accepted}
use bt2c.Ledger.Steps.{rewarded, try_block_invalid, try_block_failed, try_block_done}
use bt2c.Ledger.Rollback.{apply_transactions-supply}
use bt2c.Ledger.Supply.{
  funds, burned_all, funds-rewarded, supply-rewarded, funds-apply_transactions,
}
use bt2c.Ledger.{
  apply_transactions, calculate_block_reward, pre_validate, apply_valid_block, apply_block,
  breaks_chain,
}

-- The state after the transactions of an accepted block.
unfoldable pub applied : ℕ → Block → List Transaction → State → State
applied now b ts s = (apply_transactions now ts (rewarded now b ts s)).0

-- What the acceptance of a block says of the checks that it passed.
pub record IsAccepted (now : ℕ) (b : Block) (ts : List Transaction) (s : State) : Type 0 where
  pub next_height : b.height ≡ s.current_height + 1
  pub linked : breaks_chain s.last_block_hash b.previous_hash ≡ false
  pub timely : b.timestamp ≤ now + 60000
  pub validated : (pre_validate now ts s.accounts).1 ≡ none
  pub all_applied : (apply_transactions now ts (rewarded now b ts s)).1 ≡ none

unfoldable pub closes : Block → State → State
closes b s = record s { current_height = b.height; last_block_hash = some b.hash }

valid_block_accepted :
    (now : ℕ) (b : Block) (ts : List Transaction) (s : State) (h : Text)
    → (apply_valid_block now b ts s).1 ≡ accepted h
    → IsAccepted now b ts s × ((apply_valid_block now b ts s).0 ≡ closes b (applied now b ts s))
unfolding apply_valid_block closes applied
valid_block_accepted now b ts s h e = elim (Option-cases (pre_validate now ts s.accounts).1) [
  | inr (m, p) ↦ absurd (ground (arith, try_block_invalid now b ts s m p))
  | inl p ↦ elim (Option-cases (apply_transactions now ts (rewarded now b ts s)).1) [
    | inr (m, q) ↦ absurd (ground (arith, try_block_failed now b ts s m p q))
    | inl q ↦ (
      ground (arith, try_block_done now b ts s p q),
      ground (arith, try_block_done now b ts s p q),
    )
  ]
]

pub block_accepted :
    (now : ℕ) (b : Block) (s : State) (h : Text)
    → (apply_block now (some b) s).1 ≡ accepted h
    → (ts : List Transaction) × (b.transactions ≡ some ts)
      × IsAccepted now b ts s
      × ((apply_block now (some b) s).0 ≡ closes b (applied now b ts s))
unfolding apply_block
block_accepted now b s h e = elim (Option-cases b.transactions) [
  | inl n ↦ absurd (ground arith)
  | inr (ts, y) ↦
      let v : (apply_valid_block now b ts s).1 ≡ accepted h = ground arith in
      let (ok, same) = valid_block_accepted now b ts s h v in (ts, y, ok, ground arith)
]

breaks_chain-false :
    (o : Option Text) (p : Text) → breaks_chain o p ≡ false → (o ≡ none) ⊎ (o ≡ some p)
breaks_chain-false none p h = inl refl
breaks_chain-false (some last) p h = inr (ground (arith, text_eq_sound p last))

-- An accepted block has the next height and names the last block's hash, where there is one; it
-- becomes the last block, and with the block reward the supply and the sum of all balances grow by
-- the same amount, but for the fees of its transactions that no validator is paid.
pub apply_block_accepted :
    (now : ℕ) (b : Block) (s : State) (h : Text)
    → (apply_block now (some b) s).1 ≡ accepted h
    → let s' = (apply_block now (some b) s).0 in
      (ts : List Transaction) × (b.transactions ≡ some ts)
      × (s'.current_height ≡ s.current_height + 1)
      × (s'.last_block_hash ≡ some b.hash)
      × ((s.last_block_hash ≡ none) ⊎ (s.last_block_hash ≡ some b.previous_hash))
      × (s'.total_supply ≡ s.total_supply +ℤ calculate_block_reward s)
      × (funds s' +ℤ burned_all ts ≡ funds s +ℤ calculate_block_reward s)
unfolding closes applied
apply_block_accepted now b s h e =
    let (ts, y, ok, same) = block_accepted now b s h e in
    rw same (
      ts,
      y,
      ok.next_height,
      refl,
      breaks_chain-false s.last_block_hash b.previous_hash ok.linked,
      apply_transactions-supply now ts (rewarded now b ts s) ∙ supply-rewarded now b ts s,
      funds-apply_transactions now ts (rewarded now b ts s) ok.all_applied
          ∙ funds-rewarded now b ts s,
    )
