-- ===== src/Staking/Registration.antt =====
-- Registration, its rewards, and validators after a rollback in src/blockchain/state_machine.js.
use bt2c.Base.{
  ℕ, ◌≡◌, refl, ap, ◌∙◌, Bool, true, false, ◌&&◌, not, none, some, List, [], ◌∷◌, map, arith,
  if◌then◌else◌, Option-cases, inl, inr,
}
use bt2c.Base.Int.{ℤ, pos, ◌+ℤ◌, int_laws}
use bt2c.Base.Text.{Text}
use bt2c.Base.Dict.{Dict, lookup}
use bt2c.Validator.{Validator}
use bt2c.Ledger.Types.{
  Account, Block, Transaction, Entry, State, Message, rejected, transaction_failed, type_error,
}
use bt2c.Ledger.Accounts.{ensure, modify}
use bt2c.Ledger.Sums.{total, total-ensure, total-modify, IsPresent-ensure}
use bt2c.Ledger.Supply.{funds}
use bt2c.Ledger.{
  copy_entry, create_state_snapshot, restore_state_snapshot, apply_valid_block, apply_block,
}
use bt2c.Staking.{
  with_methods, touch_balance, update_account_balance, award_developer_node_reward,
  award_early_validator_reward, is_in_distribution_period, register_validator, jail_validator,
  tombstone_validator,
}

-- A reward, being no debt, is always credited.
reward_credited :
    (now reward : ℕ) (address : Text) (s : State)
    → (update_account_balance now address (pos reward) s).0 ≡ record s {
      accounts = modify address (touch_balance now (pos reward)) (ensure now address s.accounts);
    }
unfolding update_account_balance
reward_credited now reward address s = ground arith

developer_award :
    (now : ℕ) (address : Text) (s : State)
    → let s' = award_developer_node_reward now address s in
      let reward : ℤ = pos s.options.developer_node_reward in
      (funds s' ≡ funds s +ℤ reward) × (s'.total_supply ≡ s.total_supply +ℤ reward)
unfolding award_developer_node_reward
developer_award now address s =
    let reward : ℤ = pos s.options.developer_node_reward in
    let d = ensure now address s.accounts in
    let credited = reward_credited now s.options.developer_node_reward address s in
    (
      ap funds credited
          ∙ (total-modify (λ c. c.balance) address (touch_balance now reward) reward d
                (IsPresent-ensure now address s.accounts) (λ c. refl)
              ∙ ap (λ (x : ℤ). x +ℤ reward)
                  (total-ensure (λ c. c.balance) now address s.accounts refl)),
      ap (λ (r : State). r.total_supply +ℤ reward) credited,
    )

-- The lookup by `awardEarlyValidatorReward` comes before the validator is in the map.
early_award_skipped :
    (now : ℕ) (address : Text) (s : State)
    → lookup address s.validators ≡ none
    → let s' = award_early_validator_reward now address s in
      (funds s' ≡ funds s) × (s'.total_supply ≡ s.total_supply)
unfolding award_early_validator_reward
early_award_skipped now address s e =
    (rw (e, award_early_validator_reward), rw (e, award_early_validator_reward))

-- What registration pays out.
abbrev pub granted : ℕ → State → Bool → ℤ
granted now s registered =
    if registered && not s.developer_node_set && is_in_distribution_period now s
    then pos s.options.developer_node_reward
    else pos 0

-- Registration pays only the developer's reward, to the first validator that is registered, and only
-- during the distribution period: then the sum of balances and the supply grow by it, and at every
-- other registration both stay as they are. In particular no other validator is ever paid the reward
-- for an early validator.
pub register_validator_pays :
    (now : ℕ) (v : Validator) (s : State)
    → let (s', registered) = register_validator now v s in
      (funds s' ≡ funds s +ℤ granted now s registered)
      × (s'.total_supply ≡ s.total_supply +ℤ granted now s registered)
unfolding register_validator is_in_distribution_period
register_validator_pays now v s = elim (Option-cases (lookup v.address s.validators)) [
  | inr (e, y) ↦ ground (arith, plus_zero (funds s), plus_zero s.total_supply)
  | inl n ↦ ground (
    arith,
    plus_zero (funds s),
    plus_zero s.total_supply,
    plus_zero (total (λ c. c.balance) d),
    total-ensure (λ c. c.balance) now v.address s.accounts refl,
    early_award_skipped now v.address (record s { accounts = d }) n,
    developer_award now v.address (record s { accounts = d; developer_node_set = true }),
  )
]
  where
    d : Dict Account
    d = ensure now v.address s.accounts

    plus_zero : (x : ℤ) → x +ℤ pos 0 ≡ x
    plus_zero x = omega int_laws

rolled_back_valid :
    (now : ℕ) (b : Block) (ts : List Transaction) (s : State) (hash : Text) (m : Message)
    → (apply_valid_block now b ts s).1 ≡ rejected (transaction_failed hash m)
    → (apply_valid_block now b ts s).0.validators ≡ map copy_entry (map copy_entry s.validators)
unfolding apply_valid_block create_state_snapshot restore_state_snapshot
rolled_back_valid now b ts s hash m e = ground arith

rolled_back :
    (now : ℕ) (b : Block) (s : State) (hash : Text) (m : Message)
    → (apply_block now (some b) s).1 ≡ rejected (transaction_failed hash m)
    → (apply_block now (some b) s).0.validators ≡ map copy_entry (map copy_entry s.validators)
unfolding apply_block
rolled_back now b s hash m e = elim (Option-cases b.transactions) [
  | inl n ↦ absurd (ground arith)
  | inr (ts, y) ↦ ground (arith, rolled_back_valid now b ts s hash m)
]

lookup-copy :
    (a : Text) (d : Dict Entry) (e : Entry)
    → lookup a d ≡ some e
    → lookup a (map copy_entry d) ≡ some (record e { has_methods = false })
lookup-copy a [] e h = cc
lookup-copy a ((k, x) ∷ d) e h = ground (arith, lookup-copy a d e)

-- After a block has been rejected because of one of its transactions, no validator can be jailed or
-- tombstoned any more: for every registered validator both calls end in a TypeError, and change
-- nothing.
pub jail_after_rollback :
    (now : ℕ) (b : Block) (s : State) (hash : Text) (m : Message) (a : Text) (e : Entry)
    (later duration : ℕ)
    → (apply_block now (some b) s).1 ≡ rejected (transaction_failed hash m)
    → lookup a s.validators ≡ some e
    → let s' = (apply_block now (some b) s).0 in
      (jail_validator later a duration s' ≡ (s', type_error))
      × (tombstone_validator a s' ≡ (s', type_error))
unfolding jail_validator tombstone_validator
jail_after_rollback now b s hash m a e later duration r present =
    let stripped : lookup a (apply_block now (some b) s).0.validators
        ≡ some (record e { has_methods = false }) =
      rw (rolled_back now b s hash m r)
        (lookup-copy a _ _ (lookup-copy a s.validators e present)) in
    (rw (stripped, with_methods), rw (stripped, with_methods))
