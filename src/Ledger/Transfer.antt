-- ===== src/Ledger/Transfer.antt =====
-- `applyTransaction` of src/blockchain/state_machine.js against its abstract reading: a debit and two
-- credits on the view of the accounts, or nothing at all.
use mathlib.Core.Path.{subst}
use bt2c.Base.{
  ℕ, ◌+◌, ◌≡◌, refl, ◌∙◌, false, ◌||◌, Option, none, some, arith, ◌==◌, if◌then◌else◌, Bool-cases,
  inl, inr,
}
use bt2c.Base.Int.{ℤ, pos, ◌+ℤ◌, ◌-ℤ◌, ◌≤ℤ◌, ltb_ℤ, leb_ℤ}
use bt2c.Base.Text.{Text, text_eq, is_empty}
use bt2c.Base.Dict.{Dict}
use bt2c.Ledger.Types.{
  Account, Transaction, State, Outcome, Message, accepted, rejected, missing_address,
  invalid_amount, invalid_fee,
}
use bt2c.Ledger.Accounts.{ensure}
use bt2c.Ledger.Sums.{
  total, IsPresent, IsPresent-ensure, IsPresent-ensure_other, total-ensure, balance_of, nonce_of,
  balance_of-ensure, nonce_of-ensure, at,
}
use bt2c.Ledger.{sender_of, recipient_of, transfer, apply_transaction}
use bt2c.Ledger.Move.{paid, burned, balance_of-move, nonce_of-move, total-move}

-- What a call did, by its outcome: a rejected transaction leaves every balance and nonce as it was;
-- an accepted one is covered, carries the next nonce, and moves its funds.
abbrev pub Transfers : Transaction → State → State × Outcome → Type 0
Transfers t s (s', rejected m) =
    ((j : Text) → balance_of j s'.accounts ≡ balance_of j s.accounts)
    × ((j : Text) → nonce_of j s'.accounts ≡ nonce_of j s.accounts)
    × (total (λ c. c.balance) s'.accounts ≡ total (λ c. c.balance) s.accounts)
Transfers t s (s', accepted h) =
    (amount : ℤ) × (fee : ℤ) × (t.amount ≡ some amount)
    × (t.fee ≡ some fee)
    × (pos 1 ≤ℤ amount)
    × (pos 0 ≤ℤ fee)
    × (amount +ℤ fee ≤ℤ balance_of (sender_of t) s.accounts)
    × (t.nonce ≡ nonce_of (sender_of t) s.accounts + 1)
    × ((j : Text)
        → balance_of j s'.accounts
          ≡ balance_of j s.accounts
            +ℤ at (sender_of t) j (pos 0 -ℤ (amount +ℤ fee))
            +ℤ at (recipient_of t) j amount
            +ℤ at t.validator_address j (paid t fee))
    × ((j : Text)
        → nonce_of j s'.accounts
          ≡ (if text_eq j (sender_of t) then t.nonce else nonce_of j s.accounts))
    × (total (λ c. c.balance) s'.accounts +ℤ burned t fee ≡ total (λ c. c.balance) s.accounts)

module _ (now : ℕ) (t : Transaction) (amount fee : ℤ) (s : State) where
  abbrev both : Dict Account
  both = ensure now (recipient_of t) (ensure now (sender_of t) s.accounts)

  both_sender : IsPresent (sender_of t) both
  both_sender = IsPresent-ensure_other now _ _ _ (IsPresent-ensure now (sender_of t) s.accounts)

  both_recipient : IsPresent (recipient_of t) both
  both_recipient = IsPresent-ensure now (recipient_of t) (ensure now (sender_of t) s.accounts)

  balance_of-both : (j : Text) → balance_of j both ≡ balance_of j s.accounts
  balance_of-both j = balance_of-ensure now j _ _ ∙ balance_of-ensure now j _ _

  nonce_of-both : (j : Text) → nonce_of j both ≡ nonce_of j s.accounts
  nonce_of-both j = nonce_of-ensure now j _ _ ∙ nonce_of-ensure now j _ _

  total-both : total (λ c. c.balance) both ≡ total (λ c. c.balance) s.accounts
  total-both =
      total-ensure (λ c. c.balance) now _ _ refl ∙ total-ensure (λ c. c.balance) now _ _ refl

  covered_le :
      ltb_ℤ (balance_of (sender_of t) both) (amount +ℤ fee) ≡ false
      → amount +ℤ fee ≤ℤ balance_of (sender_of t) both
  covered_le h = ground arith

  transfer-Transfers :
      t.amount ≡ some amount
      → t.fee ≡ some fee
      → pos 1 ≤ℤ amount
      → pos 0 ≤ℤ fee
      → Transfers t s (transfer now (sender_of t) (recipient_of t) t amount fee s)
  unfolding transfer
  transfer-Transfers ea ef pa pf =
      elim (Bool-cases (ltb_ℤ (balance_of (sender_of t) both) (amount +ℤ fee))) [
        | inl short ↦ rw short (balance_of-both, nonce_of-both, total-both)
        | inr covered ↦ elim (Bool-cases (t.nonce == nonce_of (sender_of t) both + 1)) [
          | inr wrong ↦ rw (covered, wrong) (balance_of-both, nonce_of-both, total-both)
          | inl right ↦
              rw (covered, right)
                (
                  amount,
                  fee,
                  ea,
                  ef,
                  pa,
                  pf,
                  rw (balance_of-both (sender_of t)) at (covered_le covered),
                  ground (arith, nonce_of-both (sender_of t)),
                  λ j. rw (
                    balance_of-move now _ _ t amount fee both both_sender both_recipient j,
                    balance_of-both j,
                  ),
                  λ j. rw (
                    nonce_of-move now _ _ t amount fee both both_sender both_recipient j,
                    nonce_of-both j,
                  ),
                  total-move now _ _ t amount fee both both_sender both_recipient ∙ total-both,
                )
        ]
      ]

unchanged : (t : Transaction) (s : State) (m : Message) → Transfers t s (s, rejected m)
unchanged t s m = (λ j. refl, λ j. refl, refl)

-- A transaction is accepted only if its amount is positive, its fee not negative, both are covered
-- by the sender's balance and its nonce is the sender's next one; then every account's balance moves
-- by exactly what it pays and is paid, also where one account plays several parts, the sender's
-- nonce advances, and the sum of all balances falls by a fee without a taker and by nothing else. A
-- transaction that is rejected changes no balance and no nonce.
pub apply_transaction-Transfers :
    (now : ℕ) (t : Transaction) (s : State) → Transfers t s (apply_transaction now (some t) s)
unfolding apply_transaction
apply_transaction-Transfers now t s =
    elim (Bool-cases (is_empty (sender_of t) || is_empty (recipient_of t))) [
      | inl y ↦ rw y (unchanged t s missing_address)
      | inr n ↦ rw n (amount_checked t.amount refl)
    ]
  where
    fee_checked :
        (amount : ℤ)
        → t.amount ≡ some amount
        → leb_ℤ amount (pos 0) ≡ false
        → (f : Option ℤ) → t.fee ≡ f
        → Transfers t s (elim f [
          | none ↦ (s, rejected invalid_fee)
          | some fee ↦
              if ltb_ℤ fee (pos 0)
              then (s, rejected invalid_fee)
              else transfer now (sender_of t) (recipient_of t) t amount fee s
        ])
    fee_checked amount ea pa none e = unchanged t s invalid_fee
    fee_checked amount ea pa (some fee) e = elim (Bool-cases (ltb_ℤ fee (pos 0))) [
      | inl y ↦ rw y (unchanged t s invalid_fee)
      | inr n ↦ rw n (transfer-Transfers now t amount fee s ea e (ground arith) (ground arith))
    ]

    amount_checked :
        (o : Option ℤ)
        → t.amount ≡ o
        → Transfers t s (elim o [
          | none ↦ (s, rejected invalid_amount)
          | some amount ↦
              if leb_ℤ amount (pos 0) then (s, rejected invalid_amount) else elim t.fee [
                | none ↦ (s, rejected invalid_fee)
                | some fee ↦
                    if ltb_ℤ fee (pos 0)
                    then (s, rejected invalid_fee)
                    else transfer now (sender_of t) (recipient_of t) t amount fee s
              ]
        ])
    amount_checked none e = unchanged t s invalid_amount
    amount_checked (some amount) e = elim (Bool-cases (leb_ℤ amount (pos 0))) [
      | inl y ↦ rw y (unchanged t s invalid_amount)
      | inr n ↦ rw n (fee_checked amount e n t.fee refl)
    ]

-- The same, where the outcome is known.
pub accepted-Transfers :
    (now : ℕ) (t : Transaction) (s : State) (h : Text)
    → (apply_transaction now (some t) s).1 ≡ accepted h
    → Transfers t s ((apply_transaction now (some t) s).0, accepted h)
accepted-Transfers now t s h e =
    subst (λ o. Transfers t s ((apply_transaction now (some t) s).0, o)) e
      (apply_transaction-Transfers now t s)
