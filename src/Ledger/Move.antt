-- ===== src/Ledger/Move.antt =====
-- The moves of `applyTransaction` in src/blockchain/state_machine.js on the view of the accounts: what
-- they do to each balance, each nonce and the sum of balances.
use bt2c.Base.{ℕ, ◌≡◌, refl, ◌∙◌, Bool, ◌&&◌, not, if◌then◌else◌, Bool-cases, inl, inr}
use bt2c.Base.Int.{ℤ, pos, ◌+ℤ◌, ◌-ℤ◌, ltb_ℤ, int_laws}
use bt2c.Base.Text.{Text, text_eq, is_empty}
use bt2c.Base.Dict.{Dict}
use bt2c.Ledger.Types.{Account, Transaction}
use bt2c.Ledger.Accounts.{ensure, modify, add_balance, set_nonce}
use bt2c.Ledger.Sums.{
  total, IsPresent, IsPresent-ensure, IsPresent-modify, total-ensure, balance_of, nonce_of,
  balance_of-ensure, nonce_of-ensure, at, balance_of-add_balance, balance_of-set_nonce,
  nonce_of-add_balance, nonce_of-set_nonce, total_balance-add_balance, total_balance-set_nonce,
}
use bt2c.Ledger.{move}

-- The fee has a taker.
abbrev pub pays_validator : Transaction → ℤ → Bool
pays_validator t fee = ltb_ℤ (pos 0) fee && not (is_empty t.validator_address)

-- What the taker is paid; a fee that nobody is paid leaves the ledger.
abbrev pub paid : Transaction → ℤ → ℤ
paid t fee = if pays_validator t fee then fee else pos 0

abbrev pub burned : Transaction → ℤ → ℤ
burned t fee = if pays_validator t fee then pos 0 else fee

module _ (now : ℕ) (sender recipient : Text) (t : Transaction) (amount fee : ℤ) (d : Dict Account)
    (has_sender : IsPresent sender d) (has_recipient : IsPresent recipient d) where
  abbrev debited : Dict Account
  debited = modify sender (add_balance (pos 0 -ℤ (amount +ℤ fee))) d

  abbrev credited : Dict Account
  credited = modify recipient (add_balance amount) debited

  abbrev numbered : Dict Account
  numbered = modify sender (set_nonce t.nonce) credited

  abbrev opened : Dict Account
  opened = ensure now t.validator_address numbered

  debited-IsPresent : IsPresent recipient debited
  debited-IsPresent = IsPresent-modify _ _ _ d has_recipient

  credited-IsPresent : IsPresent sender credited
  credited-IsPresent = IsPresent-modify _ _ _ debited (IsPresent-modify _ _ _ d has_sender)

  opened-IsPresent : IsPresent t.validator_address opened
  opened-IsPresent = IsPresent-ensure now t.validator_address numbered

  balance_of-numbered :
      (j : Text)
      → balance_of j numbered
        ≡ balance_of j d +ℤ at sender j (pos 0 -ℤ (amount +ℤ fee)) +ℤ at recipient j amount
  balance_of-numbered j =
      balance_of-set_nonce j sender t.nonce credited credited-IsPresent
      ∙ rw (
        balance_of-add_balance j recipient amount debited debited-IsPresent,
        balance_of-add_balance j sender (pos 0 -ℤ (amount +ℤ fee)) d has_sender,
      )

  nonce_of-numbered :
      (j : Text) → nonce_of j numbered ≡ (if text_eq j sender then t.nonce else nonce_of j d)
  nonce_of-numbered j = rw (
    nonce_of-set_nonce j sender t.nonce credited credited-IsPresent,
    nonce_of-add_balance j recipient amount debited debited-IsPresent,
    nonce_of-add_balance j sender (pos 0 -ℤ (amount +ℤ fee)) d has_sender,
  )

  total-numbered : total (λ c. c.balance) numbered +ℤ fee ≡ total (λ c. c.balance) d
  total-numbered =
      rw
        (
          total_balance-set_nonce sender t.nonce credited credited-IsPresent,
          total_balance-add_balance recipient amount debited debited-IsPresent,
          total_balance-add_balance sender (pos 0 -ℤ (amount +ℤ fee)) d has_sender,
        )
        (omega int_laws)

  pub balance_of-move :
      (j : Text)
      → balance_of j (move now sender recipient t amount fee d)
        ≡ balance_of j d
          +ℤ at sender j (pos 0 -ℤ (amount +ℤ fee))
          +ℤ at recipient j amount
          +ℤ at t.validator_address j (paid t fee)
  unfolding move
  balance_of-move j = elim (Bool-cases (pays_validator t fee)) [
    | inl y ↦ rw (
      y,
      balance_of-add_balance j t.validator_address fee opened opened-IsPresent,
      balance_of-ensure now j t.validator_address numbered,
      balance_of-numbered j,
    )
    | inr n ↦ rw (n, balance_of-numbered j) (grind int_laws)
  ]

  pub nonce_of-move :
      (j : Text)
      → nonce_of j (move now sender recipient t amount fee d)
        ≡ (if text_eq j sender then t.nonce else nonce_of j d)
  unfolding move
  nonce_of-move j = elim (Bool-cases (pays_validator t fee)) [
    | inl y ↦ rw (
      y,
      nonce_of-add_balance j t.validator_address fee opened opened-IsPresent,
      nonce_of-ensure now j t.validator_address numbered,
      nonce_of-numbered j,
    )
    | inr n ↦ rw (n, nonce_of-numbered j)
  ]

  pub total-move :
      total (λ c. c.balance) (move now sender recipient t amount fee d) +ℤ burned t fee
      ≡ total (λ c. c.balance) d
  unfolding move
  total-move = elim (Bool-cases (pays_validator t fee)) [
    | inl y ↦
        rw
          (
            y,
            total_balance-add_balance t.validator_address fee opened opened-IsPresent,
            total-ensure (λ c. c.balance) now t.validator_address numbered refl,
          )
          (omega int_laws ∙ total-numbered)
    | inr n ↦ rw n total-numbered
  ]
