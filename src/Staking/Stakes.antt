-- ===== src/Staking/Stakes.antt =====
-- `updateAccountStake` of src/blockchain/state_machine.js on balances and stakes.
use bt2c.Base.{
  ℕ, ◌≡◌, refl, ap, ◌∙◌, true, false, ◌&&◌, arith, if◌then◌else◌, Bool-cases, inl, inr, ◌⊎◌,
}
use bt2c.Base.Int.{ℤ, pos, ◌+ℤ◌, ◌-ℤ◌, ◌≤ℤ◌, ltb_ℤ, int_laws}
use bt2c.Base.Text.{Text, text_eq, text_eq_sound}
use bt2c.Base.Dict.{Dict}
use bt2c.Ledger.Types.{Account, State}
use bt2c.Ledger.Accounts.{ensure, account, modify}
use bt2c.Ledger.Sums.{
  balance_of, stake_of, balance_of-ensure, stake_of-ensure, at, IsPresent-ensure, account-modify,
}
use bt2c.Staking.{exceeds, restake, update_account_stake}

-- No account has a negative balance or a negative stake.
abbrev pub IsSolvent : State → Type 0
IsSolvent s = (j : Text) → (pos 0 ≤ℤ balance_of j s.accounts) × (pos 0 ≤ℤ stake_of j s.accounts)

restake_balance :
    (now : ℕ) (amount : ℤ) (a : Account) → (restake now amount a).balance ≡ a.balance -ℤ amount
restake_balance now amount a = grind int_laws

account-restake :
    (now : ℕ) (address : Text) (amount : ℤ) (d : Dict Account) (j : Text)
    → account j (modify address (restake now amount) (ensure now address d)) ≡ (
        if text_eq j address
        then restake now amount (account j (ensure now address d))
        else account j (ensure now address d))
account-restake now address amount d j =
    account-modify j address (restake now amount) (ensure now address d)
      (IsPresent-ensure now address d)

restake_view :
    (now : ℕ) (address : Text) (amount : ℤ) (d : Dict Account) (j : Text)
    → (balance_of j (modify address (restake now amount) (ensure now address d))
        ≡ balance_of j d -ℤ at address j amount)
      × (stake_of j (modify address (restake now amount) (ensure now address d))
          ≡ stake_of j d +ℤ at address j amount)
restake_view now address amount d j =
    let e = account-restake now address amount d j in
    elim (Bool-cases (text_eq j address)) [
      | inl y ↦ (
        ap (λ (a : Account). a.balance) e
            ∙ rw (
              y,
              restake_balance now amount (account j (ensure now address d)),
              balance_of-ensure now j address d,
            ),
        ap (λ (a : Account). a.stake) e ∙ rw (y, stake_of-ensure now j address d),
      )
      | inr n ↦ (
        ap (λ (a : Account). a.balance) e
            ∙ rw (n, balance_of-ensure now j address d) (omega int_laws),
        ap (λ (a : Account). a.stake) e ∙ rw (n, stake_of-ensure now j address d) (omega int_laws),
      )
    ]

-- The two ways through the tests.
update_cases :
    (now : ℕ) (address : Text) (amount : ℤ) (s : State)
    → let d = ensure now address s.accounts in
      let r = update_account_stake now address amount s in
      ((r.1 ≡ false) × (r.0.accounts ≡ d))
      ⊎ ((r.1 ≡ true)
          × (r.0.accounts ≡ modify address (restake now amount) d)
          × ((amount ≤ℤ balance_of address d) ⊎ (amount ≤ℤ pos 0))
          × ((pos 0 ≤ℤ stake_of address d +ℤ amount) ⊎ (pos 0 ≤ℤ amount)))
unfolding update_account_stake
update_cases now address amount s =
    let a = account address (ensure now address s.accounts) in
    elim (Bool-cases (exceeds amount a.stake)) [
      | inl y ↦ rw y (inl (refl, refl))
      | inr n ↦ elim (Bool-cases (ltb_ℤ (pos 0) amount && ltb_ℤ a.balance amount)) [
        | inl y ↦ rw (n, y) (inl (refl, refl))
        | inr n2 ↦ rw (n, n2) (inr (refl, refl, covered amount a.balance n2, kept amount a.stake n))
      ]
    ]
  where
    covered : (x b : ℤ) → (ltb_ℤ (pos 0) x && ltb_ℤ b x) ≡ false → (x ≤ℤ b) ⊎ (x ≤ℤ pos 0)
    covered x b h = ground arith

    kept : (x b : ℤ) → exceeds x b ≡ false → (pos 0 ≤ℤ b +ℤ x) ⊎ (pos 0 ≤ℤ x)
    kept x b h = grind int_laws

-- For every account and every amount the update moves exactly that amount from the balance to the
-- stake of the named account when it returns `true`, and changes no balance and no stake when it
-- returns `false`.
pub update_account_stake_moves :
    (now : ℕ) (address : Text) (amount : ℤ) (s : State) (j : Text)
    → let (s', done) = update_account_stake now address amount s in
      let moved : ℤ = if done then at address j amount else pos 0 in
      (balance_of j s'.accounts ≡ balance_of j s.accounts -ℤ moved)
      × (stake_of j s'.accounts ≡ stake_of j s.accounts +ℤ moved)
update_account_stake_moves now address amount s j = elim (update_cases now address amount s) [
  | inl (r, e) ↦
      rw
        (r, e, balance_of-ensure now j address s.accounts, stake_of-ensure now j address s.accounts)
        (omega int_laws, omega int_laws)
  | inr (r, e, _, _) ↦ rw (r, e) (restake_view now address amount s.accounts j)
]

-- No update of a stake, whatever its sign and size, makes a balance or a stake negative.
pub update_account_stake-IsSolvent :
    (now : ℕ) (address : Text) (amount : ℤ) (s : State)
    → IsSolvent s
    → IsSolvent (update_account_stake now address amount s).0
update_account_stake-IsSolvent now address amount s good j =
    elim (update_cases now address amount s) [
      | inl (r, e) ↦
          rw
            (
              e,
              balance_of-ensure now j address s.accounts,
              stake_of-ensure now j address s.accounts,
            )
            (good j)
      | inr (r, e, b, k) ↦
          let (vb, vs) = restake_view now address amount s.accounts j in
          elim (Bool-cases (text_eq j address)) [
            | inr n ↦ rw (e, vb, vs, n) (below _ (good j).0, above _ (good j).1)
            | inl y ↦
                let p = text_eq_sound j address y in
                let gb : pos 0 ≤ℤ balance_of address s.accounts = rw p at (good j).0 in
                let gs : pos 0 ≤ℤ stake_of address s.accounts = rw p at (good j).1 in
                rw (e, vb, vs, y, p)
                  (
                    debit _ amount gb (rw balance_of-ensure at b),
                    credit _ amount gs (rw stake_of-ensure at k),
                  )
          ]
    ]
  where
    below : (b : ℤ) → pos 0 ≤ℤ b → pos 0 ≤ℤ b -ℤ pos 0
    below b h = omega int_laws

    above : (b : ℤ) → pos 0 ≤ℤ b → pos 0 ≤ℤ b +ℤ pos 0
    above b h = omega int_laws

    debit : (b x : ℤ) → pos 0 ≤ℤ b → (x ≤ℤ b) ⊎ (x ≤ℤ pos 0) → pos 0 ≤ℤ b -ℤ x
    debit b x h k = omega int_laws

    credit : (b x : ℤ) → pos 0 ≤ℤ b → (pos 0 ≤ℤ b +ℤ x) ⊎ (pos 0 ≤ℤ x) → pos 0 ≤ℤ b +ℤ x
    credit b x h k = omega int_laws
