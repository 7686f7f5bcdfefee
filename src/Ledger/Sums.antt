-- ===== src/Ledger/Sums.antt =====
-- Sums over the accounts of src/blockchain/state_machine.js, and what a write to one account does to
-- the sums and to the other accounts.
use bt2c.Base.{
  ℕ, ◌≡◌, refl, ◌∙◌, true, none, some, [], ◌∷◌, arith, if◌then◌else◌, Option-cases, inl, inr,
}
use bt2c.Base.Int.{ℤ, pos, ◌+ℤ◌, int_laws}
use bt2c.Base.Text.{Text, text_eq, text_eq_sound, text_eq_refl}
use bt2c.Base.Dict.{Dict, lookup, contains, insert, lookup-insert}
use bt2c.Ledger.Types.{Account}
use bt2c.Ledger.Accounts.{new_account, ensure, account, modify, add_balance, set_nonce}

-- The sum of a field over all accounts.
abbrev pub total : (Account → ℤ) → Dict Account → ℤ
total f [] = pos 0
total f ((k, v) ∷ d) = f v +ℤ total f d

-- The account is in the map.
abbrev pub IsPresent : Text → Dict Account → Type 0
IsPresent a d = contains a d ≡ true

total-insert :
    (f : Account → ℤ) (k : Text) (v old : Account) (d : Dict Account)
    → lookup k d ≡ some old
    → total f (insert k v d) +ℤ f old ≡ total f d +ℤ f v
total-insert f k v old [] e = cc
total-insert f k v old ((i, w) ∷ d) e = grind (int_laws, total-insert f k v old d)

total-insert_new :
    (f : Account → ℤ) (k : Text) (v : Account) (d : Dict Account)
    → lookup k d ≡ none
    → total f (insert k v d) ≡ total f d +ℤ f v
total-insert_new f k v [] e = omega int_laws
total-insert_new f k v ((i, w) ∷ d) e = grind (int_laws, total-insert_new f k v d)

pub total-ensure :
    (f : Account → ℤ) (now : ℕ) (a : Text) (d : Dict Account)
    → f (new_account now a) ≡ pos 0
    → total f (ensure now a d) ≡ total f d
unfolding ensure
total-ensure f now a d z = elim (Option-cases (lookup a d)) [
  | inl absent ↦ grind (int_laws, total-insert_new f a (new_account now a) d absent)
  | inr (x, e) ↦ ground arith
]

pub IsPresent-ensure : (now : ℕ) (a : Text) (d : Dict Account) → IsPresent a (ensure now a d)
unfolding ensure
IsPresent-ensure now a d = ground (arith, lookup-insert a a (new_account now a) d, text_eq_refl a)

pub IsPresent-ensure_other :
    (now : ℕ) (j a : Text) (d : Dict Account) → IsPresent j d → IsPresent j (ensure now a d)
unfolding ensure
IsPresent-ensure_other now j a d h = ground (arith, lookup-insert j a (new_account now a) d)

pub IsPresent-modify :
    (j a : Text) (g : Account → Account) (d : Dict Account)
    → IsPresent j d
    → IsPresent j (modify a g d)
unfolding modify
IsPresent-modify j a g d h = elim (Option-cases (lookup a d)) [
  | inl e ↦ ground arith
  | inr (x, e) ↦ ground (arith, lookup-insert j a (g x) d)
]

pub account-modify :
    (j a : Text) (g : Account → Account) (d : Dict Account)
    → IsPresent a d
    → account j (modify a g d) ≡ (if text_eq j a then g (account j d) else account j d)
unfolding account modify
account-modify j a g d h = elim (Option-cases (lookup a d)) [
  | inl e ↦ ground arith
  | inr (x, e) ↦ ground (arith, lookup-insert j a (g x) d, text_eq_sound j a)
]

-- What a write to one field of a present account adds to a sum.
pub total-modify :
    (f : Account → ℤ) (a : Text) (g : Account → Account) (x : ℤ) (d : Dict Account)
    → IsPresent a d
    → ((c : Account) → f (g c) ≡ f c +ℤ x)
    → total f (modify a g d) ≡ total f d +ℤ x
unfolding modify
total-modify f a g x d h e = elim (Option-cases (lookup a d)) [
  | inl absent ↦ ground arith
  | inr (c, p) ↦ grind (int_laws, total-insert f a (g c) c d p, e c)
]

-- The view of the map that the code's callers have: a missing account has no funds.
abbrev pub balance_of : Text → Dict Account → ℤ
balance_of a d = (account a d).balance

abbrev pub nonce_of : Text → Dict Account → ℕ
nonce_of a d = (account a d).nonce

abbrev pub stake_of : Text → Dict Account → ℤ
stake_of a d = (account a d).stake

pub balance_of-ensure :
    (now : ℕ) (j a : Text) (d : Dict Account) → balance_of j (ensure now a d) ≡ balance_of j d
unfolding account ensure
balance_of-ensure now j a d =
    ground (arith, lookup-insert j a (new_account now a) d, text_eq_sound j a)

pub nonce_of-ensure :
    (now : ℕ) (j a : Text) (d : Dict Account) → nonce_of j (ensure now a d) ≡ nonce_of j d
unfolding account ensure
nonce_of-ensure now j a d =
    ground (arith, lookup-insert j a (new_account now a) d, text_eq_sound j a)

pub stake_of-ensure :
    (now : ℕ) (j a : Text) (d : Dict Account) → stake_of j (ensure now a d) ≡ stake_of j d
unfolding account ensure
stake_of-ensure now j a d =
    ground (arith, lookup-insert j a (new_account now a) d, text_eq_sound j a)

-- What the account `j` gains when `x` is added to the account `a`.
abbrev pub at : Text → Text → ℤ → ℤ
at a j x = if text_eq j a then x else pos 0

pub balance_of-add_balance :
    (j a : Text) (x : ℤ) (d : Dict Account)
    → IsPresent a d
    → balance_of j (modify a (add_balance x) d) ≡ balance_of j d +ℤ at a j x
balance_of-add_balance j a x d h = grind (int_laws, account-modify j a (add_balance x) d h)

pub balance_of-set_nonce :
    (j a : Text) (n : ℕ) (d : Dict Account)
    → IsPresent a d
    → balance_of j (modify a (set_nonce n) d) ≡ balance_of j d
balance_of-set_nonce j a n d h = ground (arith, account-modify j a (set_nonce n) d h)

pub nonce_of-add_balance :
    (j a : Text) (x : ℤ) (d : Dict Account)
    → IsPresent a d
    → nonce_of j (modify a (add_balance x) d) ≡ nonce_of j d
nonce_of-add_balance j a x d h = ground (arith, account-modify j a (add_balance x) d h)

pub nonce_of-set_nonce :
    (j a : Text) (n : ℕ) (d : Dict Account)
    → IsPresent a d
    → nonce_of j (modify a (set_nonce n) d) ≡ (if text_eq j a then n else nonce_of j d)
nonce_of-set_nonce j a n d h = ground (arith, account-modify j a (set_nonce n) d h)

pub total_balance-add_balance :
    (a : Text) (x : ℤ) (d : Dict Account)
    → IsPresent a d
    → total (λ c. c.balance) (modify a (add_balance x) d) ≡ total (λ c. c.balance) d +ℤ x
total_balance-add_balance a x d h =
    total-modify (λ c. c.balance) a (add_balance x) x d h (λ c. refl)

pub total_balance-set_nonce :
    (a : Text) (n : ℕ) (d : Dict Account)
    → IsPresent a d
    → total (λ c. c.balance) (modify a (set_nonce n) d) ≡ total (λ c. c.balance) d
total_balance-set_nonce a n d h =
    total-modify (λ c. c.balance) a (set_nonce n) (pos 0) d h (λ c. omega int_laws) ∙ omega int_laws
