-- ===== src/Registry/Backing.antt =====
-- What is in the accounts and the stakes of src/consensus/state_machine.js, and where it comes from.
use bt2c.Base.{◌≡◌, Option, none, some, arith, by_test}
use bt2c.Base.Int.{ℤ, pos, ◌+ℤ◌, ◌-ℤ◌, ◌≤ℤ◌, int_laws}
use bt2c.Base.Text.{Text}
use bt2c.Base.Dict.{Dict, lookup, insert, lookup-insert_self}
use bt2c.Base.Totals.{sum_over, at_key, sum_over-insert, Every, insert-Every, lookup-Every}
use bt2c.Distribution.{Period}
use bt2c.Registry.{
  Funds, Staker, Registry, Reply, success, failure, with_account, get_account, update_balance,
}

abbrev pub balances : Dict Funds → ℤ
balances d = sum_over (λ (f : Funds). f.balance) d

abbrev pub stakes : Dict Staker → ℤ
stakes d = sum_over (λ (v : Staker). v.stake) d

abbrev pub IsPaid : Funds → Type 0
IsPaid f = pos 0 ≤ℤ f.balance

get_account-balances : (a : Text) (d : Dict Funds) → balances (get_account a d).0 ≡ balances d
unfolding get_account
get_account-balances a d = grind (
  int_laws,
  sum_over-insert (λ (f : Funds). f.balance) a (record { balance = pos 0; nonce = 0 }) d,
)

pub get_account-lookup :
    (a : Text) (d : Dict Funds) → lookup a (get_account a d).0 ≡ some (get_account a d).1
unfolding get_account
get_account-lookup a d =
    ground (arith, lookup-insert_self a (record { balance = pos 0; nonce = 0 }) d)

get_account-IsPaid : (a : Text) (d : Dict Funds) → Every IsPaid d → Every IsPaid (get_account a d).0
unfolding get_account
get_account-IsPaid a d h = elim (lookup a d) as (λ o. Every IsPaid (with_account a d o).0) [
  | none ↦ insert-Every IsPaid a (record { balance = pos 0; nonce = 0 }) d (omega arith) h
  | some f ↦ h
]

abbrev pub credited : ℤ → Reply → ℤ
credited x success = x
credited x (failure e) = pos 0

pub update_balance-balances :
    (a : Text) (x : ℤ) (r : Registry)
    → balances (update_balance a x r).0.funds
      ≡ balances r.funds +ℤ credited x (update_balance a x r).1
unfolding update_balance
update_balance-balances a x r =
    let (d, f) = get_account a r.funds in
    grind (
      int_laws,
      get_account-balances a r.funds,
      get_account-lookup a r.funds,
      sum_over-insert (λ (f : Funds). f.balance) a (record f { balance = f.balance +ℤ x }) d,
    )

pub update_balance-IsPaid :
    (a : Text) (x : ℤ) (r : Registry)
    → Every IsPaid r.funds
    → Every IsPaid (update_balance a x r).0.funds
unfolding update_balance
update_balance-IsPaid a x r h =
    let (d, f) = get_account a r.funds in
    by_test (λ (p : Registry × Reply). Every IsPaid p.0.funds) _ _ _
      (λ q. get_account-IsPaid a r.funds h)
      (λ q.
        insert-Every IsPaid a (record f { balance = f.balance +ℤ x }) d
          (grind (
            int_laws,
            q,
            lookup-Every IsPaid a f d (get_account-IsPaid a r.funds h)
                (get_account-lookup a r.funds),
          ))
          (get_account-IsPaid a r.funds h))

-- An account that covers the deduction is changed.
pub update_balance_covered :
    (a : Text) (x : ℤ) (f : Funds) (r : Registry)
    → lookup a r.funds ≡ some f
    → pos 0 ≤ℤ f.balance +ℤ x
    → (update_balance a x r).1 ≡ success
unfolding update_balance get_account
update_balance_covered a x f r l h = grind (int_laws, l, h)

pub update_balance_credit :
    (a : Text) (x : ℤ) (r : Registry) → pos 0 ≤ℤ x → (update_balance a x r).1 ≡ success
unfolding update_balance
update_balance_credit a x r h = ground (arith, h)

pub update_balance-stakers :
    (a : Text) (x : ℤ) (r : Registry) → (update_balance a x r).0.stakers ≡ r.stakers
unfolding update_balance
update_balance-stakers a x r = ground arith

pub update_balance-period :
    (a : Text) (x : ℤ) (r : Registry) → (update_balance a x r).0.period ≡ r.period
unfolding update_balance
update_balance-period a x r = ground arith

pub update_balance-min_stake :
    (a : Text) (x : ℤ) (r : Registry) → (update_balance a x r).0.min_stake ≡ r.min_stake
unfolding update_balance
update_balance-min_stake a x r = ground arith

-- What the distribution period has paid.
abbrev pub distributed : Option Period → ℤ
distributed none = pos 0
distributed (some p) = pos p.total_distributed

-- The coins in accounts and stakes, less those that the distribution period has paid.
abbrev pub holdings : Registry → ℤ
holdings r = balances r.funds +ℤ stakes r.stakers -ℤ distributed r.period

abbrev pub IsStaked : ℤ → Staker → Type 0
IsStaked m v = m ≤ℤ v.stake

pub record IsBacked (r : Registry) : Type 0 where
  pub floor : pos 0 ≤ℤ r.min_stake
  pub paid : Every IsPaid r.funds
  pub staked : Every (IsStaked r.min_stake) r.stakers

-- `x` coins came in from outside, and all is in order.
abbrev pub Gains : ℤ → Registry → Registry → Type 0
Gains x r s = IsBacked s × (holdings s ≡ holdings r +ℤ x)

pub get_account-Gains :
    (a : Text) (r : Registry)
    → IsBacked r
    → Gains (pos 0) r (record r { funds = (get_account a r.funds).0 })
get_account-Gains a r b = (
  record { floor = b.floor; paid = get_account-IsPaid a r.funds b.paid; staked = b.staked },
  grind (int_laws, get_account-balances a r.funds),
)

pub update_balance-Gains :
    (a : Text) (x : ℤ) (r : Registry)
    → IsBacked r
    → Gains (credited x (update_balance a x r).1) r (update_balance a x r).0
update_balance-Gains a x r b = (
  record {
    floor = rw (update_balance-min_stake a x r) b.floor;
    paid = update_balance-IsPaid a x r b.paid;
    staked = rw (update_balance-min_stake a x r, update_balance-stakers a x r) b.staked;
  },
  rw (update_balance-stakers a x r, update_balance-period a x r, update_balance-balances a x r)
      (omega int_laws),
)

-- A changed stake, and the opposite change of the balance that goes with it.
pub insert-Gains :
    (a : Text) (v : Staker) (r : Registry)
    → IsBacked r
    → r.min_stake ≤ℤ v.stake
    → Gains
        (v.stake -ℤ at_key (λ (w : Staker). w.stake) (lookup a r.stakers))
        r
        (record r { stakers = insert a v r.stakers })
insert-Gains a v r b h = (
  record {
    floor = b.floor;
    paid = b.paid;
    staked = insert-Every (IsStaked r.min_stake) a v r.stakers h b.staked;
  },
  grind (int_laws, sum_over-insert (λ (w : Staker). w.stake) a v r.stakers),
)
