-- ===== src/Registry/Runs.antt =====
-- Sequences of calls on the registry of src/consensus/state_machine.js.
use bt2c.Base.{ℕ, ◌≡◌, refl, ◌||◌, not, some, List, [], ◌∷◌, by_test, by_option, All, leb}
use bt2c.Base.Int.{ℤ, pos, ◌+ℤ◌, ◌≤ℤ◌, int_laws}
use bt2c.Base.Text.{Text, is_empty}
use bt2c.Base.Dict.{lookup, insert}
use bt2c.Base.Totals.{sum_over-insert_same, lookup-Every, insert-Every}
use bt2c.Validator.{ValidatorState, state_eq}
use bt2c.Registry.{
  Funds, Staker, Registry, Reply, success, get_account, update_balance, add_balance, update_nonce,
  is_zero, register_validator, stake_tokens, unstake_tokens, jail_validator, unjail_validator,
  still_serving,
}
use bt2c.Registry.Backing.{
  credited, holdings, IsPaid, IsStaked, IsBacked, Gains, get_account-Gains, get_account-lookup,
  update_balance-Gains,
}
use bt2c.Registry.Steps.{
  Keeps, Gains-refl, add_balance-Gains, register_new-Gains, stake_more-Gains, stake_less-Gains,
}

pub data Call : Type 0 where
  read : Text → Call
  pay_in : Text → ℤ → Call
  reward : Text → ℤ → Call
  set_nonce : Text → ℕ → Call
  register : ℕ → Text → Text → ℤ → Text → Call
  stake_up : Text → ℤ → Text → Call
  stake_down : Text → ℤ → Text → Call
  lock : ℕ → Text → Call
  free : ℕ → Text → Text → Call

unfoldable pub perform : Call → Registry → Registry × Reply
perform (read a) r = (record r { funds = (get_account a r.funds).0 }, success)
perform (pay_in a x) r = update_balance a x r
perform (reward a x) r = add_balance a x r
perform (set_nonce a n) r = update_nonce a n r
perform (register now a k x g) r = register_validator now a k x g r
perform (stake_up a x g) r = stake_tokens a x g r
perform (stake_down a x g) r = unstake_tokens a x g r
perform (lock now a) r = jail_validator now a r
perform (free now a g) r = unjail_validator now a g r

unfoldable pub run : List Call → Registry → Registry
run [] r = r
run (c ∷ cs) r = run cs (perform c r).0

-- What a call brings in from outside: the amount of a change of balance that is carried out.
abbrev pub inflow : Call → Reply → ℤ
inflow (pay_in a x) y = credited x y
inflow (reward a x) y = credited x y
inflow _ y = pos 0

unfoldable pub total_inflow : List Call → Registry → ℤ
total_inflow [] r = pos 0
total_inflow (c ∷ cs) r = inflow c (perform c r).1 +ℤ total_inflow cs (perform c r).0

-- Amounts that are staked and unstaked are not negative.
abbrev pub IsGenuine : Call → Type 0
IsGenuine (stake_up a x g) = pos 0 ≤ℤ x
IsGenuine (stake_down a x g) = pos 0 ≤ℤ x
IsGenuine _ = Unit

update_nonce-Gains :
    (a : Text) (n : ℕ) (r : Registry) → IsBacked r → Gains (pos 0) r (update_nonce a n r).0
unfolding update_nonce
update_nonce-Gains a n r b =
    let (d, f) = get_account a r.funds in
    let g = get_account-Gains a r b in
    let l = get_account-lookup a r.funds in
    let same =
      sum_over-insert_same (λ (w : Funds). w.balance) a (record f { nonce = n }) f d l refl in
    by_test (Keeps r) (leb n f.nonce) _ _ (λ q. g)
      (λ q. (
        record {
          floor = b.floor;
          paid =
              insert-Every IsPaid a (record f { nonce = n }) d
                (lookup-Every IsPaid a f d g.0.paid l) g.0.paid;
          staked = b.staked;
        },
        rw same g.1,
      ))

-- Jailing and unjailing leave the stake.
restatus-Gains :
    (a : Text) (v w : Staker) (r : Registry)
    → IsBacked r
    → lookup a r.stakers ≡ some v
    → w.stake ≡ v.stake
    → Gains (pos 0) r (record r { stakers = insert a w r.stakers })
restatus-Gains a v w r b l e = (
  record {
    floor = b.floor;
    paid = b.paid;
    staked =
        insert-Every (IsStaked r.min_stake) a w r.stakers
          (rw e (lookup-Every (IsStaked r.min_stake) a v r.stakers b.staked l)) b.staked;
  },
  rw (sum_over-insert_same (λ (u : Staker). u.stake) a w v r.stakers l e) (omega int_laws),
)

jail_validator-Gains :
    (now : ℕ) (a : Text) (r : Registry) → IsBacked r → Gains (pos 0) r (jail_validator now a r).0
unfolding jail_validator
jail_validator-Gains now a r b =
    by_option (Keeps r) (lookup a r.stakers) _ _ (λ l. Gains-refl r b)
      (λ v l. restatus-Gains a v _ r b l refl)

unjail_validator-Gains :
    (now : ℕ) (a g : Text) (r : Registry)
    → IsBacked r
    → Gains (pos 0) r (unjail_validator now a g r).0
unfolding unjail_validator
unjail_validator-Gains now a g r b =
    by_test (Keeps r) (is_empty a || is_empty g) _ _ (λ q. Gains-refl r b)
      (λ q.
        by_option (Keeps r) (lookup a r.stakers) _ _ (λ l. Gains-refl r b)
          (λ v l.
            by_test (Keeps r) (not (state_eq v.status ValidatorState.jailed)) _ _
              (λ q'. Gains-refl r b)
              (λ q'.
                by_test (Keeps r) (still_serving now v.jailed_until) _ _ (λ q''. Gains-refl r b)
                  (λ q''. restatus-Gains a v _ r b l refl))))

register_validator-Gains :
    (now : ℕ) (a k : Text) (x : ℤ) (g : Text) (r : Registry)
    → IsBacked r
    → Gains (pos 0) r (register_validator now a k x g r).0
unfolding register_validator
register_validator-Gains now a k x g r b =
    by_test (Keeps r) (is_empty a || is_empty k || is_zero x || is_empty g) _ _
      (λ q. Gains-refl r b)
      (λ q.
        by_option (Keeps r) (lookup a r.stakers) _ _ (λ l. register_new-Gains now a k x r b l)
          (λ v l. Gains-refl r b))

stake_tokens-Gains :
    (a : Text) (x : ℤ) (g : Text) (r : Registry)
    → IsBacked r
    → pos 0 ≤ℤ x
    → Gains (pos 0) r (stake_tokens a x g r).0
unfolding stake_tokens
stake_tokens-Gains a x g r b h =
    by_test (Keeps r) (is_empty a || is_zero x || is_empty g) _ _ (λ q. Gains-refl r b)
      (λ q.
        by_option (Keeps r) (lookup a r.stakers) _ _ (λ l. Gains-refl r b)
          (λ v l. stake_more-Gains a x r v b l h))

unstake_tokens-Gains :
    (a : Text) (x : ℤ) (g : Text) (r : Registry)
    → IsBacked r
    → pos 0 ≤ℤ x
    → Gains (pos 0) r (unstake_tokens a x g r).0
unfolding unstake_tokens
unstake_tokens-Gains a x g r b h =
    by_test (Keeps r) (is_empty a || is_zero x || is_empty g) _ _ (λ q. Gains-refl r b)
      (λ q.
        by_option (Keeps r) (lookup a r.stakers) _ _ (λ l. Gains-refl r b)
          (λ v l. stake_less-Gains a x r v b l h))

perform-Gains :
    (c : Call) (r : Registry)
    → IsBacked r
    → IsGenuine c
    → Gains (inflow c (perform c r).1) r (perform c r).0
unfolding perform
perform-Gains (read a) r b h = get_account-Gains a r b
perform-Gains (pay_in a x) r b h = update_balance-Gains a x r b
perform-Gains (reward a x) r b h = add_balance-Gains a x r b
perform-Gains (set_nonce a n) r b h = update_nonce-Gains a n r b
perform-Gains (register now a k x g) r b h = register_validator-Gains now a k x g r b
perform-Gains (stake_up a x g) r b h = stake_tokens-Gains a x g r b h
perform-Gains (stake_down a x g) r b h = unstake_tokens-Gains a x g r b h
perform-Gains (lock now a) r b h = jail_validator-Gains now a r b
perform-Gains (free now a g) r b h = unjail_validator-Gains now a g r b

-- After any calls that neither stake nor unstake a negative amount, from a state in which no balance is
-- negative and every stake has the minimum, that holds still, and the coins in accounts and stakes,
-- less those that the distribution period has paid, changed by exactly what the calls of
-- `updateBalance` and `addBalance` brought in or took out: staking, registering, unstaking, jailing and
-- unjailing create and destroy nothing.
pub run-IsBacked :
    (cs : List Call) (r : Registry)
    → IsBacked r
    → All IsGenuine cs
    → IsBacked (run cs r) × (holdings (run cs r) ≡ holdings r +ℤ total_inflow cs r)
unfolding run total_inflow
run-IsBacked [] r b h = Gains-refl r b
run-IsBacked (c ∷ cs) r b h =
    let g = perform-Gains c r b h.0 in
    let (b', e) = run-IsBacked cs (perform c r).0 g.0 h.1 in (b', rw (e, g.1) (omega int_laws))
