-- ===== src/Registry/Steps.antt =====
-- What the steps of the calls do to the coins of src/consensus/state_machine.js.
use mathlib.Core.Path.{subst}
use bt2c.Base.{ℕ, ◌≡◌, ◌∙◌, ap, Bool, none, some, inl, inr, arith, by_test, Option-cases, false}
use bt2c.Base.Int.{ℤ, pos, ◌+ℤ◌, ◌-ℤ◌, ◌≤ℤ◌, ltb_ℤ, leb_ℤ, int_laws}
use bt2c.Base.Text.{Text, text_eq}
use bt2c.Base.Dict.{lookup, insert}
use bt2c.Base.Totals.{at_key, lookup-Every}
use bt2c.Distribution.{Period, RewardType, is_active, check_eligibility, record_reward}
use bt2c.Distribution.Tally.{Eligibility-cases, process_refused, process_granted}
use bt2c.Validator.{ValidatorState}
use bt2c.Registry.{
  Staker, Registry, Reply, success, get_account, update_balance, add_balance, pay_through,
  pay_within, pay_newcomer, register_new, stake_more, stake_less,
}
use bt2c.Registry.Backing.{
  credited, distributed, IsStaked, IsBacked, Gains, get_account-Gains, update_balance-Gains,
  insert-Gains, get_account-lookup, update_balance_covered, update_balance_credit,
  update_balance-period,
}

record_reward-distributed :
    (k : RewardType) (a : Text) (x : ℕ) (p : Period)
    → distributed (some (record_reward a k x p)) ≡ distributed (some p) +ℤ pos x
unfolding record_reward
record_reward-distributed RewardType.developer a x p = omega int_laws
record_reward-distributed RewardType.validator a x p = omega int_laws

abbrev pub Keeps : Registry → Registry × Reply → Type 0
Keeps r p = Gains (pos 0) r p.0

pub Gains-refl : (r : Registry) → IsBacked r → Gains (pos 0) r r
Gains-refl r b = (b, omega int_laws)

pub Gains-still : (r s t : Registry) → Gains (pos 0) r s → Gains (pos 0) s t → Gains (pos 0) r t
Gains-still r s t g h = (h.0, rw (h.1, g.1) (omega int_laws))

pub add_balance-Gains :
    (a : Text) (x : ℤ) (r : Registry)
    → IsBacked r
    → Gains (credited x (add_balance a x r).1) r (add_balance a x r).0
unfolding add_balance
add_balance-Gains a x r b =
    by_test (λ (p : Registry × Reply). Gains (credited x p.1) r p.0) _ _ _ (λ q. Gains-refl r b)
      (λ q. update_balance-Gains a x r b)

pay_through-Gains :
    (a : Text) (x : ℕ) (r : Registry) → IsBacked r → Gains (pos x) r (pay_through a x r)
unfolding add_balance
pay_through-Gains a x r b =
    by_test (λ (p : Registry × Reply). Gains (pos x) r p.0) (leb_ℤ (pos x) (pos 0)) _ _
      (λ q. (b, grind (int_laws, q)))
      (λ q.
        subst (λ (y : Reply). Gains (credited (pos x) y) r (update_balance a (pos x) r).0)
          (update_balance_credit a (pos x) r (omega arith)) (update_balance-Gains a (pos x) r b))

add_balance-period : (a : Text) (x : ℤ) (r : Registry) → (add_balance a x r).0.period ≡ r.period
unfolding add_balance
add_balance-period a x r = ground (arith, update_balance-period a x r)

-- The period's counter and the coins it pays change together.
pay_within-Gains :
    (now : ℕ) (a : Text) (r : Registry) (p : Period)
    → r.period ≡ some p
    → IsBacked r
    → Gains (pos 0) r (pay_within now a r p)
unfolding pay_within
pay_within-Gains now a r p h b =
    let dev : Bool = text_eq a r.developer in
    by_test (Gains (pos 0) r) (is_active now p) _ _
      (λ q. elim (Eligibility-cases (check_eligibility now a dev p)) [
        | inl (f, e) ↦
            rw (process_refused (λ a x s. (pay_through a x s, false)) now a dev p r f e)
              (record { floor = b.floor; paid = b.paid; staked = b.staked }, rw h (omega int_laws))
        | inr (k, x, e) ↦
            let g = pay_through-Gains a x r b in
            let s = pay_through a x r in
            rw (process_granted (λ a x s. (pay_through a x s, false)) now a dev p r k x e) (
              record { floor = g.0.floor; paid = g.0.paid; staked = g.0.staked },
              grind (
                int_laws,
                g.1,
                record_reward-distributed k a x p,
                ap distributed (add_balance-period a (pos x) r ∙ h),
                ap distributed h,
              ),
            )
      ])
      (λ q. Gains-refl r b)

pay_newcomer_alone :
    (now : ℕ) (a : Text) (r : Registry) → r.period ≡ none → pay_newcomer now a r ≡ r
unfolding pay_newcomer
pay_newcomer_alone now a r e = ground (arith, e)

pay_newcomer_during :
    (now : ℕ) (a : Text) (r : Registry) (p : Period)
    → r.period ≡ some p
    → pay_newcomer now a r ≡ pay_within now a r p
unfolding pay_newcomer
pay_newcomer_during now a r p e = ground (arith, e)

pay_newcomer-Gains :
    (now : ℕ) (a : Text) (r : Registry) → IsBacked r → Gains (pos 0) r (pay_newcomer now a r)
pay_newcomer-Gains now a r b = elim (Option-cases r.period) [
  | inl e ↦ rw (pay_newcomer_alone now a r e) (Gains-refl r b)
  | inr (p, e) ↦ rw (pay_newcomer_during now a r p e) (pay_within-Gains now a r p e b)
]

-- A stake is put under an address, and its change is paid from or to the account there.
restake-Gains :
    (a : Text) (x : ℤ) (v : Staker) (r : Registry)
    → IsBacked r
    → r.min_stake ≤ℤ v.stake
    → v.stake -ℤ at_key (λ (w : Staker). w.stake) (lookup a r.stakers) +ℤ x ≡ pos 0
    → (update_balance a x (record r { stakers = insert a v r.stakers })).1 ≡ success
    → Gains (pos 0) r (update_balance a x (record r { stakers = insert a v r.stakers })).0
restake-Gains a x v r b h d ok =
    let s = record r { stakers = insert a v r.stakers } in
    let g = insert-Gains a v r b h in
    let u = update_balance-Gains a x s g.0 in
    (u.0, grind (int_laws, u.1, g.1, d, ap (credited x) ok))

pub register_new-Gains :
    (now : ℕ) (a k : Text) (x : ℤ) (r : Registry)
    → IsBacked r
    → lookup a r.stakers ≡ none
    → Gains (pos 0) r (register_new now a k x r).0
unfolding register_new
register_new-Gains now a k x r b l =
    let (d, f) = get_account a r.funds in
    let s = record r { funds = d } in
    let read : Gains (pos 0) r s = get_account-Gains a r b in
    let v : Staker = record {
      public_key = k;
      stake = x;
      status = ValidatorState.active;
      jailed_until = none;
      missed_blocks = 0;
      last_active = now;
    } in
    by_test (Keeps r) (ltb_ℤ f.balance x) _ _ (λ q. read)
      (λ q.
        by_test (Keeps r) (ltb_ℤ x r.min_stake) _ _ (λ q'. read)
          (λ q'.
            let paid =
              restake-Gains a (pos 0 -ℤ x) v s read.0 (ground (arith, q')) (rw l (omega int_laws)) (
                update_balance_covered a (pos 0 -ℤ x) f
                  (record s { stakers = insert a v s.stakers }) (get_account-lookup a r.funds)
                  (grind (int_laws, q))) in
            let s2 =
              (update_balance a (pos 0 -ℤ x) (record s { stakers = insert a v s.stakers })).0 in
            Gains-still r s (pay_newcomer now a s2) read
              (Gains-still s s2 (pay_newcomer now a s2) paid (pay_newcomer-Gains now a s2 paid.0))))

pub stake_more-Gains :
    (a : Text) (x : ℤ) (r : Registry) (v : Staker)
    → IsBacked r
    → lookup a r.stakers ≡ some v
    → pos 0 ≤ℤ x
    → Gains (pos 0) r (stake_more a x r v).0
unfolding stake_more
stake_more-Gains a x r v b l h =
    let (d, f) = get_account a r.funds in
    let s = record r { funds = d } in
    let read : Gains (pos 0) r s = get_account-Gains a r b in
    let w : Staker = record v { stake = v.stake +ℤ x } in
    by_test (Keeps r) (ltb_ℤ f.balance x) _ _ (λ q. read)
      (λ q.
        let low : r.min_stake ≤ℤ v.stake =
          lookup-Every (IsStaked r.min_stake) a v r.stakers b.staked l in
        let paid =
          restake-Gains a (pos 0 -ℤ x) w s read.0 (grind (int_laws, low, h)) (rw l (omega int_laws))
            (update_balance_covered a (pos 0 -ℤ x) f (record s { stakers = insert a w s.stakers })
              (get_account-lookup a r.funds) (grind (int_laws, q))) in
        Gains-still r s
          (update_balance a (pos 0 -ℤ x) (record s { stakers = insert a w s.stakers })).0 read paid)

pub stake_less-Gains :
    (a : Text) (x : ℤ) (r : Registry) (v : Staker)
    → IsBacked r
    → lookup a r.stakers ≡ some v
    → pos 0 ≤ℤ x
    → Gains (pos 0) r (stake_less a x r v).0
unfolding stake_less
stake_less-Gains a x r v b l h =
    by_test (Keeps r) (ltb_ℤ v.stake x) _ _ (λ q. Gains-refl r b)
      (λ q.
        by_test (Keeps r) (ltb_ℤ (v.stake -ℤ x) r.min_stake) _ _ (λ q'. Gains-refl r b)
          (λ q'.
            restake-Gains a x (record v { stake = v.stake -ℤ x }) r b (grind (int_laws, q'))
              (rw l (omega int_laws)) (update_balance_credit a x _ h)))
