-- ===== src/Registry/Minting.antt =====
-- `unstakeTokens` of src/consensus/state_machine.js on negative amounts.
use bt2c.Base.{ℕ, suc, ◌≡◌, refl, false, some, arith}
use bt2c.Base.Int.{pos, negsuc, ◌+ℤ◌, ◌-ℤ◌, ◌≤ℤ◌, int_laws}
use bt2c.Base.Text.{Text, is_empty}
use bt2c.Base.Dict.{lookup, insert}
use bt2c.Registry.{
  Funds, Staker, Registry, success, failure, insufficient_balance, get_account, update_balance,
  unstake_tokens, stake_less,
}

overdraft_refused :
    (a : Text) (n : ℕ) (r : Registry) (f : Funds)
    → lookup a r.funds ≡ some f
    → f.balance ≤ℤ pos n
    → update_balance a (negsuc n) r ≡ (r, failure insufficient_balance)
unfolding update_balance get_account
overdraft_refused a n r f l h = grind (int_laws, l, h)

stake_less_negative :
    (a : Text) (n : ℕ) (r : Registry) (v : Staker)
    → pos 0 ≤ℤ v.stake
    → r.min_stake ≤ℤ v.stake
    → stake_less a (negsuc n) r v ≡ (
      (update_balance a
          (negsuc n)
          (record r { stakers = insert a (record v { stake = v.stake -ℤ negsuc n }) r.stakers })).0,
      success,
    )
unfolding stake_less
stake_less_negative a n r v h m = grind (int_laws, h, m)

unstake_tokens_registered :
    (a g : Text) (n : ℕ) (r : Registry) (v : Staker)
    → is_empty a ≡ false
    → is_empty g ≡ false
    → lookup a r.stakers ≡ some v
    → unstake_tokens a (negsuc n) g r ≡ stake_less a (negsuc n) r v
unfolding unstake_tokens
unstake_tokens_registered a g n r v ea eg l = ground (arith, ea, eg, l)

-- An unstaking of a negative amount by a registered validator whose account does not cover it raises the
-- stake by that amount and takes nothing from the account: the call succeeds, and nothing but the stake
-- changes.
pub unstake_mints :
    (a g : Text) (n : ℕ) (r : Registry) (v : Staker) (f : Funds)
    → is_empty a ≡ false
    → is_empty g ≡ false
    → lookup a r.stakers ≡ some v
    → lookup a r.funds ≡ some f
    → f.balance ≤ℤ pos n
    → pos 0 ≤ℤ v.stake
    → r.min_stake ≤ℤ v.stake
    → unstake_tokens a (negsuc n) g r ≡ (
      record r { stakers = insert a (record v { stake = v.stake +ℤ pos (suc n) }) r.stakers },
      success,
    )
unstake_mints a g n r v f ea eg lv lf short h m =
    let same : v.stake -ℤ negsuc n ≡ v.stake +ℤ pos (suc n) = omega int_laws in
    let s = record r { stakers = insert a (record v { stake = v.stake -ℤ negsuc n }) r.stakers } in
    rw
      (
        unstake_tokens_registered a g n r v ea eg lv,
        stake_less_negative a n r v h m,
        overdraft_refused a n s f lf short,
        same,
      )
      refl
