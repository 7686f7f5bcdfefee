-- ===== src/Holdings/Books.antt =====
-- The books of an account (src/blockchain/account.js) under any calls of its methods.
use bt2c.Base.{ℕ, ◌≡◌, refl, ◌∙◌, true, false, arith, List, [], ◌∷◌, if◌then◌else◌}
use bt2c.Base.Int.{ℤ, pos, ◌+ℤ◌, ◌-ℤ◌, ◌≤ℤ◌, ltb_ℤ, leb_ℤ, int_laws}
use bt2c.Holdings.{
  Holder, deposit, subtract_balance, increment_nonce, add_stake, remove_stake, to_json, from_json,
  has_sufficient_balance, new_holder,
}

pub data HolderCall : Type 0 where
  deposit_call subtract_call stake_call unstake_call : ℕ → ℤ → HolderCall
  nonce_call : ℕ → HolderCall

unfoldable pub act : HolderCall → Holder → Holder
act (deposit_call now x) h = (deposit now x h).0
act (subtract_call now x) h = (subtract_balance now x h).0
act (stake_call now x) h = (add_stake now x h).0
act (unstake_call now x) h = (remove_stake now x h).0
act (nonce_call now) h = increment_nonce now h

unfoldable pub act_all : List HolderCall → Holder → Holder
act_all [] h = h
act_all (c ∷ cs) h = act_all cs (act c h)

-- What a call brings in from outside, less what it takes out.
unfoldable pub inflow : HolderCall → Holder → ℤ
inflow (deposit_call now x) h = if (deposit now x h).1 then x else pos 0
inflow (subtract_call now x) h = if (subtract_balance now x h).1 then pos 0 -ℤ x else pos 0
inflow _ h = pos 0

unfoldable pub inflows : List HolderCall → Holder → ℤ
inflows [] h = pos 0
inflows (c ∷ cs) h = inflow c h +ℤ inflows cs (act c h)

pub record IsCovered (h : Holder) : Type 0 where
  pub balance_low : pos 0 ≤ℤ h.balance
  pub stake_low : pos 0 ≤ℤ h.stake

balance-act : (c : HolderCall) (h : Holder) → IsCovered h → pos 0 ≤ℤ (act c h).balance
unfolding act deposit subtract_balance add_stake remove_stake increment_nonce
balance-act (deposit_call now x) h i = grind (int_laws, i.balance_low, i.stake_low)
balance-act (subtract_call now x) h i = grind (int_laws, i.balance_low, i.stake_low)
balance-act (stake_call now x) h i = grind (int_laws, i.balance_low, i.stake_low)
balance-act (unstake_call now x) h i = grind (int_laws, i.balance_low, i.stake_low)
balance-act (nonce_call now) h i = i.balance_low

stake-act : (c : HolderCall) (h : Holder) → IsCovered h → pos 0 ≤ℤ (act c h).stake
unfolding act deposit subtract_balance add_stake remove_stake increment_nonce
stake-act (deposit_call now x) h i = grind (int_laws, i.balance_low, i.stake_low)
stake-act (subtract_call now x) h i = grind (int_laws, i.balance_low, i.stake_low)
stake-act (stake_call now x) h i = grind (int_laws, i.balance_low, i.stake_low)
stake-act (unstake_call now x) h i = grind (int_laws, i.balance_low, i.stake_low)
stake-act (nonce_call now) h i = i.stake_low

act-IsCovered : (c : HolderCall) (h : Holder) → IsCovered h → IsCovered (act c h)
act-IsCovered c h i = record { balance_low = balance-act c h i; stake_low = stake-act c h i }

act_funds :
    (c : HolderCall) (h : Holder)
    → (act c h).balance +ℤ (act c h).stake ≡ h.balance +ℤ h.stake +ℤ inflow c h
unfolding act inflow deposit subtract_balance add_stake remove_stake increment_nonce
act_funds (deposit_call now x) h = grind int_laws
act_funds (subtract_call now x) h = grind int_laws
act_funds (stake_call now x) h = grind int_laws
act_funds (unstake_call now x) h = grind int_laws
act_funds (nonce_call now) h = grind int_laws

act_all-IsCovered : (cs : List HolderCall) (h : Holder) → IsCovered h → IsCovered (act_all cs h)
unfolding act_all
act_all-IsCovered [] h i = i
act_all-IsCovered (c ∷ cs) h i = act_all-IsCovered cs (act c h) (act-IsCovered c h i)

act_all_funds :
    (cs : List HolderCall) (h : Holder)
    → (act_all cs h).balance +ℤ (act_all cs h).stake ≡ h.balance +ℤ h.stake +ℤ inflows cs h
unfolding act_all inflows
act_all_funds [] h = omega int_laws
act_all_funds (c ∷ cs) h = act_all_funds cs (act c h) ∙ rw (act_funds c h) (omega int_laws)

-- If neither the balance nor the stake of an account is negative, then neither is after any calls;
-- and their sum has changed by exactly what the successful calls of `addBalance` added and those of
-- `subtractBalance` took away, however much was staked and unstaked in between.
pub holdings_kept :
    (cs : List HolderCall) (h : Holder)
    → IsCovered h
    → IsCovered (act_all cs h)
      × ((act_all cs h).balance +ℤ (act_all cs h).stake ≡ h.balance +ℤ h.stake +ℤ inflows cs h)
holdings_kept cs h i = (act_all-IsCovered cs h i, act_all_funds cs h)

-- A positive amount that the balance covers can be staked and unstaked again, which leaves the
-- balance and the stake as they were, if the stake is not negative; and an account that is written
-- as JSON data and read back at any time has all its fields again.
pub stake_round_trip :
    (now later : ℕ) (amount : ℤ) (h : Holder)
    → leb_ℤ amount (pos 0) ≡ false
    → has_sufficient_balance amount h ≡ true
    → pos 0 ≤ℤ h.stake
    → let staked = add_stake now amount h in
      let back = remove_stake later amount staked.0 in
      (staked.1 ≡ true)
      × (back.1 ≡ true)
      × (back.0.balance ≡ h.balance)
      × (back.0.stake ≡ h.stake)
      × (from_json later (to_json h) ≡ h)
unfolding add_stake remove_stake has_sufficient_balance from_json to_json new_holder
stake_round_trip now later amount h p b s =
    let c : ltb_ℤ h.balance amount ≡ false = ground (arith, b) in
    let d : ltb_ℤ (h.stake +ℤ amount) amount ≡ false = grind (int_laws, s) in
    simp (p, c, d) (refl, refl, omega int_laws, omega int_laws, refl)
