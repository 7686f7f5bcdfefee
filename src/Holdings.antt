-- ===== src/Holdings.antt =====
-- `class Account` of src/blockchain/account.js: balance, nonce and stake of one account. A method that
-- changes the object returns the new record and its result; `Date.now()` is the argument `now`.
-- Amounts count base units.
pub mod Books
use bt2c.Base.{ℕ, ◌+◌, Bool, true, false, ◌||◌, if◌then◌else◌}
use bt2c.Base.Int.{ℤ, pos, ◌+ℤ◌, ◌-ℤ◌, ltb_ℤ, leb_ℤ}
use bt2c.Base.Text.{Text}

pub record Holder : Type 0 where
  pub address : Text
  pub balance : ℤ
  pub nonce : ℕ
  pub stake : ℤ
  pub created_at : ℕ
  pub last_updated : ℕ

-- The fields of `toJSON()`.
pub record HolderData : Type 0 where
  pub address : Text
  pub balance : ℤ
  pub nonce : ℕ
  pub stake : ℤ
  pub created_at : ℕ
  pub last_updated : ℕ

unfoldable pub new_holder : ℕ → Text → ℤ → ℕ → ℤ → Holder
new_holder now address balance nonce stake = record {
  address = address;
  balance = balance;
  nonce = nonce;
  stake = stake;
  created_at = now;
  last_updated = now;
}

unfoldable pub deposit : ℕ → ℤ → Holder → Holder × Bool
deposit now amount h =
    if leb_ℤ amount (pos 0)
    then (h, false)
    else (record h { balance = h.balance +ℤ amount; last_updated = now }, true)

unfoldable pub subtract_balance : ℕ → ℤ → Holder → Holder × Bool
subtract_balance now amount h =
    if leb_ℤ amount (pos 0) || ltb_ℤ h.balance amount
    then (h, false)
    else (record h { balance = h.balance -ℤ amount; last_updated = now }, true)

unfoldable pub increment_nonce : ℕ → Holder → Holder
increment_nonce now h = record h { nonce = h.nonce + 1; last_updated = now }

unfoldable pub add_stake : ℕ → ℤ → Holder → Holder × Bool
add_stake now amount h = if leb_ℤ amount (pos 0) || ltb_ℤ h.balance amount then (h, false) else (
  record h { balance = h.balance -ℤ amount; stake = h.stake +ℤ amount; last_updated = now },
  true,
)

unfoldable pub remove_stake : ℕ → ℤ → Holder → Holder × Bool
remove_stake now amount h = if leb_ℤ amount (pos 0) || ltb_ℤ h.stake amount then (h, false) else (
  record h { stake = h.stake -ℤ amount; balance = h.balance +ℤ amount; last_updated = now },
  true,
)

unfoldable pub has_sufficient_balance : ℤ → Holder → Bool
has_sufficient_balance amount h = leb_ℤ amount h.balance

unfoldable pub has_sufficient_stake : ℤ → Holder → Bool
has_sufficient_stake amount h = leb_ℤ amount h.stake

unfoldable pub to_json : Holder → HolderData
to_json h = record {
  address = h.address;
  balance = h.balance;
  nonce = h.nonce;
  stake = h.stake;
  created_at = h.created_at;
  last_updated = h.last_updated;
}

unfoldable pub from_json : ℕ → HolderData → Holder
unfolding new_holder
from_json now d = record (new_holder now d.address d.balance d.nonce d.stake) {
  created_at = d.created_at;
  last_updated = d.last_updated;
}
