-- ===== src/Ledger/Accounts.antt =====
-- The map of accounts of src/blockchain/state_machine.js: `getOrCreateAccount`, and a write through
-- the object that it returns, which is shared with the map.
use bt2c.Base.{ℕ, none, some, if◌then◌else◌}
use bt2c.Base.Int.{ℤ, pos, ◌+ℤ◌}
use bt2c.Base.Text.{Text}
use bt2c.Base.Dict.{Dict, lookup, contains, insert}
use bt2c.Ledger.Types.{Account}

abbrev pub new_account : ℕ → Text → Account
new_account now a = record {
  address = a;
  balance = pos 0;
  nonce = 0;
  stake = pos 0;
  created_at = now;
  updated_at = now;
}

-- `getOrCreateAccount`: the map in which the account is present
unfoldable pub ensure : ℕ → Text → Dict Account → Dict Account
ensure now a d = if contains a d then d else insert a (new_account now a) d

-- The account that `getOrCreateAccount` returned, read from the map in which it is present.
unfoldable pub account : Text → Dict Account → Account
account a d = elim (lookup a d) [ none ↦ new_account 0 a | some x ↦ x ]

-- A write to the fields of a present account.
unfoldable pub modify : Text → (Account → Account) → Dict Account → Dict Account
modify a f d = elim (lookup a d) [ none ↦ d | some x ↦ insert a (f x) d ]

abbrev pub add_balance : ℤ → Account → Account
add_balance x a = record a { balance = a.balance +ℤ x }

abbrev pub set_nonce : ℕ → Account → Account
set_nonce n a = record a { nonce = n }
