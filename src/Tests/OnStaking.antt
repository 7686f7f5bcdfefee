-- ===== src/Tests/OnStaking.antt =====
-- The theorems on stakes and registration (src/blockchain/state_machine.js) at concrete states.
use bt2c.Base.{◌≡◌, refl, Bool, some, [], ◌∷◌, arith, if◌then◌else◌}
use bt2c.Base.Int.{ℤ, pos, negsuc, ◌+ℤ◌, ◌-ℤ◌}
use bt2c.Base.Text.{text_eq}
use bt2c.Base.Dict.{lookup}
use bt2c.Validator.{Validator}
use bt2c.Ledger.Types.{State, invalid_nonce, type_error}
use bt2c.Ledger.Accounts.{account}
use bt2c.Ledger.Sums.{balance_of, stake_of, at}
use bt2c.Ledger.Supply.{funds}
use bt2c.Staking.{update_account_stake, register_validator, jail_validator, tombstone_validator}
use bt2c.Staking.Stakes.{IsSolvent, update_account_stake_moves, update_account_stake-IsSolvent}
use bt2c.Staking.Registration.{granted, register_validator_pays, jail_after_rollback}
use bt2c.Tests.{alice, bob, carol, start, carol_entry, carol_validator, clash_block}
use bt2c.Tests.OnLedger.{after_clash, rejects_clash_block}

-- Alice unstakes 3 of her 5.
abbrev unstaked : State × Bool
unstaked = update_account_stake 9 alice (negsuc 2) start

update_account_stake_moves_example :
    let moved : ℤ = if unstaked.1 then at alice alice (negsuc 2) else pos 0 in
    (balance_of alice unstaked.0.accounts ≡ balance_of alice start.accounts -ℤ moved)
    × (stake_of alice unstaked.0.accounts ≡ stake_of alice start.accounts +ℤ moved)
update_account_stake_moves_example = update_account_stake_moves 9 alice (negsuc 2) start alice

start-IsSolvent : IsSolvent start
unfolding account text_eq
start-IsSolvent j = ground arith

update_account_stake-IsSolvent_example : IsSolvent unstaked.0
update_account_stake-IsSolvent_example =
    update_account_stake-IsSolvent 9 alice (negsuc 2) start start-IsSolvent

abbrev bob_validator : Validator
bob_validator = record carol_validator { address = bob }

abbrev registered : State × Bool
registered = register_validator 9 bob_validator start

register_validator_pays_example :
    (funds registered.0 ≡ funds start +ℤ granted 9 start registered.1)
    × (registered.0.total_supply ≡ pos 100 +ℤ granted 9 start registered.1)
register_validator_pays_example = register_validator_pays 9 bob_validator start

carol_listed : lookup carol start.validators ≡ some carol_entry
unfolding text_eq
carol_listed = refl

jail_after_rollback_example :
    (jail_validator 20 carol 60 after_clash ≡ (after_clash, type_error))
    × (tombstone_validator carol after_clash ≡ (after_clash, type_error))
jail_after_rollback_example =
    jail_after_rollback 9 clash_block start (117 ∷ []) invalid_nonce carol carol_entry 20 60
      rejects_clash_block carol_listed
