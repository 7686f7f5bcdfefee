-- ===== src/Tests/OnValidator.antt =====
-- The theorems on a validator (src/blockchain/validator.js) at concrete calls.
use bt2c.Base.{◌≡◌, refl, false, [], ◌∷◌, arith}
use bt2c.Base.Int.{pos}
use bt2c.Validator.{ValidatorState, Validator, jail, try_unjail, activate, new}
use bt2c.Validator.Lifecycle.{
  update_reputation_call, activate_call, try_unjail_call, perform, perform_all, tombstoned_forever,
  jail_term,
}
use bt2c.Validator.Reputation.{IsBounded, new-IsBounded, perform-IsBounded}
use bt2c.Tests.{carol_validator}

abbrev banned : Validator
banned = record carol_validator { state = ValidatorState.tombstoned }

tombstoned_forever_example :
    (perform_all (try_unjail_call 50 ∷ activate_call 60 ∷ []) banned).state
    ≡ ValidatorState.tombstoned
tombstoned_forever_example =
    tombstoned_forever (try_unjail_call 50 ∷ activate_call 60 ∷ []) banned
      ((λ j. j), ((λ j. j), tt)) refl

jail_term_example :
    ((perform_all (try_unjail_call 50 ∷ activate_call 70 ∷ []) (jail 7 60 carol_validator)).state
      ≡ ValidatorState.jailed)
    × ((activate 90000 (try_unjail 90000 (jail 7 60 carol_validator)).0).0.state
        ≡ ValidatorState.active)
jail_term_example =
    jail_term (try_unjail_call 50 ∷ activate_call 70 ∷ []) carol_validator 7 60 90000
      (omega arith, (tt, tt)) (omega arith)

new-IsBounded_example : IsBounded (new 4 (99 ∷ []) (1 ∷ []) (pos 7) [])
new-IsBounded_example = new-IsBounded 4 carol_validator

perform-IsBounded_example :
    IsBounded
      (perform (update_reputation_call false 90000 100000) (new 4 (99 ∷ []) (1 ∷ []) (pos 7) []))
perform-IsBounded_example =
    perform-IsBounded (update_reputation_call false 90000 100000)
      (new 4 (99 ∷ []) (1 ∷ []) (pos 7) []) (new-IsBounded 4 carol_validator)
