-- ===== src/Tests/OnManager.antt =====
-- The theorems on the validator manager (src/blockchain/validator_manager.js) at concrete calls.
use bt2c.Base.{ℕ, List, [], ◌∷◌, arith}
use bt2c.Base.Int.{ℤ, pos, ◌+ℤ◌, ltb_ℤ, leb_ℤ}
use bt2c.Base.Text.{Text}
use bt2c.Manager.Types.{Reals}
use bt2c.Manager.{new_manager, refresh, select_validator}
use bt2c.Manager.Counting.{refresh-IsCurrent}
use bt2c.Manager.Service.{IsServing}
use bt2c.Manager.Runs.{
  Call, register, switch_on, lock, select, restake, pay_reward, remove, run, run-IsServing,
  hooks_of, Fits, manager_serves,
}
use bt2c.Consensus.Loads.{IsManaged}
use bt2c.Tests.{alice, bob, carol}

-- Integers in the place of the floating-point numbers: a quotient is its numerator.
abbrev integers : Reals
integers = record {
  Real = ℤ;
  number = λ (x : ℤ). x;
  plus = λ (x y : ℤ). x +ℤ y;
  times = λ (x y : ℤ). x;
  over = λ (x y : ℤ). x;
  at_most = λ (x y : ℤ). leb_ℤ x y;
  less = λ (x y : ℤ). ltb_ℤ x y;
}

-- Three register, two become active, one is jailed, and one is selected.
abbrev day : List Call
day =
    register 1 alice (1 ∷ []) (pos 5) []
    ∷ register 2 bob (2 ∷ []) (pos 9) []
    ∷ register 3 carol (3 ∷ []) (pos 4) []
    ∷ switch_on 4 alice
    ∷ switch_on 5 bob
    ∷ lock 6 carol 60
    ∷ select integers (pos 7)
    ∷ restake bob (pos 20)
    ∷ pay_reward 100 1 alice
    ∷ remove carol
    ∷ []

fresh-IsServing : IsServing (refresh (new_manager 100 alice (pos 1)))
unfolding new_manager refresh
fresh-IsServing = record {
  current = refresh-IsCurrent (new_manager 100 alice (pos 1));
  filed = (tt, tt);
  recent = omega arith;
}

run-IsServing_example : IsServing (run day (refresh (new_manager 100 alice (pos 1))))
run-IsServing_example = run-IsServing day (refresh (new_manager 100 alice (pos 1))) fresh-IsServing

manager_serves_example :
    IsManaged
      (hooks_of integers
        (λ (h r t : ℕ). pos t)
        (λ (h t : ℕ) (a : Text). a)
        (run day (refresh (new_manager 100 alice (pos 1))))).get_validators
    × Fits
        (run day (refresh (new_manager 100 alice (pos 1))))
        (select_validator integers (pos 7) (run day (refresh (new_manager 100 alice (pos 1))))).1
manager_serves_example =
    manager_serves day (refresh (new_manager 100 alice (pos 1))) integers (λ (h r t : ℕ). pos t)
      (λ (h t : ℕ) (a : Text). a) (pos 7) fresh-IsServing
