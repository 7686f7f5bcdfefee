-- ===== src/Tests/OnRegistry.antt =====
-- The theorems on the distribution period and the registry (src/consensus/distribution.js and
-- src/consensus/state_machine.js) at concrete states.
use bt2c.Base.{◌≡◌, refl, true, false, some, none, List, [], ◌∷◌, arith, ℕ, Bool}
use bt2c.Base.Int.{pos, negsuc, ◌+ℤ◌}
use bt2c.Base.Text.{text_eq, Text}
use bt2c.Base.Dict.{lookup, insert}
use bt2c.Distribution.{
  PeriodOptions, Period, RewardType, Refusal, rewarded, refused, new_period, is_active,
  check_eligibility, record_reward, process_reward,
}
use bt2c.Distribution.Tally.{Request, serve, IsTally, rewards-IsTally, reward_once}
use bt2c.Registry.{Staker, Registry, success, unstake_tokens, pay_through}
use bt2c.Registry.Backing.{IsBacked, holdings}
use bt2c.Registry.Runs.{
  Call, register, stake_up, stake_down, reward, lock, free, run, total_inflow, run-IsBacked,
}
use bt2c.Registry.Minting.{unstake_mints}
use bt2c.Validator.{ValidatorState}
use bt2c.Tests.{alice, bob}

abbrev period_options : PeriodOptions
period_options = record {
  duration = 1000;
  start_time = 0;
  developer_address = alice;
  developer_reward = 100;
  validator_reward = 1;
}

abbrev bob_staker : Staker
bob_staker = record {
  public_key = 1 ∷ [];
  stake = pos 5;
  status = ValidatorState.active;
  jailed_until = none;
  missed_blocks = 0;
  last_active = 0;
}

abbrev registry : Registry
registry = record {
  min_stake = pos 1;
  jail_duration = 10;
  funds =
      (alice, record { balance = pos 50; nonce = 0 })
      ∷ (bob, record { balance = pos 2; nonce = 0 })
      ∷ [];
  stakers = (bob, bob_staker) ∷ [];
  developer = alice;
  period = some (new_period period_options);
}

-- Alice asks as the developer, then as a validator; bob asks twice.
abbrev paying : Text → ℕ → Registry → Registry × Bool
paying a x s = (pay_through a x s, false)

abbrev requests : List Request
requests = (5, alice, true) ∷ (6, alice, false) ∷ (7, bob, false) ∷ (8, bob, false) ∷ []

rewards-IsTally_example : IsTally (serve paying requests (new_period period_options, registry)).0
rewards-IsTally_example = rewards-IsTally paying period_options requests registry

abbrev served : Period × Registry
served =
    serve paying ((6, bob, false) ∷ [])
      (process_reward paying 5 alice true (new_period period_options, registry)).0

alice-rewarded :
    (process_reward paying 5 alice true (new_period period_options, registry)).1
    ≡ rewarded alice 100 RewardType.developer 5
unfolding process_reward check_eligibility new_period is_active text_eq record_reward
alice-rewarded = refl

reward_once_example :
    (r : Refusal) × (process_reward paying 7 alice false served ≡ (served, refused r))
reward_once_example =
    reward_once paying 5 7 alice true false ((6, bob, false) ∷ []) (new_period period_options)
      registry 100 5 RewardType.developer alice-rewarded

-- Alice registers with 20, stakes 5 and unstakes 10; bob is jailed, freed and rewarded.
abbrev calls : List Call
calls =
    register 3 alice (2 ∷ []) (pos 20) (9 ∷ [])
    ∷ stake_up alice (pos 5) (9 ∷ [])
    ∷ stake_down alice (pos 10) (9 ∷ [])
    ∷ lock 4 bob
    ∷ free 20000 bob (9 ∷ [])
    ∷ reward bob (pos 3)
    ∷ []

registry-IsBacked : IsBacked registry
registry-IsBacked = record {
  floor = omega arith;
  paid = (omega arith, (omega arith, tt));
  staked = (omega arith, tt);
}

run-IsBacked_example :
    IsBacked (run calls registry)
    × (holdings (run calls registry) ≡ holdings registry +ℤ total_inflow calls registry)
run-IsBacked_example =
    run-IsBacked calls registry registry-IsBacked
      (tt, (omega arith, (omega arith, (tt, (tt, (tt, tt))))))

bob_is_staker : lookup bob registry.stakers ≡ some bob_staker
unfolding text_eq
bob_is_staker = refl

bob_has_funds : lookup bob registry.funds ≡ some (record { balance = pos 2; nonce = 0 })
unfolding text_eq
bob_has_funds = refl

-- Bob has 2 coins and unstakes -3: his stake grows from 5 to 8.
unstake_mints_example : unstake_tokens bob (negsuc 2) (9 ∷ []) registry ≡ (
  record registry {
    stakers = insert bob (record bob_staker { stake = pos 5 +ℤ pos 3 }) registry.stakers;
  },
  success,
)
unstake_mints_example =
    unstake_mints bob (9 ∷ []) 2 registry bob_staker (record { balance = pos 2; nonce = 0 }) refl
      refl bob_is_staker bob_has_funds (omega arith) (omega arith) (omega arith)
