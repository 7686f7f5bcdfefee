-- ===== src/Manager/Counting.antt =====
-- The statistics of src/blockchain/validator_manager.js.
use bt2c.Base.{ℕ, ◌+◌, ◌≡◌, refl, Bool, [], ◌∷◌, arith, length, if◌then◌else◌}
use bt2c.Base.Int.{◌+ℤ◌, int_laws}
use bt2c.Base.Dict.{Dict}
use bt2c.Base.Totals.{sum_over}
use bt2c.Validator.{Validator, ValidatorState, state_eq}
use bt2c.Manager.Types.{Stats, Manager}
use bt2c.Manager.{add_up, count_each, no_stats, refresh}

-- How many validators have a property, counted one by one.
abbrev pub number_of : (Validator → Bool) → Dict Validator → ℕ
number_of f [] = 0
number_of f ((a, v) ∷ d) = if f v then number_of f d + 1 else number_of f d

abbrev pub is_in : ValidatorState → Validator → Bool
is_in s v = state_eq v.state s

-- The statistics and the total are those of the map as it is now.
pub record IsCurrent (m : Manager) : Type 0 where
  pub actives : m.stats.active_count ≡ number_of (is_in ValidatorState.active) m.validators
  pub inactives : m.stats.inactive_count ≡ number_of (is_in ValidatorState.inactive) m.validators
  pub jailings : m.stats.jailed_count ≡ number_of (is_in ValidatorState.jailed) m.validators
  pub tombstones :
      m.stats.tombstoned_count ≡ number_of (is_in ValidatorState.tombstoned) m.validators
  pub size : m.stats.total_validators ≡ length m.validators
  pub claims :
      m.stats.rewards_claimed
      ≡ number_of (λ (v : Validator). v.distribution_reward_claimed) m.validators
  pub stakes : m.total_stake ≡ sum_over (λ (v : Validator). v.stake) m.validators
  pub stake_sums : m.stats.stake_sum ≡ sum_over (λ (v : Validator). v.stake) m.validators
  pub reputation_sums :
      m.stats.reputation_sum ≡ sum_over (λ (v : Validator). v.reputation) m.validators

-- Each number that the loop ends with, over the one that it begins with.
count_each-active_count :
    (d : Dict Validator) (t : Stats)
    → (count_each d t).active_count ≡ t.active_count + number_of (is_in ValidatorState.active) d
unfolding count_each
count_each-active_count [] t = omega arith
count_each-active_count ((a, v) ∷ d) t = rw (count_each-active_count d (add_up v t)) (ground arith)

count_each-inactive_count :
    (d : Dict Validator) (t : Stats)
    → (count_each d t).inactive_count
      ≡ t.inactive_count + number_of (is_in ValidatorState.inactive) d
unfolding count_each
count_each-inactive_count [] t = omega arith
count_each-inactive_count ((a, v) ∷ d) t =
    rw (count_each-inactive_count d (add_up v t)) (ground arith)

count_each-jailed_count :
    (d : Dict Validator) (t : Stats)
    → (count_each d t).jailed_count ≡ t.jailed_count + number_of (is_in ValidatorState.jailed) d
unfolding count_each
count_each-jailed_count [] t = omega arith
count_each-jailed_count ((a, v) ∷ d) t = rw (count_each-jailed_count d (add_up v t)) (ground arith)

count_each-tombstoned_count :
    (d : Dict Validator) (t : Stats)
    → (count_each d t).tombstoned_count
      ≡ t.tombstoned_count + number_of (is_in ValidatorState.tombstoned) d
unfolding count_each
count_each-tombstoned_count [] t = omega arith
count_each-tombstoned_count ((a, v) ∷ d) t =
    rw (count_each-tombstoned_count d (add_up v t)) (ground arith)

count_each-rewards_claimed :
    (d : Dict Validator) (t : Stats)
    → (count_each d t).rewards_claimed
      ≡ t.rewards_claimed + number_of (λ (v : Validator). v.distribution_reward_claimed) d
unfolding count_each
count_each-rewards_claimed [] t = omega arith
count_each-rewards_claimed ((a, v) ∷ d) t =
    rw (count_each-rewards_claimed d (add_up v t)) (ground arith)

count_each-stake_sum :
    (d : Dict Validator) (t : Stats)
    → (count_each d t).stake_sum ≡ t.stake_sum +ℤ sum_over (λ (v : Validator). v.stake) d
unfolding count_each
count_each-stake_sum [] t = omega int_laws
count_each-stake_sum ((a, v) ∷ d) t = rw (count_each-stake_sum d (add_up v t)) (omega int_laws)

count_each-reputation_sum :
    (d : Dict Validator) (t : Stats)
    → (count_each d t).reputation_sum
      ≡ t.reputation_sum +ℤ sum_over (λ (v : Validator). v.reputation) d
unfolding count_each
count_each-reputation_sum [] t = omega int_laws
count_each-reputation_sum ((a, v) ∷ d) t =
    rw (count_each-reputation_sum d (add_up v t)) (omega int_laws)

count_each-total_validators :
    (d : Dict Validator) (t : Stats) → (count_each d t).total_validators ≡ t.total_validators
unfolding count_each
count_each-total_validators [] t = refl
count_each-total_validators ((a, v) ∷ d) t = count_each-total_validators d (add_up v t)

-- `_updateStats` counts what is there, whatever the statistics were before.
pub refresh-IsCurrent : (m : Manager) → IsCurrent (refresh m)
unfolding refresh
refresh-IsCurrent m =
    let d = m.validators in
    let t = no_stats (length d) in
    record {
      actives = omega (arith, count_each-active_count d t);
      inactives = omega (arith, count_each-inactive_count d t);
      jailings = omega (arith, count_each-jailed_count d t);
      tombstones = omega (arith, count_each-tombstoned_count d t);
      size = count_each-total_validators d t;
      claims = omega (arith, count_each-rewards_claimed d t);
      stakes = rw (count_each-stake_sum d t) (omega int_laws);
      stake_sums = rw (count_each-stake_sum d t) (omega int_laws);
      reputation_sums = rw (count_each-reputation_sum d t) (omega int_laws);
    }
