-- ===== src/Manager/Runs.antt =====
-- Sequences of calls on the validator manager (src/blockchain/validator_manager.js), and what it gives
-- the consensus engine.
use mathlib.Core.Path.{subst}
use bt2c.Base.{ℕ, ◌≡◌, refl, sym, true, Option, none, some, List, [], ◌∷◌, arith, All, All-both}
use bt2c.Base.Int.{ℤ}
use bt2c.Base.Text.{Text}
use bt2c.Base.Dict.{Dict, lookup}
use bt2c.Validator.{Validator, jail, try_unjail, tombstone, activate, deactivate, is_eligible}
use bt2c.Manager.Types.{Manager, Reals}
use bt2c.Manager.{
  handle_new_block, register_validator, remove_validator, update_stake, activate_validator,
  deactivate_validator, jail_validator, try_unjail_validator, tombstone_validator,
  check_and_jail_missing_validators, select_validator, process_distribution_reward, load_from_json,
  values_of, get_all_validators, get_eligible_validators,
}
use bt2c.Manager.Choice.{choose}
use bt2c.Manager.Filing.{IsFiled, IsStored, values_of-IsStored, values_of-chosen, choose-All}
use bt2c.Manager.Service.{
  IsServing, apply-Served, attempt-Served, activate-Stays, try_unjail-Stays, deactivate-Stays,
  jail-Stays, tombstone-Stays, handle_new_block-IsServing, register_validator-Served,
  remove_validator-Served, update_stake-Served, select_validator-IsServing,
  process_distribution_reward-Served, load_from_json-IsServing, check_and_jail-IsServing,
}
use bt2c.Consensus.Types.{Hooks}
use bt2c.Consensus.Loads.{by_address, IsManaged}

pub data Call : Type 1 where
  new_block : Text → Call
  register : ℕ → Text → Text → ℤ → Text → Call
  remove : Text → Call
  restake : Text → ℤ → Call
  switch_on : ℕ → Text → Call
  switch_off : Text → Call
  lock : ℕ → Text → ℕ → Call
  free : ℕ → Text → Call
  ban : Text → Call
  jail_all : ℕ → Call
  select : (r : Reals) → r.Real → Call
  pay_reward : ℕ → ℕ → Text → Call
  load : ℕ → List Validator → Call

unfoldable pub perform : Call → Manager → Manager
perform (new_block a) m = handle_new_block a m
perform (register now a k x n) m = (register_validator now a k x n m).0
perform (remove a) m = (remove_validator a m).0
perform (restake a x) m = (update_stake a x m).0
perform (switch_on now a) m = (activate_validator now a m).0
perform (switch_off a) m = (deactivate_validator a m).0
perform (lock now a x) m = (jail_validator now a x m).0
perform (free now a) m = (try_unjail_validator now a m).0
perform (ban a) m = (tombstone_validator a m).0
perform (jail_all now) m = check_and_jail_missing_validators now m
perform (select r x) m = (select_validator r x m).0
perform (pay_reward x y a) m = (process_distribution_reward x y a m).0
perform (load now vs) m = load_from_json now vs m

unfoldable pub run : List Call → Manager → Manager
run [] m = m
run (c ∷ cs) m = run cs (perform c m)

perform-IsServing : (c : Call) (m : Manager) → IsServing m → IsServing (perform c m)
unfolding perform activate_validator deactivate_validator jail_validator try_unjail_validator
    tombstone_validator
perform-IsServing (new_block a) m i = handle_new_block-IsServing a m i
perform-IsServing (register now a k x n) m i = register_validator-Served now a k x n m i
perform-IsServing (remove a) m i = remove_validator-Served a m i
perform-IsServing (restake a x) m i = update_stake-Served a x m i
perform-IsServing (switch_on now a) m i = attempt-Served a (activate now) m (activate-Stays now) i
perform-IsServing (switch_off a) m i = apply-Served a deactivate m deactivate-Stays i
perform-IsServing (lock now a x) m i = apply-Served a (jail now x) m (jail-Stays now x) i
perform-IsServing (free now a) m i = attempt-Served a (try_unjail now) m (try_unjail-Stays now) i
perform-IsServing (ban a) m i = apply-Served a tombstone m tombstone-Stays i
perform-IsServing (jail_all now) m i = check_and_jail-IsServing now m i
perform-IsServing (select r x) m i = select_validator-IsServing r x m i
perform-IsServing (pay_reward x y a) m i = process_distribution_reward-Served x y a m i
perform-IsServing (load now vs) m i = load_from_json-IsServing now vs m i

-- After any calls, from a state in which this holds already, the manager's statistics and its total stake
-- are those that a fresh count of its validators gives, each validator is stored under its own address
-- and no address twice, and the history of selections has at most a thousand entries.
pub run-IsServing : (cs : List Call) (m : Manager) → IsServing m → IsServing (run cs m)
unfolding run
run-IsServing [] m i = i
run-IsServing (c ∷ cs) m i = run-IsServing cs (perform c m) (perform-IsServing c m i)

by_address-values :
    (d : Dict Validator) → IsFiled d → by_address (values_of (λ (v : Validator). true) d) ≡ d
by_address-values [] k = refl
by_address-values ((a, v) ∷ d) k = rw (k.1.0, by_address-values d (k.0.1, k.1.1)) refl

all_validators-IsManaged :
    (m : Manager) → IsFiled m.validators → IsManaged (some (get_all_validators m))
unfolding get_all_validators
all_validators-IsManaged m k = rw (by_address-values m.validators k) k.0

abbrev pub IsCandidate : Manager → Validator → Type 0
IsCandidate m v = (lookup v.address m.validators ≡ some v) × (is_eligible m.min_stake v ≡ true)

eligible-IsCandidate :
    (m : Manager) → IsFiled m.validators → All (IsCandidate m) (get_eligible_validators m)
unfolding get_eligible_validators
eligible-IsCandidate m k =
    All-both (IsStored m.validators) (λ (v : Validator). is_eligible m.min_stake v ≡ true)
      (values_of (is_eligible m.min_stake) m.validators)
      (values_of-IsStored (is_eligible m.min_stake) m.validators k)
      (values_of-chosen (is_eligible m.min_stake) m.validators)

-- The functions that `ConsensusIntegration` (src/consensus/consensus_integration.js) gives the engine,
-- for the manager as it is at the call; `random` makes a number of the seed's height, round and time.
unfoldable pub hooks_of :
    (r : Reals) → (ℕ → ℕ → ℕ → r.Real) → (ℕ → ℕ → Text → Text) → Manager → Hooks
hooks_of r random block_hash m = record {
  get_validators = some (get_all_validators m);
  get_eligible_validators = some (get_eligible_validators m);
  select_validator =
      some (λ (height round now : ℕ). (select_validator r (random height round now) m).1);
  block_hash = block_hash;
}

-- A selection: nobody if nobody is eligible, else a stored validator that is eligible.
abbrev pub Fits : Manager → Option Validator → Type 0
Fits m none = get_eligible_validators m ≡ []
Fits m (some v) = IsCandidate m v

choose_nobody : (r : Reals) (x : r.Real) (t : ℤ) → choose r x t [] ≡ none
unfolding choose
choose_nobody r x t = refl

choose-Fits :
    (r : Reals) (x : r.Real) (t : ℤ) (m : Manager) (vs : List Validator)
    → get_eligible_validators m ≡ vs
    → All (IsCandidate m) vs
    → Fits m (choose r x t vs)
choose-Fits r x t m [] e k = subst (Fits m) (sym (choose_nobody r x t)) e
choose-Fits r x t m (v ∷ vs) e k =
    let (w, f, h) = choose-All r (IsCandidate m) x t v vs k in subst (Fits m) (sym f) h

select_validator_choice :
    (r : Reals) (x : r.Real) (m : Manager)
    → (select_validator r x m).1 ≡ choose r x m.total_stake (get_eligible_validators m)
unfolding select_validator
select_validator_choice r x m = ground arith

-- After any calls on a manager whose map is in order, what the integration gives the engine is what the
-- engine relies on: the list of all validators has no address twice, and the validator selected, whatever
-- the random number and the floating-point arithmetic, is one of the map under its own address, active,
-- and with the minimum stake; nobody is selected only if nobody is eligible.
pub manager_serves :
    (cs : List Call) (m : Manager) (r : Reals) (random : ℕ → ℕ → ℕ → r.Real)
    (block_hash : ℕ → ℕ → Text → Text) (x : r.Real)
    → IsServing m
    → IsManaged (hooks_of r random block_hash (run cs m)).get_validators
      × Fits (run cs m) (select_validator r x (run cs m)).1
unfolding hooks_of
manager_serves cs m r random block_hash x i =
    let s = run cs m in
    let k : IsFiled s.validators = (run-IsServing cs m i).filed in
    (
      all_validators-IsManaged s k,
      rw (select_validator_choice r x s) (
          choose-Fits r x s.total_stake s (get_eligible_validators s) refl
            (eligible-IsCandidate s k)),
    )
