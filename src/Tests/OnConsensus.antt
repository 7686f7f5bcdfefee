-- ===== src/Tests/OnConsensus.antt =====
-- The theorems on the consensus engine (src/consensus/rpos.js) at a concrete state.
use bt2c.Base.{ℕ, ◌+◌, ◌≡◌, ◌<◌, ◌≤◌, refl, true, some, none, List, [], ◌∷◌, arith, length}
use bt2c.Base.Int.{pos, ◌+ℤ◌}
use bt2c.Base.Text.{Text, text_eq}
use bt2c.Base.Dict.{insert, IsDict, contains}
use bt2c.Validator.{Validator, ValidatorState, jail}
use bt2c.Consensus.Types.{
  Phase, VoteType, Vote, Candidate, someone, Settings, Engine, Hooks, Proposal,
}
use bt2c.Consensus.Members.{award_block_reward}
use bt2c.Consensus.Rounds.{
  threshold, validate_block, handle_proposed_block, cast_vote, run_consensus_round, run_rounds,
  start_voting_phase, check_voting_progress, record_vote,
}
use bt2c.Consensus.Events.{
  block_due, proposed, voted, removed, slashed, altered, restake, handle, Log, replay,
}
use bt2c.Consensus.Stakes.{Counts, IsMild}
use bt2c.Consensus.Loads.{IsManaged, totals_kept, IsMildEvent}
use bt2c.Consensus.Heights.{view, Advances}
use bt2c.Consensus.Growth.{heights_grow}
use bt2c.Consensus.Finality.{precommit_all, enough_precommits}
use bt2c.Consensus.Repeats.{late_precommit_pays}
use bt2c.Consensus.Closing.{rounds_close}
use bt2c.Tests.{alice, bob, carol, carol_validator}

abbrev settings : Settings
settings = record {
  min_validators = 1;
  max_missed_blocks = 50;
  jail_duration = 100;
  validator_address = some alice;
  penalty_num = 1;
  penalty_den = 10;
  tombstoning_offenses = [];
  block_reward = 21;
  min_reward = 1;
  max_supply = 1000;
  halving_interval = 10;
  developer_node_reward = 100;
  early_validator_reward = 1;
  distribution_period = 0;
  distribution_start_time = 0;
  minimum_stake = pos 1;
  threshold_num = 67;
  threshold_den = 100;
}

abbrev active_bob : Validator
active_bob = record carol_validator { address = bob; state = ValidatorState.active; stake = pos 20 }

abbrev active_carol : Validator
active_carol = record carol_validator { state = ValidatorState.active }

-- Bob and carol are active; bob is to propose block 5.
abbrev engine : Engine
engine = record {
  settings = settings;
  phase = Phase.waiting;
  members = (bob, active_bob) ∷ (carol, active_carol) ∷ [];
  active_validators = 2;
  current_proposer = someone bob;
  current_height = 4;
  current_round = 1;
  round_start_time = 10;
  total_stake = pos 27;
  is_running = true;
  developer_node_set = true;
  total_supply = pos 500;
  prevotes = [];
  precommits = [];
  current_proposal = none;
}

-- The manager lists carol alone, and selects her.
abbrev hooks : Hooks
hooks = record {
  get_validators = some (active_carol ∷ []);
  get_eligible_validators = some (active_carol ∷ []);
  select_validator = some (λ (h r t : ℕ). some active_carol);
  block_hash = λ (h t : ℕ) (a : Text). a;
}

abbrev candidate : Candidate
candidate = record { hash = 7 ∷ []; height = 5; timestamp = 12; transaction_count = 0 }

abbrev vote : Vote
vote = record { block_hash = 7 ∷ []; height = 5; round = 1 }

-- Bob's block is accepted with two precommits; then he is slashed and removed, the manager jails carol,
-- and a round starts.
abbrev day : Log
day =
    (12, hooks, proposed candidate bob)
    ∷ (13, hooks, voted VoteType.precommit bob vote)
    ∷ (14, hooks, voted VoteType.precommit carol vote)
    ∷ (15, hooks, slashed bob (1 ∷ []))
    ∷ (16, hooks, removed bob)
    ∷ (17, hooks, restake carol (pos 30))
    ∷ (18, hooks, altered carol (λ (v : Validator). (jail 18 50 v)))
    ∷ (19, hooks, block_due)
    ∷ []

engine-Counts : Counts engine
unfolding ◌+ℤ◌
engine-Counts = record { summed = refl; covered = omega arith }

managed : IsManaged hooks.get_validators
managed = (refl, tt)

calm : IsManaged hooks.get_validators × IsMildEvent block_due
calm = (managed, tt)

jail-IsMild : IsMild (λ (v : Validator). jail 18 50 v)
unfolding jail
jail-IsMild v = (refl, ground arith)

totals_kept_example : Counts (replay day engine)
totals_kept_example =
    totals_kept day engine
      (calm, (calm, (calm, (calm, (calm, (calm, ((managed, jail-IsMild), (calm, tt))))))))
      engine-Counts

-- Bob's block is proposed, and has one precommit; the next one raises the height.
abbrev morning : Log
morning = (12, hooks, proposed candidate bob) ∷ (13, hooks, voted VoteType.precommit bob vote) ∷ []

heights_grow_example :
    Advances
      (replay morning engine).current_height
      (view (handle 14 hooks (voted VoteType.precommit carol vote) (replay morning engine)).0)
heights_grow_example = heights_grow morning 14 hooks (voted VoteType.precommit carol vote) engine tt

abbrev votes : List (Text × Vote)
votes = (carol, vote) ∷ (bob, vote) ∷ (alice, vote) ∷ []

candidate_valid : validate_block candidate bob engine ≡ true
unfolding validate_block text_eq
candidate_valid = refl

some_needed : 0 < threshold engine
unfolding threshold
some_needed = omega arith

two_needed : threshold engine ≤ length votes
unfolding threshold
two_needed = omega arith

votes-IsDict : IsDict votes
unfolding text_eq
votes-IsDict = (refl, (refl, (refl, tt)))

enough_precommits_example :
    (precommit_all
      (run_rounds 1 12 hooks)
      12
      votes
      (handle_proposed_block (run_rounds 1 12 hooks) 12 candidate bob engine).0).current_height
    ≡ 4 + 1
enough_precommits_example =
    enough_precommits (run_rounds 1 12 hooks) 12 candidate bob votes engine candidate_valid
      some_needed votes-IsDict two_needed

-- Bob's block has bob's precommit; carol's accepts it, and alice's comes late.
abbrev waiting : Engine
waiting = replay morning engine

abbrev bobs_proposal : Proposal
bobs_proposal = record { block = candidate; proposer_address = bob }

abbrev accepted_engine : Engine
accepted_engine = (cast_vote (run_rounds 1 14 hooks) 14 VoteType.precommit carol vote waiting).0

block_proposed : waiting.current_proposal ≡ some bobs_proposal
unfolding replay handle handle_proposed_block validate_block start_voting_phase cast_vote
    check_voting_progress record_vote threshold text_eq
block_proposed = refl

bob_is_member : contains bob waiting.members ≡ true
unfolding replay handle handle_proposed_block validate_block start_voting_phase cast_vote
    check_voting_progress record_vote threshold text_eq
bob_is_member = refl

two_suffice : threshold waiting ≤ length (insert carol vote waiting.precommits)
unfolding replay handle handle_proposed_block validate_block start_voting_phase cast_vote
    check_voting_progress record_vote threshold text_eq
two_suffice = omega arith

late_precommit_pays_example :
    let late =
      (cast_vote (run_rounds 1 20 hooks) 20 VoteType.precommit alice vote accepted_engine).0 in
    (accepted_engine.current_height ≡ 5)
    × (late.current_height ≡ accepted_engine.current_height)
    × (late.total_supply ≡ (award_block_reward (award_block_reward accepted_engine)).total_supply)
late_precommit_pays_example =
    late_precommit_pays (run_rounds 1 14 hooks) (run_rounds 1 20 hooks) 14 20 carol alice vote vote
      bobs_proposal waiting block_proposed bob_is_member two_suffice

rounds_close_example :
    run_rounds 3 12 hooks engine ≡ run_consensus_round (λ (c : Engine). (c, true)) 12 hooks engine
rounds_close_example = rounds_close (λ (c : Engine). (c, true)) 2 12 hooks engine
