-- ===== src/Consensus/Rounds.antt =====
-- Rounds, proposals and votes of `class RPoSConsensus` (src/consensus/rpos.js). A method that starts the
-- next round takes what `runConsensusRound` does as the argument `again`, because the methods call each
-- other in a circle, which `run_rounds` closes.
use bt2c.Base.{
  ℕ, zero, suc, ◌+◌, ◌-◌, ◌*◌, ◌/◌, Bool, true, false, ◌&&◌, not, Option, none, some, List, [], ◌∷◌,
  length, ltb, leb, ◌==◌, if◌then◌else◌,
}
use bt2c.Base.Int.{ℤ, ◌+ℤ◌, leb_ℤ}
use bt2c.Base.Text.{Text, text_eq}
use bt2c.Base.Dict.{lookup, insert}
use bt2c.Validator.{
  Validator, ValidatorState, state_eq, points, update_stats, update_reputation,
  check_and_jail_if_needed,
}
use bt2c.Consensus.Types.{
  Phase, VoteType, Vote, Candidate, Proposal, Proposer, nobody, undefined_proposer, someone,
  Settings, Engine, Hooks, Run,
}
use bt2c.Consensus.Members.{change, check_and_jail_validators, award_block_reward}

abbrev pub own_address : Engine → Option Text
own_address c = c.settings.validator_address

-- `address === this.currentProposer` for a text
abbrev pub is_proposer : Text → Proposer → Bool
is_proposer a (someone b) = text_eq a b
is_proposer a _ = false

-- `this.currentProposer === this.options.validatorAddress`; null equals null
abbrev pub is_own : Proposer → Option Text → Bool
is_own nobody none = true
is_own (someone a) (some b) = text_eq a b
is_own _ _ = false

-- `Math.ceil(this.activeValidators * this.options.votingThreshold)`, exactly, where the code rounds the product
abbrev pub needed : Settings → ℕ → ℕ
needed o n = (n * o.threshold_num + (o.threshold_den - 1)) / o.threshold_den

unfoldable pub threshold : Engine → ℕ
threshold c = needed c.settings c.active_validators

-- `proposer.uptime`, in thousandths of a percent, rounded down
abbrev pub uptime_of : Validator → ℕ
uptime_of v = v.uptime_num * 1000 / v.uptime_den

-- What an accepted block does to its proposer, before and after the second reward. The fields
-- `lastProposedBlock` and `proposedBlocks`, which no method reads, are left out.
abbrev pub credit : Validator → Validator
credit v = let w = update_stats true v in update_reputation true 100000 (uptime_of w) w

abbrev pub one_more_point : Validator → Validator
one_more_point v = record v { reputation = v.reputation +ℤ points 1 }

-- What a rejected or missing block does to its proposer.
abbrev pub blame : ℕ → Settings → Validator → Validator
blame now o v =
    let w = update_stats false v in
    let u = update_reputation false 0 (uptime_of w) w in
    (check_and_jail_if_needed now o.max_missed_blocks o.jail_duration u).0

unfoldable pub reward_proposer : Text → Engine → Engine
reward_proposer address c = elim (lookup address c.members) [
  | none ↦ c
  | some v ↦ award_block_reward (record c { members = insert address (credit v) c.members })
]

-- The block timer that it sets is an event.
unfoldable pub schedule_next_block : Engine → Engine
schedule_next_block c = record c { phase = Phase.waiting }

unfoldable pub accept_block : ℕ → Candidate → Text → Engine → Engine
accept_block now block address c =
    let s =
      reward_proposer address (record c { current_height = block.height; current_round = 0 }) in
    let t = award_block_reward (check_and_jail_validators now s) in
    schedule_next_block (record t { members = change address one_more_point t.members })

-- The first branch of `finalizeVoting`, which throws where there is no proposal.
unfoldable pub finalize : ℕ → Engine → Run
finalize now c = elim c.current_proposal [
  | none ↦ (record c { phase = Phase.finalizing }, true)
  | some p ↦
      (accept_block now p.block p.proposer_address (record c { phase = Phase.finalizing }), false)
]

unfoldable pub finalize_voting : (Engine → Run) → ℕ → Engine → Run
finalize_voting again now c =
    if leb (threshold c) (length c.precommits)
    then finalize now c
    else again (record c { current_round = c.current_round + 1 })

unfoldable pub check_voting_progress : (Engine → Run) → ℕ → Engine → Run
check_voting_progress again now c =
    if leb (threshold c) (length c.precommits) then finalize_voting again now c else (c, false)

unfoldable pub record_vote : VoteType → Text → Vote → Engine → Engine
record_vote VoteType.prevote a v c = record c { prevotes = insert a v c.prevotes }
record_vote VoteType.precommit a v c = record c { precommits = insert a v c.precommits }

unfoldable pub cast_vote : (Engine → Run) → ℕ → VoteType → Text → Vote → Engine → Run
cast_vote again now kind address vote c =
    check_voting_progress again now (record_vote kind address vote c)

abbrev pub vote_for : Proposal → Engine → Vote
vote_for p c = record {
  block_hash = p.block.hash;
  height = p.block.height;
  round = c.current_round;
}

-- The delayed precommit and the end of the voting are events.
unfoldable pub start_voting_phase : (Engine → Run) → ℕ → Proposal → Engine → Run
start_voting_phase again now p c =
    let s = record c {
      phase = Phase.voting;
      prevotes = [];
      precommits = [];
      current_proposal = some p;
    } in
    elim (own_address c) [
      | none ↦ (s, false)
      | some me ↦ cast_vote again now VoteType.prevote me (vote_for p s) s
    ]

unfoldable pub validate_block : Candidate → Text → Engine → Bool
validate_block block address c =
    if not (is_proposer address c.current_proposer)
    then false
    else if not (block.height == c.current_height + 1)
    then false
    else not (ltb block.timestamp c.round_start_time)

unfoldable pub reject_block : (Engine → Run) → ℕ → Text → Engine → Run
reject_block again now address c =
    again (record c { members = change address (blame now c.settings) c.members })

unfoldable pub handle_proposed_block : (Engine → Run) → ℕ → Candidate → Text → Engine → Run
handle_proposed_block again now block address c =
    if validate_block block address c
    then start_voting_phase again now (record { block = block; proposer_address = address }) c
    else reject_block again now address c

unfoldable pub propose_block : (Engine → Run) → ℕ → Hooks → Engine → Run
propose_block again now h c = elim (own_address c) [
  | none ↦ (c, false)
  | some me ↦
      if is_own c.current_proposer (some me)
      then (let block : Candidate = record {
        hash = h.block_hash (c.current_height + 1) now me;
        height = c.current_height + 1;
        timestamp = now;
        transaction_count = 0;
      } in
          handle_proposed_block again now block me (record c { phase = Phase.proposing }))
      else (c, false)
]

abbrev pub eligible_of : ℤ → List (Text × Validator) → List Validator
eligible_of m [] = []
eligible_of m ((a, v) ∷ d) =
    let rest = eligible_of m d in
    if state_eq v.state ValidatorState.active && leb_ℤ m v.stake then v ∷ rest else rest

-- The validators have no field `probability`, so the sum is not a number from the first on, and the
-- loop ends without a choice. The result is the address of the first, as a text.
unfoldable pub select_validator_with_vrf : List Validator → Option Text
select_validator_with_vrf [] = none
select_validator_with_vrf (v ∷ vs) = some v.address

unfoldable pub eligible_validators : Hooks → Engine → List Validator
eligible_validators h c = elim h.get_eligible_validators [
  | none ↦ eligible_of c.settings.minimum_stake c.members
  | some vs ↦ vs
]

-- A text that is not empty has no field `address`.
unfoldable pub field_of_text : Option Text → Proposer → Proposer
field_of_text none old = old
field_of_text (some []) old = old
field_of_text (some (x ∷ xs)) old = undefined_proposer

unfoldable pub choose : ℕ → Hooks → List Validator → Engine → Proposer
choose now h [] c = c.current_proposer
choose now h (v ∷ vs) c = elim h.select_validator [
  | none ↦ field_of_text (select_validator_with_vrf (v ∷ vs)) c.current_proposer
  | some select ↦ elim (select c.current_height c.current_round now) [
    | none ↦ c.current_proposer
    | some w ↦ someone w.address
  ]
]

unfoldable pub select_proposer : ℕ → Hooks → Engine → Engine
select_proposer now h c = record c { current_proposer = choose now h (eligible_validators h c) c }

-- A new round with its proposer.
unfoldable pub begin_round : ℕ → Hooks → Engine → Engine
begin_round now h c = select_proposer now h (record c {
  current_round = c.current_round + 1;
  round_start_time = now;
  prevotes = [];
  precommits = [];
  current_proposal = none;
})

unfoldable pub run_consensus_round : (Engine → Run) → ℕ → Hooks → Engine → Run
run_consensus_round again now h c =
    if not c.is_running
    then (c, false)
    else if ltb c.active_validators c.settings.min_validators
    then (c, false)
    else let s = begin_round now h c in
      if is_own s.current_proposer (own_address s) then propose_block again now h s else (s, false)

-- On fuel, the number of rounds that may be started within one call.
unfoldable pub run_rounds : ℕ → ℕ → Hooks → Engine → Run
run_rounds zero now h c = (c, true)
run_rounds (suc n) now h c = run_consensus_round (run_rounds n now h) now h c
