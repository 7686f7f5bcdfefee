-- ===== src/Consensus/Totals.antt =====
-- The totals of src/consensus/rpos.js through votes and rounds.
use bt2c.Base.{ℕ, zero, suc, ◌+◌, some, [], by_test, by_option, length, ltb, leb, not}
use bt2c.Base.Text.{Text}
use bt2c.Base.Dict.{lookup}
use bt2c.Consensus.Types.{Phase, VoteType, Vote, Candidate, Proposal, Engine, Hooks, Run}
use bt2c.Consensus.Members.{change, jail_if_missing, check_and_jail_validators, award_block_reward}
use bt2c.Consensus.Rounds.{
  own_address, is_own, credit, blame, one_more_point, threshold, vote_for, record_vote,
  reward_proposer, schedule_next_block, accept_block, finalize, finalize_voting,
  check_voting_progress, cast_vote, start_voting_phase, validate_block, reject_block,
  handle_proposed_block, propose_block, begin_round, select_proposer, run_consensus_round,
  run_rounds,
}
use bt2c.Consensus.Stakes.{
  Counts, insert-IsCounted, change-IsCounted, each-IsCounted, credit-IsMild, blame-IsMild,
  one_more_point-IsMild, jail_if_missing-IsMild,
}

abbrev pub RunCounts : Run → Type 0
RunCounts r = Counts r.0

-- What stands for the next round keeps the totals.
abbrev pub Keeps : (Engine → Run) → Type 0
Keeps again = (c : Engine) → Counts c → RunCounts (again c)

reward_proposer-Counts : (a : Text) (c : Engine) → Counts c → Counts (reward_proposer a c)
unfolding reward_proposer award_block_reward
reward_proposer-Counts a c i =
    by_option Counts (lookup a c.members) _ _ (λ l. i)
      (λ v l.
        insert-IsCounted a v (credit v) c.members c.total_stake c.active_validators l
          (credit-IsMild v).0 (credit-IsMild v).1 i)

accept_block-Counts :
    (now : ℕ) (b : Candidate) (a : Text) (c : Engine) → Counts c → Counts (accept_block now b a c)
unfolding accept_block award_block_reward check_and_jail_validators schedule_next_block
accept_block-Counts now b a c i =
    let s = reward_proposer a (record c { current_height = b.height; current_round = 0 }) in
    let j =
      reward_proposer-Counts a (record c { current_height = b.height; current_round = 0 }) i in
    let jailed =
      each-IsCounted (jail_if_missing now s.settings) s.members s.total_stake s.active_validators
        (jail_if_missing-IsMild now s.settings) j in
    change-IsCounted a one_more_point _ _ _ one_more_point-IsMild jailed

finalize-Counts : (now : ℕ) (c : Engine) → Counts c → RunCounts (finalize now c)
unfolding finalize
finalize-Counts now c i =
    by_option RunCounts c.current_proposal _ _ (λ l. i)
      (λ p l.
        accept_block-Counts now p.block p.proposer_address (record c { phase = Phase.finalizing })
          i)

pub finalize_voting-Counts :
    (f : Engine → Run) (now : ℕ) (c : Engine)
    → Keeps f
    → Counts c
    → RunCounts (finalize_voting f now c)
unfolding finalize_voting
finalize_voting-Counts f now c k i =
    by_test RunCounts (leb (threshold c) (length c.precommits)) _ _ (λ q. finalize-Counts now c i)
      (λ q. k (record c { current_round = c.current_round + 1 }) i)

record_vote-Counts :
    (t : VoteType) (a : Text) (v : Vote) (c : Engine) → Counts c → Counts (record_vote t a v c)
unfolding record_vote
record_vote-Counts VoteType.prevote a v c i = i
record_vote-Counts VoteType.precommit a v c i = i

pub cast_vote-Counts :
    (f : Engine → Run) (now : ℕ) (t : VoteType) (a : Text) (v : Vote) (c : Engine)
    → Keeps f
    → Counts c
    → RunCounts (cast_vote f now t a v c)
unfolding cast_vote check_voting_progress
cast_vote-Counts f now t a v c k i =
    let s = record_vote t a v c in
    let j = record_vote-Counts t a v c i in
    by_test RunCounts (leb (threshold s) (length s.precommits)) _ _
      (λ q. finalize_voting-Counts f now s k j) (λ q. j)

pub handle_proposed_block-Counts :
    (f : Engine → Run) (now : ℕ) (b : Candidate) (a : Text) (c : Engine)
    → Keeps f
    → Counts c
    → RunCounts (handle_proposed_block f now b a c)
unfolding handle_proposed_block start_voting_phase reject_block
handle_proposed_block-Counts f now b a c k i =
    let p : Proposal = record { block = b; proposer_address = a } in
    let s = record c {
      phase = Phase.voting;
      prevotes = [];
      precommits = [];
      current_proposal = some p;
    } in
    by_test RunCounts (validate_block b a c) _ _
      (λ q.
        by_option RunCounts (own_address c) _ _ (λ l. i)
          (λ me l. cast_vote-Counts f now VoteType.prevote me (vote_for p s) s k i))
      (λ q.
        k (record c { members = change a (blame now c.settings) c.members })
          (change-IsCounted a (blame now c.settings) c.members c.total_stake c.active_validators
            (blame-IsMild now c.settings) i))

propose_block-Counts :
    (f : Engine → Run) (now : ℕ) (h : Hooks) (c : Engine)
    → Keeps f
    → Counts c
    → RunCounts (propose_block f now h c)
unfolding propose_block
propose_block-Counts f now h c k i =
    by_option RunCounts (own_address c) _ _ (λ l. i)
      (λ me l.
        by_test RunCounts (is_own c.current_proposer (some me)) _ _
          (λ q. handle_proposed_block-Counts f now _ me (record c { phase = Phase.proposing }) k i)
          (λ q. i))

begin_round-Counts : (now : ℕ) (h : Hooks) (c : Engine) → Counts c → Counts (begin_round now h c)
unfolding begin_round select_proposer
begin_round-Counts now h c i = i

run_consensus_round-Counts :
    (f : Engine → Run) (now : ℕ) (h : Hooks) (c : Engine)
    → Keeps f
    → Counts c
    → RunCounts (run_consensus_round f now h c)
unfolding run_consensus_round
run_consensus_round-Counts f now h c k i =
    by_test RunCounts (not c.is_running) _ _ (λ q. i)
      (λ q.
        by_test RunCounts (ltb c.active_validators c.settings.min_validators) _ _ (λ q'. i)
          (λ q'.
            let s = begin_round now h c in
            let j = begin_round-Counts now h c i in
            by_test RunCounts (is_own s.current_proposer (own_address s)) _ _
              (λ r. propose_block-Counts f now h s k j) (λ r. j)))

pub run_rounds-Counts : (n now : ℕ) (h : Hooks) → Keeps (run_rounds n now h)
unfolding run_rounds
run_rounds-Counts zero now h c i = i
run_rounds-Counts (suc n) now h c i =
    run_consensus_round-Counts (run_rounds n now h) now h c (run_rounds-Counts n now h) i
