-- ===== src/Consensus/Closing.antt =====
-- The circle of the methods of src/consensus/rpos.js is closed after one round.
use bt2c.Base.{
  ℕ, suc, ◌+◌, ◌≤◌, ◌≡◌, sym, ◌∙◌, true, false, some, arith, length, leb, if◌then◌else◌,
}
use bt2c.Base.Text.{Text, text_eq_symm}
use bt2c.Consensus.Types.{
  Phase, VoteType, Vote, Candidate, Proposal, Proposer, nobody, undefined_proposer, someone, Engine,
  Hooks, Run,
}
use bt2c.Consensus.Rounds.{
  is_own, is_proposer, threshold, record_vote, finalize, finalize_voting, check_voting_progress,
  cast_vote, start_voting_phase, validate_block, handle_proposed_block, propose_block, begin_round,
  select_proposer, run_consensus_round, run_rounds,
}

-- A vote never starts a round: with enough precommits it finalises, else it is only kept.
abbrev pub settle : ℕ → Engine → Run
settle now s = if leb (threshold s) (length s.precommits) then finalize now s else (s, false)

pub cast_vote_settles :
    (f : Engine → Run) (now : ℕ) (k : VoteType) (a : Text) (v : Vote) (c : Engine)
    → cast_vote f now k a v c ≡ settle now (record_vote k a v c)
unfolding cast_vote check_voting_progress finalize_voting
cast_vote_settles f now k a v c = ground arith

cast_vote_closed :
    (f g : Engine → Run) (now : ℕ) (k : VoteType) (a : Text) (v : Vote) (c : Engine)
    → cast_vote f now k a v c ≡ cast_vote g now k a v c
cast_vote_closed f g now k a v c =
    cast_vote_settles f now k a v c ∙ sym (cast_vote_settles g now k a v c)

start_voting_phase_closed :
    (f g : Engine → Run) (now : ℕ) (p : Proposal) (c : Engine)
    → start_voting_phase f now p c ≡ start_voting_phase g now p c
unfolding start_voting_phase
start_voting_phase_closed f g now p c = grind (arith, cast_vote_closed f g)

own_proposer : (me : Text) (p : Proposer) → is_own p (some me) ≡ true → is_proposer me p ≡ true
own_proposer me nobody h = cc
own_proposer me undefined_proposer h = cc
own_proposer me (someone a) h = ground (arith, h, text_eq_symm a me)

-- A block that the engine itself proposes passes its own check.
own_block_valid :
    (now : ℕ) (me x : Text) (n : ℕ) (c : Engine)
    → c.round_start_time ≤ now
    → is_own c.current_proposer (some me) ≡ true
    → validate_block
        (record { hash = x; height = c.current_height + 1; timestamp = now; transaction_count = n })
        me
        c
      ≡ true
unfolding validate_block
own_block_valid now me x n c le h = ground (arith, le, own_proposer me c.current_proposer h)

handle_proposed_block_closed :
    (f g : Engine → Run) (now : ℕ) (b : Candidate) (a : Text) (c : Engine)
    → validate_block b a c ≡ true
    → handle_proposed_block f now b a c ≡ handle_proposed_block g now b a c
unfolding handle_proposed_block
handle_proposed_block_closed f g now b a c v =
    rw v (start_voting_phase_closed f g now (record { block = b; proposer_address = a }) c)

own_block_closed :
    (f g : Engine → Run) (now : ℕ) (h : Hooks) (me : Text) (c : Engine)
    → c.round_start_time ≤ now
    → is_own c.current_proposer (some me) ≡ true
    → let b : Candidate = record {
      hash = h.block_hash (c.current_height + 1) now me;
      height = c.current_height + 1;
      timestamp = now;
      transaction_count = 0;
    } in
      handle_proposed_block f now b me (record c { phase = Phase.proposing })
      ≡ handle_proposed_block g now b me (record c { phase = Phase.proposing })
own_block_closed f g now h me c le own =
    handle_proposed_block_closed f g now _ me (record c { phase = Phase.proposing })
      (own_block_valid now me _ 0 (record c { phase = Phase.proposing }) le own)

propose_block_closed :
    (f g : Engine → Run) (now : ℕ) (h : Hooks) (c : Engine)
    → c.round_start_time ≤ now
    → propose_block f now h c ≡ propose_block g now h c
unfolding propose_block
propose_block_closed f g now h c le =
    grind (arith, le, λ (me : Text). own_block_closed f g now h me c le)

run_consensus_round_closed :
    (f g : Engine → Run) (now : ℕ) (h : Hooks) (c : Engine)
    → run_consensus_round f now h c ≡ run_consensus_round g now h c
unfolding run_consensus_round begin_round select_proposer
run_consensus_round_closed f g now h c = grind (arith, propose_block_closed f g now h)

-- A call of `runConsensusRound` starts no other round within itself, though its methods call each other
-- in a circle: with any fuel but 0 the result is the same, and is the one that it has with anything
-- whatever in the place of a further round.
pub rounds_close :
    (again : Engine → Run) (n now : ℕ) (h : Hooks) (c : Engine)
    → run_rounds (suc n) now h c ≡ run_consensus_round again now h c
unfolding run_rounds
rounds_close again n now h c = run_consensus_round_closed (run_rounds n now h) again now h c
