-- ===== src/Consensus/Events.antt =====
-- What reaches the engine of src/consensus/rpos.js from outside: calls of its methods, and timers
-- that run out.
use bt2c.Base.{
  ℕ, Bool, true, false, ◌&&◌, none, some, List, [], ◌∷◌, length, ltb, leb, if◌then◌else◌,
}
use bt2c.Base.Int.{ℤ, pos}
use bt2c.Base.Text.{Text}
use bt2c.Validator.{Validator}
use bt2c.Consensus.Types.{Phase, VoteType, Vote, Candidate, Proposer, someone, Engine, Hooks, Run}
use bt2c.Consensus.Members.{
  change, add_validator, remove_validator, update_validator_stake, slash_validator, load_each,
}
use bt2c.Consensus.Rounds.{
  blame, threshold, cast_vote, vote_for, finalize_voting, handle_proposed_block, select_proposer,
  run_rounds,
}

abbrev pub is_nobody : Proposer → Bool
is_nobody (someone a) = false
is_nobody _ = true

abbrev pub is_waiting : Phase → Bool
is_waiting Phase.waiting = true
is_waiting _ = false

-- `_loadValidators`
unfoldable pub load_validators : ℕ → Hooks → Engine → Engine
load_validators now h c = elim h.get_validators [
  | none ↦ c
  | some vs ↦
      let s =
        load_each vs (record c { members = []; total_stake = pos 0; active_validators = 0 }) in
      if ltb 0 s.active_validators && (is_nobody s.current_proposer && is_waiting s.phase)
      then select_proposer now h s
      else s
]

unfoldable pub start : ℕ → Hooks → Engine → Engine
start now h c =
    if c.is_running
    then c
    else load_validators now h (record c { is_running = true; phase = Phase.waiting })

unfoldable pub stop : Engine → Engine
stop c = record c { is_running = false }

abbrev pub on_timeout : (Engine → Run) → ℕ → Engine → Proposer → Run
on_timeout again now c (someone a) =
    again (record c { members = change a (blame now c.settings) c.members })
on_timeout again now c _ = again c

unfoldable pub handle_proposal_timeout : (Engine → Run) → ℕ → Engine → Run
handle_proposal_timeout again now c = on_timeout again now c c.current_proposer

-- The precommit that a validator sends some time after its prevote; without a proposal it throws.
unfoldable pub send_precommit : (Engine → Run) → ℕ → Text → Engine → Run
send_precommit again now me c =
    if leb (threshold c) (length c.prevotes)
    then elim c.current_proposal [
      | none ↦ (c, true)
      | some p ↦ cast_vote again now VoteType.precommit me (vote_for p c) c
    ]
    else (c, false)

pub data Event : Type 0 where
  started stopped loaded : Event
  block_due voting_over proposal_late : Event
  proposed : Candidate → Text → Event
  voted : VoteType → Text → Vote → Event
  precommit_due : Text → Event
  added : Validator → Event
  removed : Text → Event
  restake : Text → ℤ → Event
  slashed : Text → Text → Event
  altered : Text → (Validator → Validator) → Event

-- The object of a validator is shared with the code that passed it in, as the manager is by
-- `_loadValidators` and `addValidator`: a method that is called on it there is seen here.
unfoldable pub alter : Text → (Validator → Validator) → Engine → Engine
alter address f c = record c { members = change address f c.members }

-- One event at the time `now`. Within it at most two rounds are started.
unfoldable pub handle : ℕ → Hooks → Event → Engine → Run
handle now h started c = (start now h c, false)
handle now h stopped c = (stop c, false)
handle now h loaded c = (load_validators now h c, false)
handle now h block_due c = run_rounds 1 now h c
handle now h voting_over c = finalize_voting (run_rounds 1 now h) now c
handle now h proposal_late c = handle_proposal_timeout (run_rounds 1 now h) now c
handle now h (proposed b a) c = handle_proposed_block (run_rounds 1 now h) now b a c
handle now h (voted k a v) c = cast_vote (run_rounds 1 now h) now k a v c
handle now h (precommit_due a) c = send_precommit (run_rounds 1 now h) now a c
handle now h (added v) c = ((add_validator now v c).0, false)
handle now h (removed a) c = ((remove_validator a c).0, false)
handle now h (restake a x) c = ((update_validator_stake now a x c).0, false)
handle now h (slashed a o) c = ((slash_validator now a o c).0, false)
handle now h (altered a f) c = (alter a f c, false)

-- Events with the time and what the manager's functions return then.
abbrev pub Log : Type 0
Log = List (ℕ × Hooks × Event)

unfoldable pub replay : Log → Engine → Engine
replay [] c = c
replay ((now, h, e) ∷ es) c = replay es (handle now h e c).0
