-- ===== src/Consensus/Loads.antt =====
-- The totals of src/consensus/rpos.js along every sequence of events.
use mathlib.Core.Path.{subst}
use bt2c.Base.{
  ℕ, ◌+◌, refl, true, Option, none, some, List, [], ◌∷◌, arith, by_test, by_option, All, length,
  ltb, leb, ◌&&◌, if◌then◌else◌,
}
use bt2c.Base.Int.{pos, ◌+ℤ◌, ◌≤ℤ◌, int_laws}
use bt2c.Base.Text.{Text}
use bt2c.Base.Dict.{Dict, IsDict, IsApart, insert-IsApart, nothing-IsApart}
use bt2c.Validator.{Validator, ValidatorState, state_eq}
use bt2c.Consensus.Types.{
  Phase, VoteType, Proposer, nobody, undefined_proposer, someone, Engine, Hooks, Run,
}
use bt2c.Consensus.Members.{change, load_each}
use bt2c.Consensus.Rounds.{blame, threshold, vote_for, select_proposer}
use bt2c.Consensus.Events.{
  load_validators, start, stop, on_timeout, handle_proposal_timeout, send_precommit, is_nobody,
  is_waiting, Event, started, stopped, loaded, block_due, voting_over, proposal_late, proposed,
  voted, precommit_due, added, removed, restake, slashed, altered, handle, Log, replay, alter,
}
use bt2c.Consensus.Stakes.{activity, Counts, change-IsCounted, blame-IsMild, IsMild}
use bt2c.Consensus.Turnover.{
  join-IsCounted, add_validator-Counts, remove_validator-Counts, update_validator_stake-Counts,
  slash_validator-Counts,
}
use bt2c.Consensus.Totals.{
  RunCounts, Keeps, run_rounds-Counts, cast_vote-Counts, finalize_voting-Counts,
  handle_proposed_block-Counts,
}

-- The validators as entries under their addresses; a list has no two of one address.
abbrev pub by_address : List Validator → Dict Validator
by_address [] = []
by_address (v ∷ vs) = (v.address, v) ∷ by_address vs

active_or_not :
    (v : Validator) (n : ℕ)
    → activity v +ℤ pos n ≤ℤ pos (if state_eq v.state ValidatorState.active then n + 1 else n)
active_or_not v n = grind int_laws

load_each-Counts :
    (vs : List Validator) (c : Engine)
    → IsDict (by_address vs)
    → IsApart (by_address vs) c.members
    → Counts c
    → Counts (load_each vs c)
unfolding load_each
load_each-Counts [] c u f i = i
load_each-Counts (v ∷ vs) c u f i =
    load_each-Counts vs _ u.1 (insert-IsApart v.address v (by_address vs) c.members u.0 f.1) (
      join-IsCounted v.address v v.stake c.members c.total_stake c.active_validators _ f.0 refl
        (active_or_not v c.active_validators) i)

-- The manager's list has no two validators of one address.
abbrev pub IsManaged : Option (List Validator) → Type 0
IsManaged none = Unit
IsManaged (some vs) = IsDict (by_address vs)

load_validators-Counts :
    (now : ℕ) (h : Hooks) (c : Engine)
    → IsManaged h.get_validators
    → Counts c
    → Counts (load_validators now h c)
unfolding load_validators select_proposer
load_validators-Counts now h c u i =
    by_option Counts h.get_validators _ _ (λ l. i)
      (λ vs l.
        let s0 = record c { members = []; total_stake = pos 0; active_validators = 0 } in
        let s = load_each vs s0 in
        let j : Counts s =
          load_each-Counts vs s0 (subst IsManaged l u) (nothing-IsApart Validator (by_address vs))
            (record { summed = refl; covered = omega arith }) in
        by_test Counts
          (ltb 0 s.active_validators && (is_nobody s.current_proposer && is_waiting s.phase)) _ _
          (λ q. j) (λ q. j))

start-Counts :
    (now : ℕ) (h : Hooks) (c : Engine)
    → IsManaged h.get_validators
    → Counts c
    → Counts (start now h c)
unfolding start
start-Counts now h c u i =
    by_test Counts c.is_running _ _ (λ q. i)
      (λ q.
        load_validators-Counts now h (record c { is_running = true; phase = Phase.waiting }) u i)

handle_proposal_timeout-Counts :
    (f : Engine → Run) (now : ℕ) (c : Engine)
    → Keeps f
    → Counts c
    → RunCounts (handle_proposal_timeout f now c)
unfolding handle_proposal_timeout
handle_proposal_timeout-Counts f now c k i =
    elim c.current_proposer as (λ (p : Proposer). RunCounts (on_timeout f now c p)) [
      | someone a ↦
          k (record c { members = change a (blame now c.settings) c.members })
            (change-IsCounted a (blame now c.settings) c.members c.total_stake c.active_validators
              (blame-IsMild now c.settings) i)
      | nobody ↦ k c i
      | undefined_proposer ↦ k c i
    ]

send_precommit-Counts :
    (f : Engine → Run) (now : ℕ) (me : Text) (c : Engine)
    → Keeps f
    → Counts c
    → RunCounts (send_precommit f now me c)
unfolding send_precommit
send_precommit-Counts f now me c k i =
    by_test RunCounts (leb (threshold c) (length c.prevotes)) _ _
      (λ q.
        by_option RunCounts c.current_proposal _ _ (λ l. i)
          (λ p l. cast_vote-Counts f now VoteType.precommit me (vote_for p c) c k i))
      (λ q. i)

-- What is done to a shared object leaves its stake, and activates nobody.
abbrev pub IsMildEvent : Event → Type 0
IsMildEvent (altered a f) = IsMild f
IsMildEvent e = Unit

handle-Counts :
    (now : ℕ) (h : Hooks) (e : Event) (c : Engine)
    → IsManaged h.get_validators
    → IsMildEvent e
    → Counts c
    → RunCounts (handle now h e c)
unfolding handle stop alter
handle-Counts now h started c u m i = start-Counts now h c u i
handle-Counts now h stopped c u m i = i
handle-Counts now h loaded c u m i = load_validators-Counts now h c u i
handle-Counts now h block_due c u m i = run_rounds-Counts 1 now h c i
handle-Counts now h voting_over c u m i =
    finalize_voting-Counts _ now c (run_rounds-Counts 1 now h) i
handle-Counts now h proposal_late c u m i =
    handle_proposal_timeout-Counts _ now c (run_rounds-Counts 1 now h) i
handle-Counts now h (proposed b a) c u m i =
    handle_proposed_block-Counts _ now b a c (run_rounds-Counts 1 now h) i
handle-Counts now h (voted k a v) c u m i =
    cast_vote-Counts _ now k a v c (run_rounds-Counts 1 now h) i
handle-Counts now h (precommit_due a) c u m i =
    send_precommit-Counts _ now a c (run_rounds-Counts 1 now h) i
handle-Counts now h (added v) c u m i = add_validator-Counts now v c i
handle-Counts now h (removed a) c u m i = remove_validator-Counts a c i
handle-Counts now h (restake a x) c u m i = update_validator_stake-Counts now a x c i
handle-Counts now h (slashed a o) c u m i = slash_validator-Counts now a o c i
handle-Counts now h (altered a f) c u m i =
    change-IsCounted a f c.members c.total_stake c.active_validators m i

-- The validator lists of a log have no address twice, and what is done to the validators by others that
-- hold them is mild.
abbrev pub IsManagedLog : Log → Type 0
IsManagedLog es = All (λ (e : ℕ × Hooks × Event). IsManaged e.1.get_validators × IsMildEvent e.2) es

-- After any events, in any order, the engine's total stake is exactly the sum of the stakes of the
-- validators in its map, and its count of active validators, from which the threshold of votes is
-- computed, is never below the number of those that are active; provided that this holds at the start,
-- that the lists the manager returns have no address twice, and that what the manager does to a validator
-- object that it shares with the engine, between the events, leaves the stake and activates nobody, as
-- jailing it and counting its blocks do; the manager's `activateValidator`, and its `updateStake` with
-- another stake, do not.
pub totals_kept : (es : Log) (c : Engine) → IsManagedLog es → Counts c → Counts (replay es c)
unfolding replay
totals_kept [] c u i = i
totals_kept ((now, h, e) ∷ es) c u i =
    totals_kept es (handle now h e c).0 u.1 (handle-Counts now h e c u.0.0 u.0.1 i)
