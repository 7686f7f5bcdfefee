-- ===== src/Consensus/Growth.antt =====
-- The height of src/consensus/rpos.js along every sequence of events.
use bt2c.Base.{
  ℕ, ◌≡◌, refl, Bool, true, List, [], ◌∷◌, inl, by_test, by_option, length, ltb, leb, not, ◌&&◌,
}
use bt2c.Base.Int.{ℤ, pos, ltb_ℤ, ◌-ℤ◌}
use bt2c.Base.Text.{Text}
use bt2c.Base.Dict.{lookup, contains}
use bt2c.Utxo.{member}
use bt2c.Validator.{Validator}
use bt2c.Consensus.Types.{
  Phase, VoteType, Proposer, nobody, undefined_proposer, someone, Engine, Hooks, Run,
}
use bt2c.Consensus.Members.{
  change, is_in_distribution_period, award_developer_node_reward, award_early_validator_reward,
  greet, add_validator, remove_validator, update_validator_stake, slash_validator, slash_amount,
  load_each,
}
use bt2c.Consensus.Rounds.{threshold, vote_for, blame, select_proposer}
use bt2c.Consensus.Events.{
  load_validators, start, stop, on_timeout, handle_proposal_timeout, send_precommit, is_nobody,
  is_waiting, Event, started, stopped, loaded, block_due, voting_over, proposal_late, proposed,
  voted, precommit_due, added, removed, restake, slashed, altered, handle, Log, replay, alter,
}
use bt2c.Consensus.Heights.{
  view, Near, Advances, IsGood, Runs, Keeps, stay, cast_vote-Runs, finalize_voting-Runs,
  handle_proposed_block-Runs, run_rounds-Runs,
}

-- The height and the proposal are as before.
abbrev Quiet : Engine → Engine → Type 0
Quiet c s = (s.current_height ≡ c.current_height) × (s.current_proposal ≡ c.current_proposal)

Quiet-IsGood : (c s : Engine) → Quiet c s → Near c → IsGood c.current_height (view s)
Quiet-IsGood c s q i = (rw (q.0, q.1) i, inl q.0)

award_early-Quiet : (a : Text) (c : Engine) → Quiet c (award_early_validator_reward a c)
unfolding award_early_validator_reward
award_early-Quiet a c =
    by_option (Quiet c) (lookup a c.members) _ _ (λ l. (refl, refl))
      (λ v l.
        by_test (Quiet c) v.distribution_reward_claimed _ _ (λ q. (refl, refl)) (λ q. (refl, refl)))

greet-Quiet : (now : ℕ) (v : Validator) (c : Engine) → Quiet c (greet now v c)
unfolding greet award_developer_node_reward
greet-Quiet now v c =
    by_test (Quiet c) (not c.developer_node_set) _ _
      (λ q.
        by_test (Quiet c) (is_in_distribution_period now c.settings) _ _ (λ q'. (refl, refl))
          (λ q'. (refl, refl)))
      (λ q.
        by_test (Quiet c) (is_in_distribution_period now c.settings) _ _
          (λ q'. award_early-Quiet v.address c) (λ q'. (refl, refl)))

add_validator-Quiet : (now : ℕ) (v : Validator) (c : Engine) → Quiet c (add_validator now v c).0
unfolding add_validator
add_validator-Quiet now v c =
    by_test (λ (p : Engine × Bool). Quiet c p.0) (contains v.address c.members) _ _
      (λ q. (refl, refl))
      (λ q.
        by_test (λ (p : Engine × Bool). Quiet c p.0) (ltb_ℤ v.stake c.settings.minimum_stake) _ _
          (λ q'. (refl, refl)) (λ q'. greet-Quiet now v c))

remove_validator-Quiet : (a : Text) (c : Engine) → Quiet c (remove_validator a c).0
unfolding remove_validator
remove_validator-Quiet a c =
    by_option (λ (p : Engine × Bool). Quiet c p.0) (lookup a c.members) _ _ (λ l. (refl, refl))
      (λ v l. (refl, refl))

update_validator_stake-Quiet :
    (now : ℕ) (a : Text) (x : ℤ) (c : Engine) → Quiet c (update_validator_stake now a x c).0
unfolding update_validator_stake
update_validator_stake-Quiet now a x c =
    by_option (λ (p : Engine × Bool). Quiet c p.0) (lookup a c.members) _ _ (λ l. (refl, refl))
      (λ v l. (refl, refl))

slash_validator-Quiet : (now : ℕ) (a o : Text) (c : Engine) → Quiet c (slash_validator now a o c).0
unfolding slash_validator
slash_validator-Quiet now a o c =
    by_option (λ (p : Engine × Bool). Quiet c p.0) (lookup a c.members) _ _ (λ l. (refl, refl))
      (λ v l.
        by_test (λ (p : Engine × Bool). Quiet c p.0) (member o c.settings.tombstoning_offenses) _ _
          (λ q. (refl, refl))
          (λ q. update_validator_stake-Quiet now a (v.stake -ℤ slash_amount c.settings v.stake) c))

load_each-Quiet : (vs : List Validator) (c : Engine) → Quiet c (load_each vs c)
unfolding load_each
load_each-Quiet [] c = (refl, refl)
load_each-Quiet (v ∷ vs) c = load_each-Quiet vs _

load_validators-Quiet : (now : ℕ) (h : Hooks) (c : Engine) → Quiet c (load_validators now h c)
unfolding load_validators select_proposer
load_validators-Quiet now h c =
    by_option (Quiet c) h.get_validators _ _ (λ l. (refl, refl))
      (λ vs l.
        let s0 = record c { members = []; total_stake = pos 0; active_validators = 0 } in
        let s = load_each vs s0 in
        let j = load_each-Quiet vs s0 in
        by_test (Quiet c)
          (ltb 0 s.active_validators && (is_nobody s.current_proposer && is_waiting s.phase)) _ _
          (λ q. j) (λ q. j))

start-Quiet : (now : ℕ) (h : Hooks) (c : Engine) → Quiet c (start now h c)
unfolding start
start-Quiet now h c =
    by_test (Quiet c) c.is_running _ _ (λ q. (refl, refl))
      (λ q. load_validators-Quiet now h (record c { is_running = true; phase = Phase.waiting }))

handle_proposal_timeout-Runs :
    (f : Engine → Run) (now : ℕ) (c : Engine)
    → Keeps f
    → Near c
    → Runs c.current_height (handle_proposal_timeout f now c)
unfolding handle_proposal_timeout
handle_proposal_timeout-Runs f now c k i =
    elim c.current_proposer as (λ (p : Proposer). Runs c.current_height (on_timeout f now c p)) [
      | someone a ↦ k (record c { members = change a (blame now c.settings) c.members }) i
      | nobody ↦ k c i
      | undefined_proposer ↦ k c i
    ]

send_precommit-Runs :
    (f : Engine → Run) (now : ℕ) (me : Text) (c : Engine)
    → Near c
    → Runs c.current_height (send_precommit f now me c)
unfolding send_precommit
send_precommit-Runs f now me c i =
    by_test (Runs c.current_height) (leb (threshold c) (length c.prevotes)) _ _
      (λ q.
        by_option (Runs c.current_height) c.current_proposal _ _ (λ l. stay c i)
          (λ p l. cast_vote-Runs f now VoteType.precommit me (vote_for p c) c i))
      (λ q. stay c i)

handle-Runs :
    (now : ℕ) (h : Hooks) (e : Event) (c : Engine)
    → Near c
    → Runs c.current_height (handle now h e c)
unfolding handle stop alter
handle-Runs now h started c i = Quiet-IsGood c (start now h c) (start-Quiet now h c) i
handle-Runs now h stopped c i = stay c i
handle-Runs now h loaded c i =
    Quiet-IsGood c (load_validators now h c) (load_validators-Quiet now h c) i
handle-Runs now h block_due c i = run_rounds-Runs 1 now h c i
handle-Runs now h voting_over c i = finalize_voting-Runs _ now c (run_rounds-Runs 1 now h) i
handle-Runs now h proposal_late c i =
    handle_proposal_timeout-Runs _ now c (run_rounds-Runs 1 now h) i
handle-Runs now h (proposed b a) c i =
    handle_proposed_block-Runs _ now b a c (run_rounds-Runs 1 now h) i
handle-Runs now h (voted k a v) c i = cast_vote-Runs _ now k a v c i
handle-Runs now h (precommit_due a) c i = send_precommit-Runs _ now a c i
handle-Runs now h (added v) c i =
    Quiet-IsGood c (add_validator now v c).0 (add_validator-Quiet now v c) i
handle-Runs now h (removed a) c i =
    Quiet-IsGood c (remove_validator a c).0 (remove_validator-Quiet a c) i
handle-Runs now h (restake a x) c i =
    Quiet-IsGood c (update_validator_stake now a x c).0 (update_validator_stake-Quiet now a x c) i
handle-Runs now h (slashed a o) c i =
    Quiet-IsGood c (slash_validator now a o c).0 (slash_validator-Quiet now a o c) i
handle-Runs now h (altered a f) c i = stay (alter a f c) i

replay-Near : (es : Log) (c : Engine) → Near c → Near (replay es c)
unfolding replay
replay-Near [] c i = i
replay-Near ((now, h, e) ∷ es) c i = replay-Near es (handle now h e c).0 (handle-Runs now h e c i).0

-- After any events, one more event either leaves the height as it is, or raises it by exactly one; and
-- then the block accepted was proposed for that height, and the precommits at hand are at least the
-- threshold. It is assumed that a proposal stored at the start, if any, is for the height at the start
-- or the next.
pub heights_grow :
    (es : Log) (now : ℕ) (h : Hooks) (e : Event) (c : Engine)
    → Near c
    → Advances (replay es c).current_height (view (handle now h e (replay es c)).0)
heights_grow es now h e c i = (handle-Runs now h e (replay es c) (replay-Near es c i)).1
