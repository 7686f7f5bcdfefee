-- ===== src/Consensus/Heights.antt =====
-- When the height of src/consensus/rpos.js changes.
use mathlib.Core.Path.{subst}
use bt2c.Base.{
  ℕ, zero, suc, ◌+◌, ◌≤◌, ◌≡◌, refl, sym, true, Option, none, some, [], ◌⊎◌, inl, inr, arith,
  by_test, by_option, length, ltb, leb, not,
}
use bt2c.Base.Text.{Text}
use bt2c.Base.Dict.{Dict, lookup}
use bt2c.Consensus.Types.{Phase, VoteType, Vote, Candidate, Proposal, Settings, Engine, Hooks, Run}
use bt2c.Consensus.Members.{change, check_and_jail_validators, award_block_reward}
use bt2c.Consensus.Closing.{cast_vote_settles}
use bt2c.Consensus.Rounds.{
  own_address, is_own, blame, needed, threshold, vote_for, record_vote, reward_proposer,
  schedule_next_block, accept_block, finalize, finalize_voting, cast_vote, start_voting_phase,
  validate_block, reject_block, handle_proposed_block, propose_block, begin_round, select_proposer,
  run_consensus_round, run_rounds,
}

-- What decides on the height: the settings, the number of active validators, the height, the
-- precommits and the proposal.
abbrev pub View : Type 0
View = Settings × ℕ × ℕ × Dict Vote × Option Proposal

abbrev pub view : Engine → View
view c = (c.settings, c.active_validators, c.current_height, c.precommits, c.current_proposal)

pub view-reward_proposer : (a : Text) (c : Engine) → view (reward_proposer a c) ≡ view c
unfolding reward_proposer award_block_reward
view-reward_proposer a c =
    by_option (λ (s : Engine). view s ≡ view c) (lookup a c.members) _ _ (λ l. refl) (λ v l. refl)

pub view-accept_block :
    (now : ℕ) (b : Candidate) (a : Text) (c : Engine)
    → view (accept_block now b a c) ≡ view (record c { current_height = b.height })
unfolding accept_block award_block_reward check_and_jail_validators schedule_next_block
view-accept_block now b a c =
    view-reward_proposer a (record c { current_height = b.height; current_round = 0 })

-- A stored proposal is for the present height or the next one.
abbrev pub IsNear : ℕ → Option Proposal → Type 0
IsNear h none = Unit
IsNear h (some p) = (p.block.height ≡ h) ⊎ (p.block.height ≡ h + 1)

-- From the height `h` on: it is still `h`, or a block was accepted that was proposed for the next
-- height and has enough precommits.
abbrev pub Advances : ℕ → View → Type 0
Advances h (o, n, k, vs, q) =
    (k ≡ h)
    ⊎ ((k ≡ h + 1)
        × (needed o n ≤ length vs)
        × ((p : Proposal) × (q ≡ some p) × (p.block.height ≡ k)))

abbrev pub IsGood : ℕ → View → Type 0
IsGood h w = IsNear w.2 w.4 × Advances h w

abbrev pub Near : Engine → Type 0
Near c = IsNear c.current_height c.current_proposal

abbrev pub Runs : ℕ → Run → Type 0
Runs h r = IsGood h (view r.0)

abbrev pub Keeps : (Engine → Run) → Type 0
Keeps again = (c : Engine) → Near c → Runs c.current_height (again c)

pub stay : (c : Engine) → Near c → IsGood c.current_height (view c)
stay c i = (i, inl refl)

-- The proposal at hand becomes the block of its height.
settled :
    (o : Settings) (n h : ℕ) (vs : Dict Vote) (p : Proposal)
    → needed o n ≤ length vs
    → IsNear h (some p)
    → IsGood h (o, n, p.block.height, vs, some p)
settled o n h vs p e (inl k) = (inl refl, inl k)
settled o n h vs p e (inr k) = (inl refl, inr (k, e, (p, refl, refl)))

pub finalize-Runs :
    (now : ℕ) (c : Engine)
    → threshold c ≤ length c.precommits
    → Near c
    → Runs c.current_height (finalize now c)
unfolding finalize threshold
finalize-Runs now c e i =
    let o = c.settings in
    let n = c.active_validators in
    let h = c.current_height in
    by_option (Runs h) c.current_proposal _ _ (λ l. stay (record c { phase = Phase.finalizing }) i)
      (λ p l.
        subst (IsGood h)
          (sym (
            view-accept_block now p.block p.proposer_address
              (record c { phase = Phase.finalizing })))
          (subst (λ (q : Option Proposal). IsGood h (o, n, p.block.height, c.precommits, q)) (sym l)
            (settled o n h c.precommits p e (subst (IsNear h) l i))))

record_vote-view :
    (t : VoteType) (a : Text) (v : Vote) (c : Engine)
    → ((record_vote t a v c).current_height ≡ c.current_height)
      × ((record_vote t a v c).current_proposal ≡ c.current_proposal)
unfolding record_vote
record_vote-view VoteType.prevote a v c = (refl, refl)
record_vote-view VoteType.precommit a v c = (refl, refl)

pub cast_vote-Runs :
    (f : Engine → Run) (now : ℕ) (t : VoteType) (a : Text) (v : Vote) (c : Engine)
    → Near c
    → Runs c.current_height (cast_vote f now t a v c)
cast_vote-Runs f now t a v c i =
    let s = record_vote t a v c in
    let (eh, ep) = record_vote-view t a v c in
    let j : Near s = rw (eh, ep) i in
    rw (cast_vote_settles f now t a v c) (
      by_test (Runs c.current_height) (leb (threshold s) (length s.precommits)) _ _
        (λ q.
          subst (λ (h : ℕ). Runs h (finalize now s)) eh (finalize-Runs now s (ground (arith, q)) j))
        (λ q. (j, inl eh)))

pub finalize_voting-Runs :
    (f : Engine → Run) (now : ℕ) (c : Engine)
    → Keeps f
    → Near c
    → Runs c.current_height (finalize_voting f now c)
unfolding finalize_voting
finalize_voting-Runs f now c k i =
    by_test (Runs c.current_height) (leb (threshold c) (length c.precommits)) _ _
      (λ q. finalize-Runs now c (ground (arith, q)) i)
      (λ q. k (record c { current_round = c.current_round + 1 }) i)

pub valid_height :
    (b : Candidate) (a : Text) (c : Engine)
    → validate_block b a c ≡ true
    → b.height ≡ c.current_height + 1
unfolding validate_block
valid_height b a c v = ground (arith, v)

pub handle_proposed_block-Runs :
    (f : Engine → Run) (now : ℕ) (b : Candidate) (a : Text) (c : Engine)
    → Keeps f
    → Near c
    → Runs c.current_height (handle_proposed_block f now b a c)
unfolding handle_proposed_block start_voting_phase reject_block
handle_proposed_block-Runs f now b a c k i =
    let p : Proposal = record { block = b; proposer_address = a } in
    let s = record c {
      phase = Phase.voting;
      prevotes = [];
      precommits = [];
      current_proposal = some p;
    } in
    by_test (Runs c.current_height) (validate_block b a c) _ _
      (λ q.
        let j : Near s = inr (valid_height b a c q) in
        by_option (Runs c.current_height) (own_address c) _ _ (λ l. (j, inl refl))
          (λ me l. cast_vote-Runs f now VoteType.prevote me (vote_for p s) s j))
      (λ q. k (record c { members = change a (blame now c.settings) c.members }) i)

propose_block-Runs :
    (f : Engine → Run) (now : ℕ) (h : Hooks) (c : Engine)
    → Keeps f
    → Near c
    → Runs c.current_height (propose_block f now h c)
unfolding propose_block
propose_block-Runs f now h c k i =
    by_option (Runs c.current_height) (own_address c) _ _ (λ l. stay c i)
      (λ me l.
        by_test (Runs c.current_height) (is_own c.current_proposer (some me)) _ _
          (λ q. handle_proposed_block-Runs f now _ me (record c { phase = Phase.proposing }) k i)
          (λ q. stay c i))

begin_round-Near :
    (now : ℕ) (h : Hooks) (c : Engine)
    → ((begin_round now h c).current_height ≡ c.current_height) × Near (begin_round now h c)
unfolding begin_round select_proposer
begin_round-Near now h c = (refl, tt)

run_consensus_round-Runs :
    (f : Engine → Run) (now : ℕ) (h : Hooks) (c : Engine)
    → Keeps f
    → Near c
    → Runs c.current_height (run_consensus_round f now h c)
unfolding run_consensus_round
run_consensus_round-Runs f now h c k i =
    let s = begin_round now h c in
    let (e, j) = begin_round-Near now h c in
    by_test (Runs c.current_height) (not c.is_running) _ _ (λ q. stay c i)
      (λ q.
        by_test (Runs c.current_height) (ltb c.active_validators c.settings.min_validators) _ _
          (λ q'. stay c i)
          (λ q'.
            by_test (Runs c.current_height) (is_own s.current_proposer (own_address s)) _ _
              (λ r.
                subst (λ (n : ℕ). Runs n (propose_block f now h s)) e
                  (propose_block-Runs f now h s k j))
              (λ r. (j, inl e))))

pub run_rounds-Runs : (n now : ℕ) (h : Hooks) → Keeps (run_rounds n now h)
unfolding run_rounds
run_rounds-Runs zero now h c i = stay c i
run_rounds-Runs (suc n) now h c i =
    run_consensus_round-Runs (run_rounds n now h) now h c (run_rounds-Runs n now h) i
