-- ===== src/Consensus/Repeats.antt =====
-- Precommits that reach src/consensus/rpos.js after its block has been accepted.
use bt2c.Base.{
  ℕ, ◌≤◌, ◌≡◌, refl, sym, ap, ◌∙◌, some, [], ◌∷◌, inl, inr, Option-cases, true, arith, length,
  by_option,
}
use bt2c.Base.Text.{Text}
use bt2c.Base.Dict.{lookup, insert, Dict, contains, lookup-insert}
use bt2c.Validator.{Validator}
use bt2c.Consensus.Types.{Phase, VoteType, Vote, Candidate, Proposal, Engine, Run}
use bt2c.Consensus.Members.{
  award_block_reward, calculate_block_reward, check_and_jail_validators, each, change,
  jail_if_missing,
}
use bt2c.Consensus.Rounds.{
  credit, threshold, record_vote, cast_vote, finalize, accept_block, reward_proposer,
  schedule_next_block, one_more_point, needed,
}
use bt2c.Consensus.Closing.{settle, cast_vote_settles}
use bt2c.Consensus.Heights.{View, view-accept_block, view}
use bt2c.Consensus.Finality.{with_vote, finalize-some}

reward_some :
    (a : Text) (w : Validator) (c : Engine)
    → lookup a c.members ≡ some w
    → reward_proposer a c
      ≡ award_block_reward (record c { members = insert a (credit w) c.members })
unfolding reward_proposer
reward_some a w c l = ground (arith, l)

-- The supply after an accepted block of a known proposer: two rewards at the new height.
accept_block-supply :
    (now : ℕ) (b : Candidate) (a : Text) (w : Validator) (c : Engine)
    → lookup a c.members ≡ some w
    → (accept_block now b a c).total_supply
      ≡ (award_block_reward
          (award_block_reward (record c { current_height = b.height }))).total_supply
unfolding accept_block award_block_reward calculate_block_reward check_and_jail_validators
    schedule_next_block
accept_block-supply now b a w c l =
    rw (reward_some a w (record c { current_height = b.height; current_round = 0 }) l) refl

settle_enough :
    (now : ℕ) (s : Engine) → threshold s ≤ length s.precommits → settle now s ≡ finalize now s
settle_enough now s n = ground (arith, n)

-- With a proposal for the present height and enough precommits, one more precommit accepts it again.
again_pays :
    (f : Engine → Run) (now : ℕ) (a : Text) (v : Vote) (p : Proposal) (w : Validator) (c : Engine)
    → c.current_proposal ≡ some p
    → c.current_height ≡ p.block.height
    → lookup p.proposer_address c.members ≡ some w
    → threshold c ≤ length (insert a v c.precommits)
    → ((cast_vote f now VoteType.precommit a v c).0.current_height ≡ c.current_height)
      × ((cast_vote f now VoteType.precommit a v c).0.total_supply
          ≡ (award_block_reward (award_block_reward c)).total_supply)
unfolding record_vote threshold award_block_reward calculate_block_reward
again_pays f now a v p w c l h m n =
    let s = with_vote a v c in
    rw
      (
        cast_vote_settles f now VoteType.precommit a v c,
        settle_enough now s n,
        finalize-some now p s l,
      )
      (
        ap (λ (z : View). z.2)
              (view-accept_block now p.block p.proposer_address
                (record s { phase = Phase.finalizing }))
            ∙ sym h,
        accept_block-supply now p.block p.proposer_address w (record s { phase = Phase.finalizing })
              m
            ∙ ap
                (λ (k : ℕ).
                  (award_block_reward
                    (award_block_reward (record c { current_height = k }))).total_supply)
                (sym h),
      )

contains-insert :
    (x a : Text) (v : Validator) (d : Dict Validator)
    → contains x d ≡ true
    → contains x (insert a v d) ≡ true
contains-insert x a v d h = ground (arith, h, lookup-insert x a v d)

contains-change :
    (x a : Text) (f : Validator → Validator) (d : Dict Validator)
    → contains x d ≡ true
    → contains x (change a f d) ≡ true
contains-change x a f d h =
    by_option (λ (e : Dict Validator). contains x e ≡ true) (lookup a d) _ _ (λ l. h)
      (λ v l. contains-insert x a (f v) d h)

contains-each :
    (x : Text) (f : Validator → Validator) (d : Dict Validator)
    → contains x (each f d) ≡ contains x d
contains-each x f [] = refl
contains-each x f ((a, v) ∷ d) = ground (arith, contains-each x f d)

contains-reward_proposer :
    (x a : Text) (c : Engine)
    → contains x c.members ≡ true
    → contains x (reward_proposer a c).members ≡ true
unfolding reward_proposer award_block_reward
contains-reward_proposer x a c h =
    by_option (λ (e : Engine). contains x e.members ≡ true) (lookup a c.members) _ _ (λ l. h)
      (λ v l. contains-insert x a (credit v) c.members h)

-- An accepted block removes no validator.
contains-accept_block :
    (now : ℕ) (b : Candidate) (x a : Text) (c : Engine)
    → contains x c.members ≡ true
    → contains x (accept_block now b a c).members ≡ true
unfolding accept_block award_block_reward check_and_jail_validators schedule_next_block
contains-accept_block now b x a c h =
    let s = reward_proposer a (record c { current_height = b.height; current_round = 0 }) in
    let g =
      contains-reward_proposer x a (record c { current_height = b.height; current_round = 0 }) h in
    contains-change x a one_more_point (each (jail_if_missing now s.settings) s.members)
      (contains-each x (jail_if_missing now s.settings) s.members ∙ g)

length-insert_more : (a : Text) (v : Vote) (d : Dict Vote) → length d ≤ length (insert a v d)
length-insert_more a v [] = omega arith
length-insert_more a v ((b, w) ∷ d) = ground (arith, length-insert_more a v d)

-- The precommit that completes the threshold accepts the proposal.
accepting_precommit :
    (f : Engine → Run) (now : ℕ) (a : Text) (v : Vote) (p : Proposal) (c : Engine)
    → c.current_proposal ≡ some p
    → threshold c ≤ length (insert a v c.precommits)
    → (cast_vote f now VoteType.precommit a v c).0
      ≡ accept_block now p.block p.proposer_address
          (record (with_vote a v c) { phase = Phase.finalizing })
unfolding record_vote threshold
accepting_precommit f now a v p c l n =
    let s = with_vote a v c in
    rw
      (
        cast_vote_settles f now VoteType.precommit a v c,
        settle_enough now s n,
        finalize-some now p s l,
      )
      refl

-- The precommit that completes the threshold accepts the proposal, whose proposer is taken to be in the
-- map. The proposal and the votes stay, so a further precommit of anyone's accepts the block once more: the
-- height is as before, and the reward is paid twice again at that height.
pub late_precommit_pays :
    (f g : Engine → Run) (now later : ℕ) (a b : Text) (v w : Vote) (p : Proposal) (c : Engine)
    → c.current_proposal ≡ some p
    → contains p.proposer_address c.members ≡ true
    → threshold c ≤ length (insert a v c.precommits)
    → let accepted = (cast_vote f now VoteType.precommit a v c).0 in
      let late = (cast_vote g later VoteType.precommit b w accepted).0 in
      (accepted.current_height ≡ p.block.height)
      × (late.current_height ≡ accepted.current_height)
      × (late.total_supply ≡ (award_block_reward (award_block_reward accepted)).total_supply)
unfolding threshold
late_precommit_pays f g now later a b v w p c l m n =
    let s = record (with_vote a v c) { phase = Phase.finalizing } in
    let done = accept_block now p.block p.proposer_address s in
    let e : view done ≡ view (record s { current_height = p.block.height }) =
      view-accept_block now p.block p.proposer_address s in
    let h : done.current_height ≡ p.block.height = ap (λ (z : View). z.2) e in
    let votes : done.precommits ≡ insert a v c.precommits = ap (λ (z : View). z.3) e in
    let same : threshold done ≡ threshold c = ap (λ (z : View). needed z.0 z.1) e in
    let more : threshold done ≤ length (insert b w done.precommits) =
      rw (same, votes) (omega (arith, n, length-insert_more b w (insert a v c.precommits))) in
    let known = contains-accept_block now p.block p.proposer_address p.proposer_address s m in
    rw (accepting_precommit f now a v p c l n)
      (elim (Option-cases (lookup p.proposer_address done.members)) [
        | inl q ↦ absurd (ground (arith, q, known))
        | inr (u, q) ↦
            let r = again_pays g later b w p u done (ap (λ (z : View). z.4) e ∙ l) h q more in
            (h, r.0, r.1)
      ])
