-- ===== src/Consensus/Finality.antt =====
-- What precommits do in src/consensus/rpos.js.
use mathlib.Core.Path.{subst}
use bt2c.Base.{
  ℕ, ◌+◌, ◌≤◌, ◌<◌, ◌≡◌, refl, sym, ap, ◌∙◌, true, false, some, List, [], ◌∷◌, arith, by_test,
  by_option, length, leb,
}
use bt2c.Base.Text.{Text}
use bt2c.Base.Dict.{insert, IsDict, IsApart, insert-IsApart, nothing-IsApart, length-insert_new}
use bt2c.Consensus.Types.{Phase, VoteType, Vote, Candidate, Proposal, Engine, Run}
use bt2c.Consensus.Rounds.{
  needed, threshold, own_address, vote_for, validate_block, start_voting_phase,
  handle_proposed_block, record_vote, cast_vote, finalize, accept_block,
}
use bt2c.Consensus.Closing.{settle, cast_vote_settles}
use bt2c.Consensus.Heights.{View, view, view-accept_block, valid_height}

-- Precommits one after the other, with whatever stands for a next round.
unfoldable pub precommit_all : (Engine → Run) → ℕ → List (Text × Vote) → Engine → Engine
precommit_all f now [] c = c
precommit_all f now ((a, v) ∷ vs) c =
    precommit_all f now vs (cast_vote f now VoteType.precommit a v c).0

pub finalize-some :
    (now : ℕ) (p : Proposal) (c : Engine)
    → c.current_proposal ≡ some p
    → finalize now c
      ≡ (accept_block now p.block p.proposer_address (record c { phase = Phase.finalizing }), false)
unfolding finalize
finalize-some now p c l = ground (arith, l)

-- A proposal at hand that is finalised becomes the block of its height.
finalize-view :
    (now : ℕ) (p : Proposal) (c : Engine)
    → c.current_proposal ≡ some p
    → view (finalize now c).0 ≡ view (record c { current_height = p.block.height })
finalize-view now p c l =
    rw (finalize-some now p c l)
      (view-accept_block now p.block p.proposer_address (record c { phase = Phase.finalizing }))

-- The vote with the others.
abbrev pub with_vote : Text → Vote → Engine → Engine
with_vote a v c = record c { precommits = insert a v c.precommits }

-- What a precommit leaves, in terms of what decides on the height.
data After (p : Proposal) (s c : Engine) : Type 0 where
  accepts : view c ≡ view (record s { current_height = p.block.height }) → After p s c
  waits : length s.precommits < threshold s → c ≡ s → After p s c

precommit-After :
    (f : Engine → Run) (now : ℕ) (a : Text) (v : Vote) (p : Proposal) (c : Engine)
    → c.current_proposal ≡ some p
    → After p (with_vote a v c) (cast_vote f now VoteType.precommit a v c).0
unfolding record_vote
precommit-After f now a v p c l =
    let s = with_vote a v c in
    rw (cast_vote_settles f now VoteType.precommit a v c) (
      by_test (λ (r : Run). After p s r.0) (leb (threshold s) (length s.precommits)) _ _
        (λ q. accepts (finalize-view now p s l)) (λ q. waits (ground (arith, q)) refl))

-- A block that is accepted stays accepted, whatever precommits follow.
accepted_stays :
    (f : Engine → Run) (now : ℕ) (vs : List (Text × Vote)) (p : Proposal) (c : Engine)
    → c.current_proposal ≡ some p
    → c.current_height ≡ p.block.height
    → (precommit_all f now vs c).current_height ≡ p.block.height
unfolding precommit_all
accepted_stays f now [] p c l h = h
accepted_stays f now ((a, v) ∷ vs) p c l h =
    let d = (cast_vote f now VoteType.precommit a v c).0 in
    elim (precommit-After f now a v p c l) [
      | accepts e ↦
          accepted_stays f now vs p d (ap (λ (w : View). w.4) e ∙ l) (ap (λ (w : View). w.2) e)
      | waits q e ↦
          accepted_stays f now vs p d (ap (λ (x : Engine). x.current_proposal) e ∙ l)
            (ap (λ (x : Engine). x.current_height) e ∙ h)
    ]

-- The same while precommits are still missing.
accepted_in_time :
    (f : Engine → Run) (now : ℕ) (vs : List (Text × Vote)) (p : Proposal) (c : Engine)
    → c.current_proposal ≡ some p
    → IsDict vs
    → IsApart vs c.precommits
    → length c.precommits < threshold c
    → threshold c ≤ length c.precommits + length vs
    → (precommit_all f now vs c).current_height ≡ p.block.height
unfolding precommit_all threshold
accepted_in_time f now [] p c l u x m n = absurd (ground (arith, m, n))
accepted_in_time f now ((a, v) ∷ vs) p c l u x m n =
    let d = (cast_vote f now VoteType.precommit a v c).0 in
    let s = with_vote a v c in
    let size = length-insert_new a v c.precommits x.0 in
    elim (precommit-After f now a v p c l) [
      | accepts e ↦
          accepted_stays f now vs p d (ap (λ (w : View). w.4) e ∙ l) (ap (λ (w : View). w.2) e)
      | waits q e ↦
          subst (λ (z : Engine). (precommit_all f now vs z).current_height ≡ p.block.height) (sym e)
            (accepted_in_time f now vs p s l u.1 (insert-IsApart a v vs c.precommits u.0 x.1) q
              (omega (arith, size, n)))
    ]

prevote_waits :
    (now : ℕ) (me : Text) (p : Proposal) (c : Engine)
    → 0 < threshold c
    → let s = record c {
      phase = Phase.voting;
      prevotes = [];
      precommits = [];
      current_proposal = some p;
    } in
      view (settle now (record_vote VoteType.prevote me (vote_for p s) s)).0
      ≡ view (record c { precommits = []; current_proposal = some p })
unfolding record_vote threshold
prevote_waits now me p c t = ground (arith, t)

-- A valid proposal opens the voting, without any precommit.
voting-view :
    (f : Engine → Run) (now : ℕ) (b : Candidate) (a : Text) (c : Engine)
    → validate_block b a c ≡ true
    → 0 < threshold c
    → view (handle_proposed_block f now b a c).0
      ≡ view (record c {
        precommits = [];
        current_proposal = some (record { block = b; proposer_address = a });
      })
unfolding handle_proposed_block start_voting_phase threshold
voting-view f now b a c v t =
    let p : Proposal = record { block = b; proposer_address = a } in
    let s = record c {
      phase = Phase.voting;
      prevotes = [];
      precommits = [];
      current_proposal = some p;
    } in
    rw v (
      by_option
        (λ (r : Run). view r.0 ≡ view (record c { precommits = []; current_proposal = some p }))
        (own_address c) _ _ (λ l. refl)
        (λ me l.
          rw (cast_vote_settles f now VoteType.prevote me (vote_for p s) s)
            (prevote_waits now me p c t)))

-- A valid proposal becomes the block of the next height as soon as as many different addresses as the
-- threshold, or more, have sent a precommit, in whatever order, and whatever their votes say; given that
-- the threshold is not 0 and nothing else happens meanwhile.
pub enough_precommits :
    (f : Engine → Run) (now : ℕ) (b : Candidate) (a : Text) (vs : List (Text × Vote)) (c : Engine)
    → validate_block b a c ≡ true
    → 0 < threshold c
    → IsDict vs
    → threshold c ≤ length vs
    → (precommit_all f now vs (handle_proposed_block f now b a c).0).current_height
      ≡ c.current_height + 1
unfolding threshold
enough_precommits f now b a vs c v t u n =
    let p : Proposal = record { block = b; proposer_address = a } in
    let s = (handle_proposed_block f now b a c).0 in
    let e = voting-view f now b a c v t in
    let votes : s.precommits ≡ [] = ap (λ (w : View). w.3) e in
    let same : threshold s ≡ threshold c = ap (λ (w : View). needed w.0 w.1) e in
    accepted_in_time f now vs p s (ap (λ (w : View). w.4) e) u (rw votes (nothing-IsApart Vote vs))
      (rw (votes, same) t) (rw (votes, same) (omega (arith, n)))
    ∙ valid_height b a c v
