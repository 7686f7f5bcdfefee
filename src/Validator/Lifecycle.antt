-- ===== src/Validator/Lifecycle.antt =====
-- The states of a validator (src/blockchain/validator.js) as a diagram, and what its methods may do
-- to them.
use bt2c.Base.{ℕ, ◌+◌, ◌*◌, ◌≤◌, ◌<◌, ◌≡◌, refl, ◌∙◌, Bool, arith, List, [], ◌∷◌, All}
use bt2c.Validator.{
  ValidatorState, Validator, update_reputation, jail, try_unjail, tombstone, activate, deactivate,
  update_stats, check_and_jail_if_needed,
}

-- A call of a method of the class, with the clock that it reads.
pub data Call : Type 0 where
  update_reputation_call : Bool → ℕ → ℕ → Call
  jail_call : ℕ → ℕ → Call
  try_unjail_call activate_call : ℕ → Call
  tombstone_call deactivate_call : Call
  update_stats_call : Bool → Call
  check_and_jail_call : ℕ → ℕ → ℕ → Call

unfoldable pub perform : Call → Validator → Validator
unfolding update_reputation jail try_unjail tombstone activate deactivate update_stats
    check_and_jail_if_needed
perform (update_reputation_call p a u) v = update_reputation p a u v
perform (jail_call now d) v = jail now d v
perform (try_unjail_call now) v = (try_unjail now v).0
perform (activate_call now) v = (activate now v).0
perform tombstone_call v = tombstone v
perform deactivate_call v = deactivate v
perform (update_stats_call p) v = update_stats p v
perform (check_and_jail_call now m d) v = (check_and_jail_if_needed now m d v).0

unfoldable pub perform_all : List Call → Validator → Validator
perform_all [] v = v
perform_all (c ∷ cs) v = perform_all cs (perform c v)

-- The calls that put a validator in jail, from any state.
abbrev pub Jails : Call → Type 0
Jails (jail_call now d) = Unit
Jails (check_and_jail_call now m d) = Unit
Jails _ = ⊥

abbrev pub NoneJails : List Call → Type 0
NoneJails [] = Unit
NoneJails (c ∷ cs) = (¬ (Jails c)) × NoneJails cs

tombstoned_step :
    (c : Call) (v : Validator)
    → ¬ (Jails c)
    → v.state ≡ ValidatorState.tombstoned
    → (perform c v).state ≡ ValidatorState.tombstoned
unfolding perform
tombstoned_step (update_reputation_call p a u) v n h = h
tombstoned_step (jail_call now d) v n h = absurd (n tt)
tombstoned_step (check_and_jail_call now m d) v n h = absurd (n tt)
tombstoned_step _ v n h = ground arith

-- A tombstoned validator stays tombstoned under every sequence of calls in which none is `jail` or
-- `checkAndJailIfNeeded`.
pub tombstoned_forever :
    (cs : List Call) (v : Validator)
    → NoneJails cs
    → v.state ≡ ValidatorState.tombstoned
    → (perform_all cs v).state ≡ ValidatorState.tombstoned
unfolding perform_all
tombstoned_forever [] v n h = h
tombstoned_forever (c ∷ cs) v n h =
    tombstoned_forever cs (perform c v) n.1 (tombstoned_step c v n.0 h)

-- Every tombstoned validator can be made active again: `jail` does not look at the state, so jailing
-- it, waiting past the end of the term and activating it brings it back.
pub tombstone_undone :
    (v : Validator) (now duration later : ℕ)
    → now + duration * 1000 < later
    → (activate later (try_unjail later (jail now duration (tombstone v))).0).0.state
      ≡ ValidatorState.active
unfolding activate try_unjail jail tombstone
tombstone_undone v now duration later h = ground arith

-- The calls that keep a validator in jail up to the time `term`: those that read a clock before
-- the end of the term or change neither state nor term.
abbrev pub KeepsJailed : ℕ → Call → Type 0
KeepsJailed term (update_reputation_call p a u) = Unit
KeepsJailed term (try_unjail_call now) = now ≤ term
KeepsJailed term (activate_call now) = Unit
KeepsJailed term deactivate_call = Unit
KeepsJailed term (update_stats_call p) = Unit
KeepsJailed term _ = ⊥

jailed_step :
    (c : Call) (v : Validator)
    → KeepsJailed v.jailed_until c
    → v.state ≡ ValidatorState.jailed
    → ((perform c v).state ≡ ValidatorState.jailed) × ((perform c v).jailed_until ≡ v.jailed_until)
unfolding perform
jailed_step (update_reputation_call p a u) v k h = (h, refl)
jailed_step (jail_call now d) v k h = absurd k
jailed_step tombstone_call v k h = absurd k
jailed_step (check_and_jail_call now m d) v k h = absurd k
jailed_step _ v k h = ground arith

jailed_through :
    (cs : List Call) (v : Validator) (term : ℕ)
    → All (KeepsJailed term) cs
    → v.state ≡ ValidatorState.jailed
    → v.jailed_until ≡ term
    → (perform_all cs v).state ≡ ValidatorState.jailed
unfolding perform_all
jailed_through [] v term a h e = h
jailed_through (c ∷ cs) v term a h e =
    let s = jailed_step c v (rw e a.0) h in jailed_through cs (perform c v) term a.1 s.0 (s.1 ∙ e)

-- A validator jailed at `now` for `duration` seconds is still jailed after any sequence of calls of
-- `tryUnjail` before the end of that term, `activate`, `deactivate`, `updateStats` and
-- `updateReputation`; and once the clock is past the end, `tryUnjail` and `activate` make it active.
pub jail_term :
    (cs : List Call) (v : Validator) (now duration later : ℕ)
    → All (KeepsJailed (now + duration * 1000)) cs
    → now + duration * 1000 < later
    → ((perform_all cs (jail now duration v)).state ≡ ValidatorState.jailed)
      × ((activate later (try_unjail later (jail now duration v)).0).0.state
          ≡ ValidatorState.active)
unfolding jail try_unjail activate
jail_term cs v now duration later a h =
    (jailed_through cs (jail now duration v) (now + duration * 1000) a refl refl, ground arith)
