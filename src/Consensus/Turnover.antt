-- ===== src/Consensus/Turnover.antt =====
-- The totals of src/consensus/rpos.js when validators come, go, change their stake or are slashed.
use bt2c.Base.{
  ℕ, ◌+◌, ◌*◌, ◌∙◌, ◌≡◌, Bool, true, none, some, [], ◌∷◌, arith, by_test, by_option, if◌then◌else◌,
}
use bt2c.Base.Int.{ℤ, pos, ◌+ℤ◌, ◌-ℤ◌, ◌≤ℤ◌, ltb_ℤ, int_laws}
use bt2c.Base.Text.{Text}
use bt2c.Base.Dict.{Dict, lookup, contains, insert, erase}
use bt2c.Base.Totals.{sum_over, sum_over-insert, sum_over-erase}
use bt2c.Utxo.{member}
use bt2c.Validator.{Validator, jail, tombstone, activate, deactivate}
use bt2c.Consensus.Types.{Engine}
use bt2c.Consensus.Members.{
  award_developer_node_reward, award_early_validator_reward, greet, add_validator, remove_validator,
  restaked, recounted, update_validator_stake, slash_amount, slash_validator,
}
use bt2c.Consensus.Stakes.{
  stake_of, activity, IsCounted, Counts, change-IsCounted, tombstone-IsMild, jail-IsMild,
}

-- A newcomer is not in the map yet, so its rewards do not touch it.
award_early_stranger :
    (a : Text) (c : Engine) → lookup a c.members ≡ none → award_early_validator_reward a c ≡ c
unfolding award_early_validator_reward
award_early_stranger a c l = ground (arith, l)

abbrev SameCounts : Engine → Engine → Type 0
SameCounts s c =
    (s.members ≡ c.members)
    × (s.total_stake ≡ c.total_stake)
    × (s.active_validators ≡ c.active_validators)

greet-SameCounts :
    (now : ℕ) (v : Validator) (c : Engine)
    → lookup v.address c.members ≡ none
    → SameCounts (greet now v c) c
unfolding greet award_developer_node_reward
greet-SameCounts now v c l =
    rw (award_early_stranger v.address c l) (ground arith, ground arith, ground arith)

activity_nonneg : (d : Dict Validator) → pos 0 ≤ℤ sum_over activity d
activity_nonneg [] = omega arith
activity_nonneg ((a, v) ∷ d) = grind (int_laws, activity_nonneg d)

one_more : (v : Validator) (n : ℕ) → activity v +ℤ pos n ≤ℤ pos (n + 1)
one_more v n = grind int_laws

-- A validator that is put where none was, and one that is put for another.
pub join-IsCounted :
    (a : Text) (v : Validator) (x : ℤ) (d : Dict Validator) (t : ℤ) (n m : ℕ)
    → lookup a d ≡ none
    → v.stake ≡ x
    → activity v +ℤ pos n ≤ℤ pos m
    → IsCounted d t n
    → IsCounted (insert a v d) (t +ℤ x) m
join-IsCounted a v x d t n m l s k i = record {
  summed = grind (int_laws, i.summed, l, s, sum_over-insert stake_of a v d);
  covered = grind (int_laws, i.covered, l, k, sum_over-insert activity a v d);
}

replace-IsCounted :
    (a : Text) (v w : Validator) (x : ℤ) (d : Dict Validator) (t : ℤ) (n m : ℕ)
    → lookup a d ≡ some v
    → w.stake ≡ x
    → activity w +ℤ pos n ≤ℤ activity v +ℤ pos m
    → IsCounted d t n
    → IsCounted (insert a w d) ((t -ℤ v.stake) +ℤ x) m
replace-IsCounted a v w x d t n m l s k i = record {
  summed = grind (int_laws, i.summed, l, s, sum_over-insert stake_of a w d);
  covered = grind (int_laws, i.covered, l, k, sum_over-insert activity a w d);
}

activate_stake : (now : ℕ) (v : Validator) → (activate now v).0.stake ≡ v.stake
unfolding activate
activate_stake now v = ground arith

named_stake :
    (b : Bool) (v : Validator)
    → (if b then v else record v { is_first_validator = true }).stake ≡ v.stake
named_stake b v = ground arith

pub add_validator-Counts :
    (now : ℕ) (v : Validator) (c : Engine) → Counts c → Counts (add_validator now v c).0
unfolding add_validator
add_validator-Counts now v c i =
    let w = if c.developer_node_set then v else record v { is_first_validator = true } in
    by_test (λ (p : Engine × Bool). Counts p.0) (contains v.address c.members) _ _ (λ q. i)
      (λ q.
        by_test (λ (p : Engine × Bool). Counts p.0) (ltb_ℤ v.stake c.settings.minimum_stake) _ _
          (λ q'. i)
          (λ q'.
            let l : lookup v.address c.members ≡ none = ground (arith, q) in
            let (em, et, en) = greet-SameCounts now v c l in
            rw (em, et, en)
              (join-IsCounted v.address (activate now w).0 v.stake c.members c.total_stake
                c.active_validators (c.active_validators + 1) l
                (activate_stake now w ∙ named_stake c.developer_node_set v)
                (one_more (activate now w).0 c.active_validators) i)))

pub remove_validator-Counts : (a : Text) (c : Engine) → Counts c → Counts (remove_validator a c).0
unfolding remove_validator
remove_validator-Counts a c i =
    by_option (λ (p : Engine × Bool). Counts p.0) (lookup a c.members) _ _ (λ l. i)
      (λ v l. record {
        summed = grind (int_laws, i.summed, l, sum_over-erase stake_of a c.members);
        covered = grind (
          int_laws,
          i.covered,
          l,
          sum_over-erase activity a c.members,
          activity_nonneg (erase a c.members),
        );
      })

-- The count follows the validator.
restaked_activity :
    (now : ℕ) (m x : ℤ) (v : Validator) (n : ℕ)
    → activity v ≤ℤ pos n
    → activity (restaked now m x v) +ℤ pos n ≤ℤ activity v +ℤ pos (recounted m x v n)
unfolding restaked recounted activate deactivate
restaked_activity now m x v n h = grind (int_laws, h)

restaked_stake : (now : ℕ) (m x : ℤ) (v : Validator) → (restaked now m x v).stake ≡ x
unfolding restaked activate deactivate
restaked_stake now m x v = ground arith

pub update_validator_stake-Counts :
    (now : ℕ) (a : Text) (x : ℤ) (c : Engine)
    → Counts c
    → Counts (update_validator_stake now a x c).0
unfolding update_validator_stake
update_validator_stake-Counts now a x c i =
    let m = c.settings.minimum_stake in
    by_option (λ (p : Engine × Bool). Counts p.0) (lookup a c.members) _ _ (λ l. i)
      (λ v l.
        let some_left : activity v ≤ℤ pos c.active_validators = grind (
          int_laws,
          i.covered,
          l,
          sum_over-erase activity a c.members,
          activity_nonneg (erase a c.members),
        ) in
        replace-IsCounted a v (restaked now m x v) x c.members c.total_stake c.active_validators
          (recounted m x v c.active_validators) l (restaked_stake now m x v)
          (restaked_activity now m x v c.active_validators some_left) i)

pub slash_validator-Counts :
    (now : ℕ) (a o : Text) (c : Engine) → Counts c → Counts (slash_validator now a o c).0
unfolding slash_validator
slash_validator-Counts now a o c i =
    by_option (λ (p : Engine × Bool). Counts p.0) (lookup a c.members) _ _ (λ l. i)
      (λ v l.
        by_test (λ (p : Engine × Bool). Counts p.0) (member o c.settings.tombstoning_offenses) _ _
          (λ q.
            change-IsCounted a tombstone c.members c.total_stake c.active_validators
              tombstone-IsMild i)
          (λ q.
            let s =
              (update_validator_stake now a (v.stake -ℤ slash_amount c.settings v.stake) c).0 in
            change-IsCounted a (jail now (c.settings.jail_duration * 2)) s.members s.total_stake
              s.active_validators (jail-IsMild now (c.settings.jail_duration * 2))
              (update_validator_stake-Counts now a (v.stake -ℤ slash_amount c.settings v.stake) c
                i)))
