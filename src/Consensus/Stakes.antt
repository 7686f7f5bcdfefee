-- ===== src/Consensus/Stakes.antt =====
-- The totals that src/consensus/rpos.js keeps next to its map of validators.
use bt2c.Base.{
  ℕ, ◌≡◌, refl, Bool, true, false, some, [], ◌∷◌, arith, by_test, by_option, if◌then◌else◌,
}
use bt2c.Base.Int.{ℤ, pos, ◌+ℤ◌, ◌≤ℤ◌, int_laws}
use bt2c.Base.Text.{Text}
use bt2c.Base.Dict.{Dict, lookup, insert}
use bt2c.Base.Totals.{sum_over, sum_over-insert}
use bt2c.Validator.{
  Validator, ValidatorState, state_eq, jail, tombstone, update_stats, update_reputation,
  check_and_jail_if_needed,
}
use bt2c.Consensus.Types.{Settings, Engine}
use bt2c.Consensus.Rounds.{credit, blame, one_more_point, uptime_of}
use bt2c.Consensus.Members.{change, each, jail_if_missing}

abbrev pub stake_of : Validator → ℤ
stake_of v = v.stake

-- 1 for an active validator.
abbrev pub activity : Validator → ℤ
activity v = if state_eq v.state ValidatorState.active then pos 1 else pos 0

-- The total is the sum of the stakes, and the count covers the active validators.
pub record IsCounted (d : Dict Validator) (total : ℤ) (n : ℕ) : Type 0 where
  pub summed : total ≡ sum_over stake_of d
  pub covered : sum_over activity d ≤ℤ pos n

-- What leaves the stake and activates nobody.
abbrev pub IsMild : (Validator → Validator) → Type 0
IsMild f = (v : Validator) → (stake_of (f v) ≡ stake_of v) × (activity (f v) ≤ℤ activity v)

pub insert-IsCounted :
    (a : Text) (v w : Validator) (d : Dict Validator) (t : ℤ) (n : ℕ)
    → lookup a d ≡ some v
    → stake_of w ≡ stake_of v
    → activity w ≤ℤ activity v
    → IsCounted d t n
    → IsCounted (insert a w d) t n
insert-IsCounted a v w d t n l s k i = record {
  summed = grind (int_laws, i.summed, l, s, sum_over-insert stake_of a w d);
  covered = grind (int_laws, i.covered, l, k, sum_over-insert activity a w d);
}

pub change-IsCounted :
    (a : Text) (f : Validator → Validator) (d : Dict Validator) (t : ℤ) (n : ℕ)
    → IsMild f
    → IsCounted d t n
    → IsCounted (change a f d) t n
change-IsCounted a f d t n m i =
    by_option (λ (e : Dict Validator). IsCounted e t n) (lookup a d) _ _ (λ l. i)
      (λ v l. insert-IsCounted a v (f v) d t n l (m v).0 (m v).1 i)

sum_grows : (a b x y : ℤ) → a ≤ℤ b → x ≤ℤ y → a +ℤ x ≤ℤ b +ℤ y
sum_grows a b x y h k = omega (int_laws, h, k)

each-stakes :
    (f : Validator → Validator) (d : Dict Validator)
    → IsMild f
    → (sum_over stake_of (each f d) ≡ sum_over stake_of d)
      × (sum_over activity (each f d) ≤ℤ sum_over activity d)
each-stakes f [] m = (refl, omega arith)
each-stakes f ((a, v) ∷ d) m =
    let (e, k) = each-stakes f d m in
    (rw ((m v).0, e) refl, sum_grows (activity (f v)) (activity v) _ _ (m v).1 k)

check_and_jail-IsMild :
    (now x y : ℕ) → IsMild (λ (v : Validator). (check_and_jail_if_needed now x y v).0)
unfolding check_and_jail_if_needed jail
check_and_jail-IsMild now x y v = (ground arith, ground arith)

pub jail_if_missing-IsMild : (now : ℕ) (o : Settings) → IsMild (jail_if_missing now o)
jail_if_missing-IsMild now o v =
    by_test (λ (w : Validator). (stake_of w ≡ stake_of v) × (activity w ≤ℤ activity v))
      (state_eq v.state ValidatorState.active) _ _
      (λ q. check_and_jail-IsMild now o.max_missed_blocks o.jail_duration v)
      (λ q. (refl, omega arith))

update_stats-IsMild : (b : Bool) → IsMild (update_stats b)
unfolding update_stats
update_stats-IsMild b v = (refl, omega arith)

update_reputation-IsMild :
    (b : Bool) (x y : Validator → ℕ) → IsMild (λ (v : Validator). update_reputation b (x v) (y v) v)
unfolding update_reputation
update_reputation-IsMild b x y v = (refl, omega arith)

IsMild-then :
    (f g : Validator → Validator) → IsMild f → IsMild g → IsMild (λ (v : Validator). g (f v))
IsMild-then f g m n v = (rw ((n (f v)).0) (m v).0, omega (arith, (n (f v)).1, (m v).1))

pub credit-IsMild : IsMild credit
credit-IsMild =
    IsMild-then (update_stats true)
      (λ (w : Validator). update_reputation true 100000 (uptime_of w) w) (update_stats-IsMild true)
      (update_reputation-IsMild true (λ (w : Validator). 100000) uptime_of)

pub blame-IsMild : (now : ℕ) (o : Settings) → IsMild (blame now o)
blame-IsMild now o =
    IsMild-then
      (λ (v : Validator).
        update_reputation false 0 (uptime_of (update_stats false v)) (update_stats false v))
      (λ (u : Validator). (check_and_jail_if_needed now o.max_missed_blocks o.jail_duration u).0)
      (IsMild-then (update_stats false)
        (λ (w : Validator). update_reputation false 0 (uptime_of w) w) (update_stats-IsMild false)
        (update_reputation-IsMild false (λ (w : Validator). 0) uptime_of))
      (check_and_jail-IsMild now o.max_missed_blocks o.jail_duration)

pub one_more_point-IsMild : IsMild one_more_point
one_more_point-IsMild v = (refl, omega arith)

pub tombstone-IsMild : IsMild tombstone
unfolding tombstone
tombstone-IsMild v = (refl, ground arith)

pub jail-IsMild : (now x : ℕ) → IsMild (jail now x)
unfolding jail
jail-IsMild now x v = (refl, ground arith)

pub each-IsCounted :
    (f : Validator → Validator) (d : Dict Validator) (t : ℤ) (n : ℕ)
    → IsMild f
    → IsCounted d t n
    → IsCounted (each f d) t n
each-IsCounted f d t n m i =
    let (e, k) = each-stakes f d m in
    record { summed = rw e i.summed; covered = omega (arith, k, i.covered) }

-- The engine's own totals.
abbrev pub Counts : Engine → Type 0
Counts c = IsCounted c.members c.total_stake c.active_validators
