-- ===== src/Manager/Choice.antt =====
-- The choice of a proposer by `selectValidator` of src/blockchain/validator_manager.js.
use bt2c.Base.{Option, none, some, List, [], ◌∷◌, if◌then◌else◌}
use bt2c.Base.Int.{ℤ, pos}
use bt2c.Validator.{Validator}
use bt2c.Manager.Types.{Reals}

module _ (r : Reals) where
  -- `calculateSelectionProbability` of src/blockchain/validator.js. A reputation counts 1/5000 of a point.
  unfoldable pub calculate_selection_probability : ℤ → Validator → r.Real
  calculate_selection_probability total_stake v =
      let points = r.over (r.number v.reputation) (r.number (pos 5000)) in
      let bound = r.over (r.number (pos 13333)) (r.number (pos 100)) in
      let half = r.over (r.number (pos 1)) (r.number (pos 2)) in
      r.times (r.over (r.number v.stake) (r.number total_stake)) (r.plus half (r.over points bound))

  -- The list with the sums up to each validator, and the last sum.
  abbrev pub cumulate : ℤ → r.Real → List Validator → List (Validator × r.Real) × r.Real
  cumulate total_stake c [] = ([], c)
  cumulate total_stake c (v ∷ vs) =
      let next = r.plus c (calculate_selection_probability total_stake v) in
      let (rest, last) = cumulate total_stake next vs in ((v, next) ∷ rest, last)

  abbrev pub normalize : r.Real → List (Validator × r.Real) → List (Validator × r.Real)
  normalize c [] = []
  normalize c ((v, p) ∷ ps) = (v, r.over p c) ∷ normalize c ps

  -- The first whose sum is not below the random value, else the default.
  abbrev pub pick : r.Real → Validator → List (Validator × r.Real) → Validator
  pick random default [] = default
  pick random default ((v, p) ∷ ps) =
      let rest = pick random default ps in if r.at_most random p then v else rest

  unfoldable pub choose : r.Real → ℤ → List Validator → Option Validator
  choose random total_stake [] = none
  choose random total_stake (v ∷ vs) =
      let zero = r.number (pos 0) in
      let (sums, last) = cumulate total_stake zero (v ∷ vs) in
      some (pick random v (if r.less zero last then normalize last sums else sums))
