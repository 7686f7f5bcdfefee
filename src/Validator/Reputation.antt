-- ===== src/Validator/Reputation.antt =====
-- The bounds of a validator's reputation and uptime (src/blockchain/validator.js).
use bt2c.Base.{ℕ, ◌*◌, ◌≤◌, ◌<◌, arith}
use bt2c.Base.Int.{pos, ◌≤ℤ◌, int_laws}
use bt2c.Validator.{Validator, points, new}
use bt2c.Validator.Lifecycle.{Call, perform}

-- The reputation lies between 0 and 200 points, and the uptime is a quotient between 0% and 100%.
pub record IsBounded (v : Validator) : Type 0 where
  pub reputation_low : pos 0 ≤ℤ v.reputation
  pub reputation_high : v.reputation ≤ℤ points 200
  pub uptime_defined : 0 < v.uptime_den
  pub uptime_high : v.uptime_num ≤ 100 * v.uptime_den

-- A new validator is within the bounds.
pub new-IsBounded :
    (now : ℕ) (v : Validator) → IsBounded (new now v.address v.public_key v.stake v.moniker)
unfolding new
new-IsBounded now v = omega arith

-- Every method of the class keeps the reputation between 0 and 200 points and the uptime a quotient
-- between 0% and 100%.
pub perform-IsBounded : (c : Call) (v : Validator) → IsBounded v → IsBounded (perform c v)
unfolding perform
perform-IsBounded (Call.update_reputation_call p a u) v h = grind int_laws
perform-IsBounded (Call.jail_call now d) v h = grind int_laws
perform-IsBounded (Call.check_and_jail_call now m d) v h = grind int_laws
perform-IsBounded _ v h = grind int_laws
