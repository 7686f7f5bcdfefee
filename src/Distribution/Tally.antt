-- ===== src/Distribution/Tally.antt =====
-- The books of the distribution period (src/consensus/distribution.js).
use bt2c.Base.{
  ℕ, suc, ◌+◌, ◌*◌, ◌≡◌, ◌∙◌, refl, Bool, true, false, List, [], ◌∷◌, ◌⊎◌, inl, inr, arith, length,
  if◌then◌else◌, ap, sym,
}
use bt2c.Base.Text.{Text, text_eq, text_eq_refl}
use bt2c.Utxo.{member, set_add}
use bt2c.Utxo.Sets.{IsDistinct, member-set_add, set_add-IsDistinct}
use bt2c.Distribution.{
  RewardType, PeriodOptions, Period, Eligibility, eligible, ineligible, rewarded, refused, failed,
  Refusal, RewardResult, finish_reward, new_period, check_eligibility, record_reward,
  process_reward,
}

-- A request: the clock, the address, and whether it is said to be the developer's.
abbrev pub Request : Type 0
Request = ℕ × Text × Bool

module _ {ℓ} {S : Type ℓ} (add_balance : Text → ℕ → S → S × Bool) where
  unfoldable pub serve : List Request → Period × S → Period × S
  serve [] ps = ps
  serve ((now, a, dev) ∷ rs) ps = serve rs (process_reward add_balance now a dev ps).0

-- The counters and the total say what has been paid, to addresses that are all different.
pub record IsTally (p : Period) : Type 0 where
  pub distinct : IsDistinct p.rewarded_addresses
  pub counted :
      length p.rewarded_addresses ≡ p.validators_rewarded + (if p.developer_rewarded then 1 else 0)
  pub summed :
      p.total_distributed
      ≡ p.validators_rewarded * p.options.validator_reward
        + (if p.developer_rewarded then p.options.developer_reward else 0)

length-set_add :
    (o : Text) (os : List Text) → member o os ≡ false → length (set_add o os) ≡ suc (length os)
length-set_add o [] h = refl
length-set_add o (y ∷ os) h = ground (arith, h, length-set_add o os)

new_period-IsTally : (o : PeriodOptions) → IsTally (new_period o)
unfolding new_period
new_period-IsTally o = record { distinct = tt; counted = refl; summed = omega arith }

validator-IsTally :
    (a : Text) (p : Period)
    → member a p.rewarded_addresses ≡ false
    → IsTally p
    → IsTally (record_reward a RewardType.validator p.options.validator_reward p)
unfolding record_reward
validator-IsTally a p n t = record {
  distinct = set_add-IsDistinct a p.rewarded_addresses t.distinct;
  counted = omega (arith, length-set_add a p.rewarded_addresses n, t.counted);
  summed = grind (arith, t.summed);
}

developer-IsTally :
    (a : Text) (p : Period)
    → member a p.rewarded_addresses ≡ false
    → p.developer_rewarded ≡ false
    → IsTally p
    → IsTally (record_reward a RewardType.developer p.options.developer_reward p)
unfolding record_reward
developer-IsTally a p n d t = record {
  distinct = set_add-IsDistinct a p.rewarded_addresses t.distinct;
  counted = ground (arith, d, length-set_add a p.rewarded_addresses n, t.counted);
  summed = ground (arith, d, t.summed);
}

-- The reward of each kind, and whether the kind has been used up.
abbrev pub reward_of : RewardType → PeriodOptions → ℕ
reward_of RewardType.developer o = o.developer_reward
reward_of RewardType.validator o = o.validator_reward

abbrev used_up : RewardType → Period → Bool
used_up RewardType.developer p = p.developer_rewarded
used_up RewardType.validator p = false

pub Eligibility-cases :
    (e : Eligibility)
    → ((r : Refusal) × (e ≡ ineligible r)) ⊎ ((k : RewardType) × (x : ℕ) × (e ≡ eligible k x))
Eligibility-cases (ineligible r) = inl (r, refl)
Eligibility-cases (eligible k x) = inr (k, x, refl)

eligible_facts :
    (now : ℕ) (a : Text) (dev : Bool) (p : Period) (k : RewardType) (x : ℕ)
    → check_eligibility now a dev p ≡ eligible k x
    → (member a p.rewarded_addresses ≡ false) × (x ≡ reward_of k p.options) × (used_up k p ≡ false)
unfolding check_eligibility
eligible_facts now a dev p RewardType.developer x e = ground (arith, e)
eligible_facts now a dev p RewardType.validator x e = ground (arith, e)

record_reward-IsTally :
    (k : RewardType) (a : Text) (p : Period)
    → member a p.rewarded_addresses ≡ false
    → used_up k p ≡ false
    → IsTally p
    → IsTally (record_reward a k (reward_of k p.options) p)
record_reward-IsTally RewardType.developer a p n u t = developer-IsTally a p n u t
record_reward-IsTally RewardType.validator a p n u t = validator-IsTally a p n t

rewarded-record_reward :
    (k : RewardType) (x : ℕ) (a b : Text) (p : Period)
    → member b (record_reward a k x p).rewarded_addresses
      ≡ (if text_eq b a then true else member b p.rewarded_addresses)
unfolding record_reward
rewarded-record_reward RewardType.developer x a b p = member-set_add b a p.rewarded_addresses
rewarded-record_reward RewardType.validator x a b p = member-set_add b a p.rewarded_addresses

-- Either the payment threw, and nothing was recorded, or it is recorded.
pub finish_reward-cases {ℓ κ} :
    {S : Type ℓ} (P : (Period × S) × RewardResult → Type κ) (now : ℕ) (a : Text) (k : RewardType)
    (x : ℕ) (p : Period) (w : S × Bool)
    → (w.1 ≡ true → P ((p, w.0), failed))
    → (w.1 ≡ false → P ((record_reward a k x p, w.0), rewarded a x k now))
    → P (finish_reward now a k x p w)
finish_reward-cases P now a k x p (s, true) f g = f refl
finish_reward-cases P now a k x p (s, false) f g = g refl

module _ {ℓ} {S : Type ℓ} (add_balance : Text → ℕ → S → S × Bool) where
  -- A request that is refused, and one that is granted, as equations.
  pub process_refused :
      (now : ℕ) (a : Text) (dev : Bool) (p : Period) (s : S) (r : Refusal)
      → check_eligibility now a dev p ≡ ineligible r
      → process_reward add_balance now a dev (p, s) ≡ ((p, s), refused r)
  unfolding process_reward
  process_refused now a dev p s r e = rw (e, process_reward)

  pub process_granted :
      (now : ℕ) (a : Text) (dev : Bool) (p : Period) (s : S) (k : RewardType) (x : ℕ)
      → check_eligibility now a dev p ≡ eligible k x
      → process_reward add_balance now a dev (p, s) ≡ finish_reward now a k x p (add_balance a x s)
  unfolding process_reward
  process_granted now a dev p s k x e = rw (e, process_reward)

  process_reward-IsTally :
      (now : ℕ) (a : Text) (dev : Bool) (p : Period) (s : S)
      → IsTally p
      → IsTally (process_reward add_balance now a dev (p, s)).0.0
  process_reward-IsTally now a dev p s t =
      elim (Eligibility-cases (check_eligibility now a dev p)) [
        | inl (r, e) ↦ rw (process_refused now a dev p s r e) t
        | inr (k, x, e) ↦
            let (n, y, u) = eligible_facts now a dev p k x e in
            rw (process_granted now a dev p s k x e, y)
              (finish_reward-cases (λ (r : (Period × S) × RewardResult). IsTally r.0.0) now a k
                (reward_of k p.options) p (add_balance a (reward_of k p.options) s) (λ q. t)
                (λ q. record_reward-IsTally k a p n u t))
      ]

  process_reward-keeps :
      (now : ℕ) (a : Text) (dev : Bool) (p : Period) (s : S) (b : Text)
      → member b p.rewarded_addresses ≡ true
      → member b (process_reward add_balance now a dev (p, s)).0.0.rewarded_addresses ≡ true
  process_reward-keeps now a dev p s b m =
      elim (Eligibility-cases (check_eligibility now a dev p)) [
        | inl (r, e) ↦ rw (process_refused now a dev p s r e) m
        | inr (k, x, e) ↦ rw (process_granted now a dev p s k x e) (
            finish_reward-cases
              (λ (r : (Period × S) × RewardResult). member b r.0.0.rewarded_addresses ≡ true) now a
              k x p (add_balance a x s) (λ q. m)
              (λ q. ground (arith, m, rewarded-record_reward k x a b p)))
      ]

  serve-IsTally :
      (rs : List Request) (p : Period) (s : S) → IsTally p → IsTally (serve add_balance rs (p, s)).0
  unfolding serve
  serve-IsTally [] p s t = t
  serve-IsTally ((now, a, dev) ∷ rs) p s t =
      let (q, s') = (process_reward add_balance now a dev (p, s)).0 in
      serve-IsTally rs q s' (process_reward-IsTally now a dev p s t)

  serve-keeps :
      (rs : List Request) (p : Period) (s : S) (b : Text)
      → member b p.rewarded_addresses ≡ true
      → member b (serve add_balance rs (p, s)).0.rewarded_addresses ≡ true
  unfolding serve
  serve-keeps [] p s b m = m
  serve-keeps ((now, a, dev) ∷ rs) p s b m =
      let (q, s') = (process_reward add_balance now a dev (p, s)).0 in
      serve-keeps rs q s' b (process_reward-keeps now a dev p s b m)

-- After any requests to a new period the rewarded addresses are all different, they are as many as
-- the rewarded validators and the developer together, and the total distributed is exactly the
-- validators' rewards, and the developer's reward once if it was paid.
pub rewards-IsTally {ℓ} :
    {S : Type ℓ} (add_balance : Text → ℕ → S → S × Bool) (o : PeriodOptions) (rs : List Request)
    (s : S)
    → IsTally (serve add_balance rs (new_period o, s)).0
rewards-IsTally add_balance o rs s =
    serve-IsTally add_balance rs (new_period o) s (new_period-IsTally o)

member_refused :
    (now : ℕ) (a : Text) (dev : Bool) (p : Period)
    → member a p.rewarded_addresses ≡ true
    → (r : Refusal) × (check_eligibility now a dev p ≡ ineligible r)
member_refused now a dev p m = elim (Eligibility-cases (check_eligibility now a dev p)) [
  | inl f ↦ f
  | inr (k, x, e) ↦ absurd (ground (arith, m, (eligible_facts now a dev p k x e).0))
]

finish_reward-recorded {ℓ} :
    {S : Type ℓ} (now : ℕ) (a : Text) (k : RewardType) (x : ℕ) (p : Period) (w : S × Bool)
    (b : Text) (y : ℕ) (j : RewardType) (at : ℕ)
    → (finish_reward now a k x p w).1 ≡ rewarded b y j at
    → member a (finish_reward now a k x p w).0.0.rewarded_addresses ≡ true
finish_reward-recorded now a k x p (s, true) b y j at g = cc
finish_reward-recorded now a k x p (s, false) b y j at g =
    ground (arith, text_eq_refl a, rewarded-record_reward k x a a p)

-- No address is rewarded twice: once a request for it has been granted, a later one, after any
-- requests in between and whatever its role, is refused, and changes neither the period nor the
-- ledger.
pub reward_once {ℓ} :
    {S : Type ℓ} (add_balance : Text → ℕ → S → S × Bool) (now later : ℕ) (a : Text)
    (dev dev' : Bool) (rs : List Request) (p : Period) (s : S) (x at : ℕ) (k : RewardType)
    → (process_reward add_balance now a dev (p, s)).1 ≡ rewarded a x k at
    → let served = serve add_balance rs (process_reward add_balance now a dev (p, s)).0 in
      (r : Refusal) × (process_reward add_balance later a dev' served ≡ (served, refused r))
reward_once {S = S} add_balance now later a dev dev' rs p s x at k g =
    elim (Eligibility-cases (check_eligibility now a dev p)) [
      | inl (r, e) ↦ absurd (ground (arith, g, process_refused add_balance now a dev p s r e))
      | inr (k', x', e) ↦
          let paid = process_granted add_balance now a dev p s k' x' e in
          let m : member a (process_reward add_balance now a dev (p, s)).0.0.rewarded_addresses
              ≡ true =
            rw paid (
              finish_reward-recorded now a k' x' p (add_balance a x' s) a x k at
                (ap (λ (r : (Period × S) × RewardResult). r.1) (sym paid) ∙ g)) in
          let (q, s') = (process_reward add_balance now a dev (p, s)).0 in
          let (r, f) =
            member_refused later a dev' (serve add_balance rs (q, s')).0
              (serve-keeps add_balance rs q s' a m) in
          (
            r,
            process_refused add_balance later a dev' (serve add_balance rs (q, s')).0
                (serve add_balance rs (q, s')).1 r f,
          )
    ]
