-- ===== src/Manager/Service.antt =====
-- Each method of the validator manager (src/blockchain/validator_manager.js) and what holds between calls.
use bt2c.Base.{
  ℕ, ◌-◌, ◌≤◌, ◌≡◌, refl, ◌∙◌, Bool, true, not, Option, List, [], ◌∷◌, ◌++◌, arith, by_test,
  by_option, length, drop, length-append, ltb,
}
use bt2c.Base.Int.{ℤ, ltb_ℤ}
use bt2c.Base.Text.{Text, is_empty}
use bt2c.Base.Dict.{Dict, lookup, contains, insert, erase}
use bt2c.Validator.{
  Validator, new, from_json, jail, try_unjail, tombstone, activate, deactivate, update_stats,
  check_and_jail_if_needed,
}
use bt2c.Manager.Types.{Manager, Answer, Reals}
use bt2c.Manager.{
  refresh, update_validator_metrics, put, handle_new_block, register_validator, remove_validator,
  update_stake, attempt, apply, jail_missing, each_value, check_and_jail_missing_validators,
  remember_selection, select_validator, process_distribution_reward, load_list, load_from_json,
  get_eligible_validators,
}
use bt2c.Manager.Choice.{choose}
use bt2c.Manager.Counting.{IsCurrent, refresh-IsCurrent}
use bt2c.Manager.Filing.{IsFiled, insert-IsFiled, erase-IsFiled, each_value-IsFiled, lookup-filed}

-- What holds between the calls.
pub record IsServing (m : Manager) : Type 0 where
  pub current : IsCurrent m
  pub filed : IsFiled m.validators
  pub recent : length m.selection_history ≤ 1000

abbrev pub Served : Manager × Answer → Type 0
Served p = IsServing p.0

refresh-IsServing :
    (m : Manager) → IsFiled m.validators → length m.selection_history ≤ 1000 → IsServing (refresh m)
unfolding refresh
refresh-IsServing m f h = record { current = refresh-IsCurrent m; filed = f; recent = h }

update_metrics-IsServing :
    (m : Manager)
    → IsFiled m.validators
    → length m.selection_history ≤ 1000
    → IsServing (update_validator_metrics m)
unfolding update_validator_metrics
update_metrics-IsServing m f h = refresh-IsServing m f h

put-IsServing :
    (d : Dict Validator) (m : Manager)
    → IsFiled d
    → length m.selection_history ≤ 1000
    → IsServing (put d m)
put-IsServing d m f h =
    let s = refresh-IsServing (record m { validators = d }) f h in
    update_metrics-IsServing (refresh (record m { validators = d })) s.filed s.recent

-- A method that keeps the address.
abbrev pub Stays : (Validator → Validator) → Type 0
Stays f = (v : Validator) → (f v).address ≡ v.address

pub apply-Served :
    (a : Text) (f : Validator → Validator) (m : Manager)
    → Stays f
    → IsServing m
    → Served (apply a f m)
apply-Served a f m g i =
    by_option Served (lookup a m.validators) _ _ (λ l. i)
      (λ v l.
        put-IsServing (insert a (f v) m.validators) m
          (insert-IsFiled a (f v) m.validators (g v ∙ lookup-filed a v m.validators i.filed l)
            i.filed)
          i.recent)

pub attempt-Served :
    (a : Text) (f : Validator → Validator × Bool) (m : Manager)
    → Stays (λ (v : Validator). (f v).0)
    → IsServing m
    → Served (attempt a f m)
attempt-Served a f m g i =
    by_option Served (lookup a m.validators) _ _ (λ l. i)
      (λ v l.
        by_test Served (f v).1 _ _
          (λ q.
            put-IsServing (insert a (f v).0 m.validators) m
              (insert-IsFiled a (f v).0 m.validators (g v ∙ lookup-filed a v m.validators i.filed l)
                i.filed)
              i.recent)
          (λ q. i))

pub activate-Stays : (now : ℕ) → Stays (λ (v : Validator). (activate now v).0)
unfolding activate
activate-Stays now v = ground arith

pub try_unjail-Stays : (now : ℕ) → Stays (λ (v : Validator). (try_unjail now v).0)
unfolding try_unjail
try_unjail-Stays now v = ground arith

pub deactivate-Stays : Stays deactivate
unfolding deactivate
deactivate-Stays v = ground arith

pub jail-Stays : (now x : ℕ) → Stays (jail now x)
unfolding jail
jail-Stays now x v = refl

pub tombstone-Stays : Stays tombstone
unfolding tombstone
tombstone-Stays v = refl

update_stats-Stays : (b : Bool) → Stays (update_stats b)
unfolding update_stats
update_stats-Stays b v = refl

jail_missing-Stays : (now : ℕ) → Stays (jail_missing now)
unfolding check_and_jail_if_needed jail
jail_missing-Stays now v = ground arith

pub handle_new_block-IsServing :
    (a : Text) (m : Manager) → IsServing m → IsServing (handle_new_block a m)
unfolding handle_new_block
handle_new_block-IsServing a m i =
    by_test IsServing (is_empty a) _ _ (λ q. i)
      (λ q.
        by_option IsServing (lookup a m.validators) _ _ (λ l. i)
          (λ v l.
            update_metrics-IsServing
              (record m { validators = insert a (update_stats true v) m.validators })
              (insert-IsFiled a (update_stats true v) m.validators
                (update_stats-Stays true v ∙ lookup-filed a v m.validators i.filed l) i.filed)
              i.recent))

pub register_validator-Served :
    (now : ℕ) (a k : Text) (x : ℤ) (n : Text) (m : Manager)
    → IsServing m
    → Served (register_validator now a k x n m)
unfolding register_validator new
register_validator-Served now a k x n m i =
    by_test Served (contains a m.validators) _ _ (λ q. i)
      (λ q.
        by_test Served (ltb_ℤ x m.min_stake) _ _ (λ q'. i)
          (λ q'. put-IsServing _ m (insert-IsFiled a _ m.validators refl i.filed) i.recent))

pub remove_validator-Served : (a : Text) (m : Manager) → IsServing m → Served (remove_validator a m)
unfolding remove_validator
remove_validator-Served a m i =
    by_test Served (contains a m.validators) _ _
      (λ q. put-IsServing (erase a m.validators) m (erase-IsFiled a m.validators i.filed) i.recent)
      (λ q. i)

pub update_stake-Served :
    (a : Text) (x : ℤ) (m : Manager) → IsServing m → Served (update_stake a x m)
unfolding update_stake
update_stake-Served a x m i =
    by_option Served (lookup a m.validators) _ _ (λ l. i)
      (λ v l.
        by_test Served (ltb_ℤ x m.min_stake) _ _ (λ q. i)
          (λ q.
            put-IsServing _ m
              (insert-IsFiled a (record v { stake = x }) m.validators
                (lookup-filed a v m.validators i.filed l) i.filed)
              i.recent))

length-drop_one : (h : List Text) → length (drop 1 h) ≤ length h - 1
length-drop_one [] = omega arith
length-drop_one (a ∷ h) = omega arith

remember_bounded :
    (a : Text) (h : List Text) → length h ≤ 1000 → length (remember_selection a h) ≤ 1000
unfolding remember_selection
remember_bounded a h n =
    let longer = h ++ (a ∷ []) in
    by_test (λ (l : List Text). length l ≤ 1000) (ltb 1000 (length longer)) _ _
      (λ q. omega (arith, n, length-append h (a ∷ []), length-drop_one longer))
      (λ q. ground (arith, q))

pub select_validator-IsServing :
    (r : Reals) (x : r.Real) (m : Manager) → IsServing m → IsServing (select_validator r x m).0
unfolding select_validator
select_validator-IsServing r x m i =
    by_option (λ (p : Manager × Option Validator). IsServing p.0)
      (choose r x m.total_stake (get_eligible_validators m)) _ _ (λ l. i)
      (λ v l.
        update_metrics-IsServing
          (record m { selection_history = remember_selection v.address m.selection_history })
          i.filed (remember_bounded v.address m.selection_history i.recent))

pub process_distribution_reward-Served :
    (x y : ℕ) (a : Text) (m : Manager) → IsServing m → Served (process_distribution_reward x y a m)
unfolding process_distribution_reward
process_distribution_reward-Served x y a m i =
    by_option Served (lookup a m.validators) _ _ (λ l. i)
      (λ v l.
        by_test Served v.distribution_reward_claimed _ _ (λ q. i)
          (λ q.
            by_test Served (not v.joined_during_distribution) _ _ (λ q'. i)
              (λ q'.
                refresh-IsServing
                  (record m {
                    validators =
                        insert a (record v { distribution_reward_claimed = true }) m.validators;
                  })
                  (insert-IsFiled a (record v { distribution_reward_claimed = true }) m.validators
                    (lookup-filed a v m.validators i.filed l) i.filed)
                  i.recent)))

load_list-IsFiled :
    (now : ℕ) (vs : List Validator) (d : Dict Validator) → IsFiled d → IsFiled (load_list now vs d)
load_list-IsFiled now [] d k = k
load_list-IsFiled now (v ∷ vs) d k =
    load_list-IsFiled now vs _ (insert-IsFiled _ (from_json now v) d refl k)

pub load_from_json-IsServing :
    (now : ℕ) (vs : List Validator) (m : Manager)
    → IsServing m
    → IsServing (load_from_json now vs m)
unfolding load_from_json
load_from_json-IsServing now vs m i =
    put-IsServing (load_list now vs []) m (load_list-IsFiled now vs [] (tt, tt)) i.recent

pub check_and_jail-IsServing :
    (now : ℕ) (m : Manager) → IsServing m → IsServing (check_and_jail_missing_validators now m)
unfolding check_and_jail_missing_validators
check_and_jail-IsServing now m i =
    put-IsServing (each_value (jail_missing now) m.validators) m
      (each_value-IsFiled (jail_missing now) m.validators (jail_missing-Stays now) i.filed) i.recent
