-- ===== src/Tests/OnUtxo.antt =====
-- The theorems on the store of unspent outputs (src/storage/utxo_store.js) at concrete runs.
use bt2c.Base.{zero, suc, ◌≡◌, ◌≢◌, refl, true, Option, none, some, List, [], ◌∷◌}
use bt2c.Base.Int.{ℤ, pos, negsuc}
use bt2c.Base.Text.{Text, text_eq}
use bt2c.Utxo.Types.{out_of_fuel, Utxo, Json, Store, Result, ok, thrown, out_of_range}
use bt2c.Utxo.Log.{decimal_from, outpoint, add_overflows, spend_overflows}
use bt2c.Utxo.{
  load_utxo_set, remember, forget, index_add, index_remove, add_utxo, spend_utxo, initialize,
  new_store, get_balance,
}
use bt2c.Utxo.Durability.{replay_set, encode_log, IsDurable}
use bt2c.Utxo.Survival.{Call, add_call, spend_call, perform, run, NoneOverflows, run_survives}
use bt2c.Utxo.Sets.{owned}
use bt2c.Utxo.Index.{IsIndexed}
use bt2c.Utxo.Balance.{NoneOverwrites, balance_after_run}
use bt2c.Utxo.Fuel.{load_terminates}
use bt2c.Tests.{alice}

-- A format that has the sign, the size and then the address.
abbrev print : Utxo → Text
print u = elim u.amount [ pos n ↦ 0 ∷ n ∷ u.address | negsuc n ↦ 1 ∷ n ∷ u.address ]

abbrev scan : Text → Option Utxo
scan (zero ∷ n ∷ a) = some (record { address = a; amount = pos n })
scan (suc k ∷ n ∷ a) = some (record { address = a; amount = negsuc n })
scan _ = none

scan-print :
    (a : Text) (x : ℤ)
    → scan (print (record { address = a; amount = x })) ≡ some (record { address = a; amount = x })
scan-print a (pos n) = refl
scan-print a (negsuc n) = refl

abbrev format : Json
format = record {
  stringify = print;
  parse = scan;
  parse-stringify = λ u. scan-print u.address u.amount;
}

abbrev coin : Utxo
coin = record { address = alice; amount = pos 8 }

abbrev opened : Store
opened = record (new_store 0 1 2 []) { is_open = true }

opened-IsDurable : IsDurable format opened
unfolding new_store replay_set encode_log
opened-IsDurable = record {
  entries = [];
  logged = refl;
  described = refl;
  positioned = refl;
  keyed = tt;
}

abbrev calls : List Call
calls = add_call (65 ∷ []) 0 coin ∷ add_call (66 ∷ []) 1 coin ∷ spend_call (65 ∷ []) 0 ∷ []

abbrev done : Result (Unit {0})
done = ok tt

no_overflow : done ≢ thrown out_of_range
no_overflow e = cc

calls_fit : NoneOverflows format calls opened
unfolding NoneOverflows perform add_utxo spend_utxo add_overflows spend_overflows outpoint
    decimal_from remember forget new_store index_add index_remove text_eq
calls_fit = (no_overflow, (no_overflow, (no_overflow, tt)))

run_survives_example :
    let (t, r) = initialize format (new_store 0 1 2 (run format calls opened).file) in
    (r ≡ ok tt) × (t.utxo_set ≡ (run format calls opened).utxo_set)
unfolding new_store
run_survives_example =
    run_survives format calls opened (new_store 0 1 2 (run format calls opened).file) calls_fit
      opened-IsDurable refl refl refl

opened-IsIndexed : IsIndexed opened
unfolding new_store
opened-IsIndexed = record {
  keyed = tt;
  index_keyed = tt;
  listed = λ a o. refl;
  distinct = λ a. tt;
  exact = λ a. refl;
}

calls_fresh : NoneOverwrites format calls opened
unfolding NoneOverwrites perform add_utxo spend_utxo add_overflows spend_overflows outpoint
    decimal_from remember forget new_store index_add index_remove text_eq
calls_fresh = (refl, (refl, tt))

calls_open : (run format calls opened).is_open ≡ true
unfolding run perform add_utxo spend_utxo add_overflows spend_overflows outpoint decimal_from
    remember forget new_store index_add index_remove text_eq
calls_open = refl

balance_after_run_example :
    get_balance alice (run format calls opened)
    ≡ ok (owned alice (run format calls opened).utxo_set)
balance_after_run_example =
    balance_after_run format calls opened alice calls_fresh opened-IsIndexed calls_open

-- A file with an unknown type, an addition that is cut short, and rubbish.
abbrev broken : Store
broken = new_store 0 1 2 (7 ∷ 1 ∷ 0 ∷ 3 ∷ 65 ∷ [])

load_terminates_example : (load_utxo_set format broken).1 ≢ thrown out_of_fuel
load_terminates_example = load_terminates format broken
