-- ===== src/Utxo/Balance.antt =====
-- What `getBalance` of src/storage/utxo_store.js answers after any run of calls.
use bt2c.Base.{ℕ, ◌≡◌, ap, true, none, List, [], ◌∷◌, arith, Option-cases, Bool-cases, inl, inr}
use bt2c.Base.Text.{Text}
use bt2c.Base.Dict.{lookup}
use bt2c.Utxo.Types.{Utxo, Json, Store, ok}
use bt2c.Utxo.Log.{outpoint}
use bt2c.Utxo.Sets.{owned}
use bt2c.Utxo.Index.{IsIndexed, remember-IsIndexed, forget-IsIndexed}
use bt2c.Utxo.Survival.{
  Call, add_call, spend_call, compact_call, check_call, sync_call, close_call, perform, run,
}
use bt2c.Utxo.{
  remember, forget, add_utxo, spend_utxo, get_balance, sync, close, compact, check_compaction,
}

-- No call of the run adds an output at an outpoint that the set holds at that time.
unfoldable pub NoneOverwrites : Json → List Call → Store → Type 0
NoneOverwrites json [] s = Unit
NoneOverwrites json (add_call txid vout u ∷ cs) s =
    (lookup (outpoint txid vout) s.utxo_set ≡ none)
    × NoneOverwrites json cs (perform json (add_call txid vout u) s).0
NoneOverwrites json (c ∷ cs) s = NoneOverwrites json cs (perform json c s).0

-- The set and the index decide.
same_index :
    (s t : Store)
    → t.utxo_set ≡ s.utxo_set
    → t.utxo_index ≡ s.utxo_index
    → IsIndexed s
    → IsIndexed t
same_index s t e f i = record {
  keyed = rw e i.keyed;
  index_keyed = rw f i.index_keyed;
  listed = λ a o. rw (e, f) (i.listed a o);
  distinct = λ a. rw f (i.distinct a);
  exact = λ a. rw (e, f) (i.exact a);
}

add_utxo-IsIndexed :
    (json : Json) (txid : Text) (vout : ℕ) (u : Utxo) (s : Store)
    → lookup (outpoint txid vout) s.utxo_set ≡ none
    → IsIndexed s
    → IsIndexed (add_utxo json txid vout u s).0
add_utxo-IsIndexed json txid vout u s fresh i =
    let o = outpoint txid vout in
    let next = remember-IsIndexed o u s fresh i in
    elim (Bool-cases s.is_open) [
      | inr shut ↦
          same_index s _ (unfold add_utxo in ground arith) (unfold add_utxo in ground arith) i
      | inl open_ ↦
          same_index (remember o u s) _ (unfold add_utxo in ground arith)
            (unfold add_utxo in ground arith) next
    ]

spend_utxo-IsIndexed :
    (json : Json) (txid : Text) (vout : ℕ) (s : Store)
    → IsIndexed s
    → IsIndexed (spend_utxo txid vout s).0
spend_utxo-IsIndexed json txid vout s i =
    let o = outpoint txid vout in
    elim (Option-cases (lookup o s.utxo_set)) [
      | inl absent ↦
          same_index s _ (unfold spend_utxo in ground arith) (unfold spend_utxo in ground arith) i
      | inr (u, there) ↦
          let next = forget-IsIndexed o u s there i in
          elim (Bool-cases s.is_open) [
            | inr shut ↦
                same_index s _ (unfold spend_utxo in ground arith)
                  (unfold spend_utxo in ground arith) i
            | inl open_ ↦
                same_index (forget o s) _ (unfold spend_utxo in ground arith)
                  (unfold spend_utxo in ground arith) next
          ]
    ]

compact_keeps :
    (json : Json) (now : ℕ) (s : Store)
    → ((compact json now s).0.utxo_set ≡ s.utxo_set)
      × ((compact json now s).0.utxo_index ≡ s.utxo_index)
unfolding compact
compact_keeps json now s = ground arith

check_keeps :
    (json : Json) (now : ℕ) (s : Store)
    → ((check_compaction json now s).utxo_set ≡ s.utxo_set)
      × ((check_compaction json now s).utxo_index ≡ s.utxo_index)
unfolding check_compaction compact
check_keeps json now s = ground arith

sync_keeps : (s : Store) → ((sync s).utxo_set ≡ s.utxo_set) × ((sync s).utxo_index ≡ s.utxo_index)
unfolding sync
sync_keeps s = ground arith

close_keeps :
    (s : Store) → ((close s).utxo_set ≡ s.utxo_set) × ((close s).utxo_index ≡ s.utxo_index)
unfolding close sync
close_keeps s = ground arith

run-IsIndexed :
    (json : Json) (cs : List Call) (s : Store)
    → NoneOverwrites json cs s
    → IsIndexed s
    → IsIndexed (run json cs s)
unfolding run NoneOverwrites
run-IsIndexed json [] s h i = i
run-IsIndexed json (add_call txid vout u ∷ cs) s h i =
    run-IsIndexed json cs _ h.1 (add_utxo-IsIndexed json txid vout u s h.0 i)
run-IsIndexed json (spend_call txid vout ∷ cs) s h i =
    run-IsIndexed json cs _ h (spend_utxo-IsIndexed json txid vout s i)
run-IsIndexed json (compact_call now ∷ cs) s h i = run-IsIndexed json cs _ h (
    same_index s (compact json now s).0 (compact_keeps json now s).0 (compact_keeps json now s).1 i)
run-IsIndexed json (check_call now ∷ cs) s h i = run-IsIndexed json cs _ h (
    same_index s (check_compaction json now s) (check_keeps json now s).0 (check_keeps json now s).1
      i)
run-IsIndexed json (sync_call ∷ cs) s h i =
    run-IsIndexed json cs _ h (same_index s (sync s) (sync_keeps s).0 (sync_keeps s).1 i)
run-IsIndexed json (close_call ∷ cs) s h i =
    run-IsIndexed json cs _ h (same_index s (close s) (close_keeps s).0 (close_keeps s).1 i)

-- After any run of calls in which no addition overwrites an output, the balance of every address is
-- the sum of the amounts of the unspent outputs that belong to it, if the index was right before.
pub balance_after_run :
    (json : Json) (cs : List Call) (s : Store) (a : Text)
    → NoneOverwrites json cs s
    → IsIndexed s
    → (run json cs s).is_open ≡ true
    → get_balance a (run json cs s) ≡ ok (owned a (run json cs s).utxo_set)
unfolding get_balance
balance_after_run json cs s a h i opened = rw opened (ap ok ((run-IsIndexed json cs s h i).exact a))
