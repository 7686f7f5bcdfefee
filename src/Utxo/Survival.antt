-- ===== src/Utxo/Survival.antt =====
-- The log and the set of src/storage/utxo_store.js under runs of calls of its methods.
use mathlib.Core.List.{append_assoc, append-nil}
use bt2c.Base.{
  ℕ, ◌≡◌, ◌≢◌, refl, sym, ap, ◌∙◌, false, none, some, List, [], ◌∷◌, ◌++◌, length, length-append,
  arith, Option-cases, Bool-cases, inl, inr,
}
use bt2c.Base.Text.{Text, text_eq, text_eq_symm}
use bt2c.Base.Dict.{Dict, IsDict, lookup, contains, insert-IsDict, erase-IsDict}
use bt2c.Utxo.Types.{Utxo, Json, Store, out_of_range, Result, ok, thrown}
use bt2c.Utxo.Log.{outpoint, encode_add, add_overflows, encode_spend, spend_overflows}
use bt2c.Utxo.Durability.{
  LogEntry, add, spend, replay_set, replay_set-append, forget_set, insert_fresh, additions,
  encode_log, encode_log-append, IsDurable, reopened,
}
use bt2c.Utxo.{
  remember, forget, write, add_utxo, spend_utxo, initialize, sync, close, encode_set, compact,
  compaction_due, check_compaction,
}

module _ (json : Json) where
  -- One more entry in the log, for a change of the set that it describes.
  logged_once :
      (s t : Store) (entry : LogEntry) (bytes : Text)
      → IsDurable json s
      → encode_log json (entry ∷ []) ≡ bytes
      → t.utxo_set ≡ replay_set (entry ∷ []) s.utxo_set
      → t.file ≡ s.file
      → t.file_position ≡ s.file_position
      → IsDict t.utxo_set
      → IsDurable json (write bytes t)
  logged_once s t entry bytes d e set file position keyed = record {
    entries = d.entries ++ (entry ∷ []);
    logged = rw (encode_log-append json d.entries (entry ∷ []), file, e, d.logged);
    described = set ∙ rw (replay_set-append d.entries (entry ∷ []) [], d.described);
    positioned =
        rw position (omega (arith, d.positioned, ap length file, length-append {0} t.file bytes));
    keyed = keyed;
  }

  pub add_utxo-IsDurable :
      (txid : Text) (vout : ℕ) (u : Utxo) (s : Store)
      → (add_utxo json txid vout u s).1 ≢ thrown out_of_range
      → IsDurable json s
      → IsDurable json (add_utxo json txid vout u s).0
  unfolding add_utxo
  add_utxo-IsDurable txid vout u s fits d =
      let o = outpoint txid vout in
      elim (Bool-cases s.is_open) [
        | inr shut ↦ simp shut d
        | inl open_ ↦ elim (Bool-cases (add_overflows json o u)) [
          | inl y ↦ absurd (fits (simp (open_, y)))
          | inr n ↦
              simp (open_, n)
                (logged_once s (remember o u s) (add o u) (encode_add json o u) d
                  (unfold encode_log in append-nil (encode_add json o u))
                  (unfold remember replay_set in refl) (unfold remember in refl)
                  (unfold remember in refl)
                  (unfold remember in insert-IsDict o u s.utxo_set d.keyed))
        ]
      ]

  pub spend_utxo-IsDurable :
      (txid : Text) (vout : ℕ) (s : Store)
      → (spend_utxo txid vout s).1 ≢ thrown out_of_range
      → IsDurable json s
      → IsDurable json (spend_utxo txid vout s).0
  unfolding spend_utxo
  spend_utxo-IsDurable txid vout s fits d =
      let o = outpoint txid vout in
      elim (Bool-cases s.is_open) [
        | inr shut ↦ simp shut d
        | inl open_ ↦ elim (Bool-cases (contains o s.utxo_set)) [
          | inr absent ↦ simp (open_, absent) d
          | inl there ↦ elim (Bool-cases (spend_overflows o)) [
            | inl y ↦ absurd (fits (simp (open_, there, y)))
            | inr n ↦
                simp (open_, there, n)
                  (logged_once s (forget o s) (spend o) (encode_spend o) d
                    (unfold encode_log in append-nil (encode_spend o))
                    (forget_set o s ∙ unfold replay_set in refl) (unfold forget in ground arith)
                    (unfold forget in ground arith)
                    (rw (forget_set o s) (erase-IsDict o s.utxo_set d.keyed)))
          ]
        ]
      ]

  encode_set-additions :
      (d : Dict Utxo) (bytes : Text)
      → encode_set json d ≡ some bytes
      → bytes ≡ encode_log json (additions d)
  unfolding encode_set encode_log additions
  encode_set-additions [] bytes e = ground arith
  encode_set-additions ((o, u) ∷ d) bytes e = elim (Option-cases (encode_set json d)) [
    | inl n ↦ absurd (ground arith)
    | inr (rest, y) ↦ ground (arith, encode_set-additions d rest)
  ]

  replay_set-additions :
      (d front : Dict Utxo) → IsDict (front ++ d) → replay_set (additions d) front ≡ front ++ d
  unfolding replay_set additions
  replay_set-additions [] front h = sym (append-nil front)
  replay_set-additions ((o, u) ∷ d) front h =
      ap (replay_set (additions d)) (insert_fresh o u front (absent front h))
      ∙ (replay_set-additions d (front ++ ((o, u) ∷ [])) (rw append_assoc h)
          ∙ append_assoc front ((o, u) ∷ []) d)
    where
      other_key :
          (k : Text) (f : Dict Utxo) → lookup k (f ++ ((o, u) ∷ d)) ≡ none → text_eq k o ≡ false
      other_key k [] e = ground arith
      other_key k ((i, w) ∷ f) e = ground (arith, other_key k f)

      absent : (f : Dict Utxo) → IsDict (f ++ ((o, u) ∷ d)) → lookup o f ≡ none
      absent [] h = refl
      absent ((k, v) ∷ f) h = ground (arith, other_key k f h.0, text_eq_symm o k, absent f h.1)

  pub compact-IsDurable :
      (now : ℕ) (s : Store) → IsDurable json s → IsDurable json (compact json now s).0
  unfolding compact
  compact-IsDurable now s d = elim (Bool-cases s.is_open) [
    | inr shut ↦ simp shut d
    | inl open_ ↦ elim (Option-cases (encode_set json s.utxo_set)) [
      | inl n ↦ simp (open_, n) d
      | inr (bytes, e) ↦
          simp (open_, e)
            (record {
              entries = additions s.utxo_set;
              logged = encode_set-additions s.utxo_set bytes e;
              described = sym (replay_set-additions s.utxo_set [] d.keyed);
              positioned = refl;
              keyed = d.keyed;
            })
    ]
  ]

  pub check_compaction-IsDurable :
      (now : ℕ) (s : Store) → IsDurable json s → IsDurable json (check_compaction json now s)
  unfolding check_compaction
  check_compaction-IsDurable now s d = elim (Bool-cases s.is_open) [
    | inr shut ↦ simp shut d
    | inl open_ ↦ elim (Bool-cases (compaction_due s)) [
      | inl y ↦ simp (open_, y) (compact-IsDurable now s d)
      | inr n ↦ simp (open_, n) d
    ]
  ]

-- The calls that change a store, `sync` and `close` among them.
pub data Call : Type 0 where
  add_call : Text → ℕ → Utxo → Call
  spend_call : Text → ℕ → Call
  compact_call check_call : ℕ → Call
  sync_call close_call : Call

unfoldable pub perform : Json → Call → Store → Store × Result (Unit {0})
perform json (add_call txid vout u) s = add_utxo json txid vout u s
perform json (spend_call txid vout) s = spend_utxo txid vout s
perform json (compact_call now) s = compact json now s
perform json (check_call now) s = (check_compaction json now s, ok tt)
perform json sync_call s = (sync s, ok tt)
perform json close_call s = (close s, ok tt)

unfoldable pub run : Json → List Call → Store → Store
unfolding perform
run json [] s = s
run json (c ∷ cs) s = run json cs (perform json c s).0

-- No call of the run throws because a length does not fit its field in the log.
unfoldable pub NoneOverflows : Json → List Call → Store → Type 0
NoneOverflows json [] s = Unit
NoneOverflows json (c ∷ cs) s =
    ((perform json c s).1 ≢ thrown out_of_range) × NoneOverflows json cs (perform json c s).0

untouched :
    (json : Json) (s t : Store)
    → IsDurable json s
    → t.file ≡ s.file
    → t.utxo_set ≡ s.utxo_set
    → t.file_position ≡ s.file_position
    → IsDurable json t
untouched json s t d file set position = record {
  entries = d.entries;
  logged = file ∙ d.logged;
  described = set ∙ d.described;
  positioned = position ∙ (d.positioned ∙ ap length (sym file));
  keyed = rw set d.keyed;
}

perform-IsDurable :
    (json : Json) (c : Call) (s : Store)
    → (perform json c s).1 ≢ thrown out_of_range
    → IsDurable json s
    → IsDurable json (perform json c s).0
unfolding perform
perform-IsDurable json (add_call txid vout u) s h d = add_utxo-IsDurable json txid vout u s h d
perform-IsDurable json (spend_call txid vout) s h d = spend_utxo-IsDurable json txid vout s h d
perform-IsDurable json (compact_call now) s h d = compact-IsDurable json now s d
perform-IsDurable json (check_call now) s h d = check_compaction-IsDurable json now s d
perform-IsDurable json sync_call s h d =
    untouched json s (sync s) d (unfold sync in ground arith) (unfold sync in ground arith)
      (unfold sync in ground arith)
perform-IsDurable json close_call s h d =
    untouched json s (close s) d (unfold close sync in ground arith)
      (unfold close sync in ground arith) (unfold close sync in ground arith)

pub run-IsDurable :
    (json : Json) (cs : List Call) (s : Store)
    → NoneOverflows json cs s
    → IsDurable json s
    → IsDurable json (run json cs s)
unfolding run NoneOverflows
run-IsDurable json [] s h d = d
run-IsDurable json (c ∷ cs) s h d =
    run-IsDurable json cs (perform json c s).0 h.1 (perform-IsDurable json c s h.0 d)

-- Whatever a run of additions, spends, compactions, syncs and closes on a durable store has built, a
-- new object that opens the same file finds: it opens without an error, with exactly the same set of
-- unspent outputs in the same order, if no call of the run threw because of a length that does not
-- fit the log.
pub run_survives :
    (json : Json) (cs : List Call) (s s0 : Store)
    → NoneOverflows json cs s
    → IsDurable json s
    → s0.is_open ≡ false
    → s0.utxo_set ≡ []
    → s0.file ≡ (run json cs s).file
    → let (t, r) = initialize json s0 in (r ≡ ok tt) × (t.utxo_set ≡ (run json cs s).utxo_set)
run_survives json cs s s0 h d c empty same =
    let again = reopened json s0 (run json cs s) c empty same (run-IsDurable json cs s h d) in
    (again.0, again.1)
