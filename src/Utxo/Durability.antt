-- ===== src/Utxo/Durability.antt =====
-- What the log of src/storage/utxo_store.js says of the set, and the reopening of its file.
use mathlib.Core.List.{append_assoc}
use bt2c.Base.{
  ℕ, zero, suc, ◌≤◌, ◌≡◌, refl, sym, ap, ◌∙◌, true, false, none, List, [], ◌∷◌, ◌++◌, length,
  length-append, arith, Option-cases, inl, inr,
}
use bt2c.Base.Text.{Text}
use bt2c.Base.Dict.{Dict, IsDict, lookup, insert, erase}
use bt2c.Utxo.Types.{Utxo, Json, Store, ok}
use bt2c.Utxo.Log.{encode_add, encode_spend}
use bt2c.Utxo.Codec.{load_entries-add, load_entries-spend}
use bt2c.Utxo.{remember, forget, load_entries, load_utxo_set, initialize}

-- An entry of the log, read as what it says.
pub data LogEntry : Type 0 where
  add : Text → Utxo → LogEntry
  spend : Text → LogEntry

-- The set of unspent outputs that a log describes.
unfoldable pub replay_set : List LogEntry → Dict Utxo → Dict Utxo
replay_set [] d = d
replay_set (add o u ∷ es) d = replay_set es (insert o u d)
replay_set (spend o ∷ es) d = replay_set es (erase o d)

pub replay : List LogEntry → Store → Store
replay [] s = s
replay (add o u ∷ es) s = replay es (remember o u s)
replay (spend o ∷ es) s = replay es (forget o s)

erase_absent : (o : Text) (d : Dict Utxo) → lookup o d ≡ none → erase o d ≡ d
erase_absent o [] h = refl
erase_absent o ((k, v) ∷ d) h = ground (arith, erase_absent o d)

pub forget_set : (o : Text) (s : Store) → (forget o s).utxo_set ≡ erase o s.utxo_set
unfolding forget
forget_set o s = elim (Option-cases (lookup o s.utxo_set)) [
  | inl n ↦ ground (arith, erase_absent o s.utxo_set)
  | inr (u, e) ↦ ground arith
]

replay-replay_set :
    (es : List LogEntry) (s : Store) → (replay es s).utxo_set ≡ replay_set es s.utxo_set
unfolding replay replay_set
replay-replay_set [] s = refl
replay-replay_set (add o u ∷ es) s = replay-replay_set es (remember o u s) ∙ unfold remember in refl
replay-replay_set (spend o ∷ es) s =
    replay-replay_set es (forget o s) ∙ ap (replay_set es) (forget_set o s)

replay_file : (es : List LogEntry) (s : Store) → (replay es s).file ≡ s.file
unfolding replay
replay_file [] s = refl
replay_file (add o u ∷ es) s = replay_file es (remember o u s) ∙ unfold remember in refl
replay_file (spend o ∷ es) s = replay_file es (forget o s) ∙ unfold forget in ground arith

pub replay_set-append :
    (es fs : List LogEntry) (d : Dict Utxo)
    → replay_set (es ++ fs) d ≡ replay_set fs (replay_set es d)
unfolding replay_set
replay_set-append [] fs d = refl
replay_set-append (add o u ∷ es) fs d = replay_set-append es fs (insert o u d)
replay_set-append (spend o ∷ es) fs d = replay_set-append es fs (erase o d)

pub insert_fresh :
    (o : Text) (u : Utxo) (d : Dict Utxo) → lookup o d ≡ none → insert o u d ≡ d ++ ((o, u) ∷ [])
insert_fresh o u [] h = refl
insert_fresh o u ((k, v) ∷ d) h = ground (arith, insert_fresh o u d)

-- The additions that rebuild a set.
unfoldable pub additions : Dict Utxo → List LogEntry
additions [] = []
additions ((o, u) ∷ d) = add o u ∷ additions d

module _ (json : Json) where
  unfoldable pub encode_log : List LogEntry → Text
  encode_log [] = []
  encode_log (add o u ∷ es) = encode_add json o u ++ encode_log es
  encode_log (spend o ∷ es) = encode_spend o ++ encode_log es

  pub encode_log-append :
      (es fs : List LogEntry) → encode_log (es ++ fs) ≡ encode_log es ++ encode_log fs
  unfolding encode_log
  encode_log-append [] fs = refl
  encode_log-append (add o u ∷ es) fs = simp (encode_log-append es fs, append_assoc)
  encode_log-append (spend o ∷ es) fs = simp (encode_log-append es fs, append_assoc)

  length-encode_log : (es : List LogEntry) → length es ≤ length (encode_log es)
  unfolding encode_log encode_add encode_spend
  length-encode_log [] = omega arith
  length-encode_log (add o u ∷ es) =
      omega (arith, length-append {0} (encode_add json o u) (encode_log es), length-encode_log es)
  length-encode_log (spend o ∷ es) =
      omega (arith, length-append {0} (encode_spend o) (encode_log es), length-encode_log es)

  -- With a round for each entry the loop reads a whole log, and does what it says.
  load_entries-replay :
      (fuel : ℕ) (es : List LogEntry) (s : Store)
      → length es ≤ fuel
      → load_entries json fuel (encode_log es) s ≡ (replay es s, ok tt)
  unfolding encode_log replay
  load_entries-replay fuel [] s h = unfold load_entries in refl
  load_entries-replay zero (e ∷ es) s h = absurd (omega arith)
  load_entries-replay (suc fuel) (add o u ∷ es) s h =
      load_entries-add json fuel o u (encode_log es) s
      ∙ load_entries-replay fuel es (remember o u s) (omega arith)
  load_entries-replay (suc fuel) (spend o ∷ es) s h =
      load_entries-spend json fuel o (encode_log es) s
      ∙ load_entries-replay fuel es (forget o s) (omega arith)

  -- The file is a log that describes the set in memory.
  pub record IsDurable (s : Store) : Type 0 where
    pub entries : List LogEntry
    pub logged : s.file ≡ encode_log entries
    pub described : s.utxo_set ≡ replay_set entries []
    pub positioned : s.file_position ≡ length s.file
    pub keyed : IsDict s.utxo_set

  load_succeeds :
      (es : List LogEntry) (s : Store)
      → s.file ≡ encode_log es
      → load_utxo_set json s ≡ (record (replay es s) { file_position = length s.file }, ok tt)
  unfolding load_utxo_set
  load_succeeds es s e = go (load_entries-replay (length s.file) es s (rw e (length-encode_log es)))
    where
      go :
          load_entries json (length s.file) (encode_log es) s ≡ (replay es s, ok tt)
          → load_utxo_set json s ≡ (record (replay es s) { file_position = length s.file }, ok tt)
      go h =
          let h' : load_entries json (length s.file) s.file s ≡ (replay es s, ok tt) =
            ap (λ (bytes : Text). load_entries json (length s.file) bytes s) e ∙ h in
          ground arith

  initialize_succeeds :
      (s t : Store)
      → s.is_open ≡ false
      → load_utxo_set json s ≡ (t, ok tt)
      → initialize json s ≡ (record t { is_open = true }, ok tt)
  unfolding initialize
  initialize_succeeds s t c e = ground arith

  -- Reopening a durable store succeeds and brings its set of unspent outputs back.
  pub reopened :
      (s0 s : Store)
      → s0.is_open ≡ false
      → s0.utxo_set ≡ []
      → s0.file ≡ s.file
      → IsDurable s
      → let (t, r) = initialize json s0 in
        (r ≡ ok tt) × (t.utxo_set ≡ s.utxo_set) × (t.is_open ≡ true) × IsDurable t
  reopened s0 s c empty same d =
      let es = d.entries in
      let e = initialize_succeeds s0 _ c (load_succeeds es s0 (same ∙ d.logged)) in
      let set : (replay es s0).utxo_set ≡ s.utxo_set =
        replay-replay_set es s0 ∙ (ap (replay_set es) empty ∙ sym d.described) in
      rw e (
        refl,
        set,
        refl,
        record {
          entries = es;
          logged = replay_file es s0 ∙ (same ∙ d.logged);
          described = set ∙ d.described;
          positioned = ap length (sym (replay_file es s0));
          keyed = rw set d.keyed;
        },
      )
