-- ===== src/Utxo/Codec.antt =====
-- The entries that src/storage/utxo_store.js writes to its log, as `loadUTXOSet` reads them.
use mathlib.Core.List.{append_assoc}
use bt2c.Base.{
  ℕ, suc, ◌≡◌, refl, ap, ◌∙◌, some, ◌∷◌, ◌++◌, length, take, drop, take-length_append,
  drop-length_append, arith,
}
use bt2c.Base.Text.{Text}
use bt2c.Utxo.Types.{Utxo, Json, Store}
use bt2c.Utxo.Log.{
  write_u16, write_u32, read_u16, read_u32, encode_add, encode_spend, added, spent, read_add,
  read_spend, read_entry,
}
use bt2c.Utxo.{remember, forget, load_entries}

read_u16-write_u16 : (n : ℕ) (rest : Text) → read_u16 (write_u16 n ++ rest) ≡ some (n, rest)
unfolding read_u16 write_u16
read_u16-write_u16 n rest = ap (λ (m : ℕ). some (m, rest)) (omega arith)

read_u32-write_u32 : (n : ℕ) (rest : Text) → read_u32 (write_u32 n ++ rest) ≡ some (n, rest)
unfolding read_u32 write_u32
read_u32-write_u32 n rest = ap (λ (m : ℕ). some (m, rest)) (omega arith)

module _ (json : Json) where
  open json use {stringify, parse, parse-stringify}

  regroup_add :
      (o : Text) (u : Utxo) (rest : Text)
      → encode_add json o u ++ rest
        ≡ 1
          ∷ (write_u16 (length o)
              ++ (o ++ (write_u32 (length (stringify u)) ++ (stringify u ++ rest))))
  unfolding encode_add
  regroup_add o u rest = simp append_assoc

  read_add_parts :
      (bytes : Text) (n m : ℕ) (rest rest' : Text) (u : Utxo)
      → read_u16 bytes ≡ some (n, rest)
      → read_u32 (drop n rest) ≡ some (m, rest')
      → parse (take m rest') ≡ some u
      → read_add json bytes ≡ added (take n rest) u (drop m rest')
  unfolding read_add
  read_add_parts bytes n m rest rest' u e f g = ground arith

  read_add-encoded :
      (o : Text) (u : Utxo) (rest : Text)
      → read_add json (
          write_u16 (length o)
          ++ (o ++ (write_u32 (length (stringify u)) ++ (stringify u ++ rest))))
        ≡ added o u rest
  read_add-encoded o u rest =
      let tail : Text = write_u32 (length (stringify u)) ++ (stringify u ++ rest) in
      read_add_parts _ (length o) (length (stringify u)) (o ++ tail) (stringify u ++ rest) u
        (read_u16-write_u16 (length o) (o ++ tail))
        (rw (drop-length_append o tail)
          (read_u32-write_u32 (length (stringify u)) (stringify u ++ rest)))
        (rw (take-length_append (stringify u) rest) (parse-stringify u))
      ∙ rw (take-length_append o tail, drop-length_append (stringify u) rest)

  entry_is_add : (bytes : Text) → read_entry json 1 bytes ≡ read_add json bytes
  unfolding read_entry
  entry_is_add bytes = refl

  -- An addition that was written is read back, and the loop goes on behind it.
  pub load_entries-add :
      (fuel : ℕ) (o : Text) (u : Utxo) (rest : Text) (s : Store)
      → load_entries json (suc fuel) (encode_add json o u ++ rest) s
        ≡ load_entries json fuel rest (remember o u s)
  unfolding load_entries
  load_entries-add fuel o u rest s =
      ap (λ (bytes : Text). load_entries json (suc fuel) bytes s) (regroup_add o u rest)
      ∙ go _ (read_add-encoded o u rest)
    where
      go :
          (bytes : Text)
          → read_add json bytes ≡ added o u rest
          → load_entries json (suc fuel) (1 ∷ bytes) s
            ≡ load_entries json fuel rest (remember o u s)
      go bytes e = rw (entry_is_add bytes ∙ e, load_entries)

  regroup_spend :
      (o rest : Text) → encode_spend o ++ rest ≡ 2 ∷ (write_u16 (length o) ++ (o ++ rest))
  unfolding encode_spend
  regroup_spend o rest = simp append_assoc

  read_spend_parts :
      (bytes : Text) (n : ℕ) (rest : Text)
      → read_u16 bytes ≡ some (n, rest)
      → read_entry json 2 bytes ≡ spent (take n rest) (drop n rest)
  unfolding read_entry read_spend
  read_spend_parts bytes n rest e = ground arith

  -- A spend that was written is read back, and the loop goes on behind it.
  pub load_entries-spend :
      (fuel : ℕ) (o rest : Text) (s : Store)
      → load_entries json (suc fuel) (encode_spend o ++ rest) s
        ≡ load_entries json fuel rest (forget o s)
  unfolding load_entries
  load_entries-spend fuel o rest s =
      ap (λ (bytes : Text). load_entries json (suc fuel) bytes s) (regroup_spend o rest)
      ∙ go _ (
          read_spend_parts _ (length o) (o ++ rest) (read_u16-write_u16 (length o) (o ++ rest))
          ∙ rw (take-length_append o rest, drop-length_append o rest))
    where
      go :
          (bytes : Text)
          → read_entry json 2 bytes ≡ spent o rest
          → load_entries json (suc fuel) (2 ∷ bytes) s ≡ load_entries json fuel rest (forget o s)
      go bytes e = rw (e, load_entries)
