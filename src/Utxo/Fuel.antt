-- ===== src/Utxo/Fuel.antt =====
-- The fuel of the loop of `loadUTXOSet` in src/storage/utxo_store.js.
use bt2c.Base.{
  ℕ, zero, suc, ◌+◌, ◌*◌, ◌≤◌, ◌≢◌, none, some, inl, inr, [], ◌∷◌, length, take, drop, arith, ◌==◌,
  Bool-cases,
}
use bt2c.Base.Text.{Text}
use bt2c.Utxo.Types.{Json, Store, Error, out_of_range, out_of_fuel, bad_json, Result, ok, thrown}
use bt2c.Utxo.Log.{
  Entry, added, spent, skipped, failed, read_u16, read_u32, read_add, read_spend, read_entry,
}
use bt2c.Utxo.{remember, forget, load_entries, load_utxo_set}

length-drop : (n : ℕ) (bs : Text) → length (drop n bs) ≤ length bs
length-drop zero bs = omega arith
length-drop (suc n) [] = omega arith
length-drop (suc n) (b ∷ bs) = omega (arith, length-drop n bs)

-- What a round leaves is no longer than `n`, and a round does not fail for want of fuel.
abbrev Fits : ℕ → Entry → Type 0
Fits n (added o u rest) = length rest ≤ n
Fits n (spent o rest) = length rest ≤ n
Fits n (skipped rest) = length rest ≤ n
Fits n (failed e) = e ≢ out_of_fuel

range_ne : out_of_range ≢ out_of_fuel
range_ne e = cc

json_ne : bad_json ≢ out_of_fuel
json_ne e = cc

read_spend-Fits : (bytes : Text) → Fits (length bytes) (read_spend bytes)
unfolding read_spend read_u16
read_spend-Fits [] = range_ne
read_spend-Fits (a ∷ []) = range_ne
read_spend-Fits (a ∷ b ∷ bytes) = omega (arith, length-drop (a * 256 + b) bytes)

read_rest-Fits :
    (json : Json) (o : Text) (bytes : Text)
    → Fits (length bytes) (elim (read_u32 bytes) [
      | none ↦ failed out_of_range
      | some (m, rest) ↦ elim (json.parse (take m rest)) [
        | none ↦ failed bad_json
        | some u ↦ added o u (drop m rest)
      ]
    ])
unfolding read_u32
read_rest-Fits json o [] = range_ne
read_rest-Fits json o (a ∷ []) = range_ne
read_rest-Fits json o (a ∷ b ∷ []) = range_ne
read_rest-Fits json o (a ∷ b ∷ c ∷ []) = range_ne
read_rest-Fits json o (a ∷ b ∷ c ∷ d ∷ rest) =
    let m = a * 16777216 + b * 65536 + c * 256 + d in
    elim (json.parse (take m rest))
      as (λ x.
        Fits (length (a ∷ b ∷ c ∷ d ∷ rest))
          (elim x [ none ↦ failed bad_json | some u ↦ added o u (drop m rest) ])) [
            | none ↦ json_ne
            | some u ↦ omega (arith, length-drop m rest)
          ]

Fits-more : (m n : ℕ) (e : Entry) → m ≤ n → Fits m e → Fits n e
Fits-more m n (added o u rest) l f = omega (arith, l, f)
Fits-more m n (spent o rest) l f = omega (arith, l, f)
Fits-more m n (skipped rest) l f = omega (arith, l, f)
Fits-more m n (failed e) l f = f

read_add-Fits : (json : Json) (bytes : Text) → Fits (length bytes) (read_add json bytes)
unfolding read_add read_u16
read_add-Fits json [] = range_ne
read_add-Fits json (a ∷ []) = range_ne
read_add-Fits json (a ∷ b ∷ rest) =
    let n = a * 256 + b in
    Fits-more (length (drop n rest)) (length (a ∷ b ∷ rest)) _ (omega (arith, length-drop n rest))
      (read_rest-Fits json (take n rest) (drop n rest))

read_entry-Fits :
    (json : Json) (t : ℕ) (bytes : Text) → Fits (length bytes) (read_entry json t bytes)
unfolding read_entry
read_entry-Fits json t bytes = elim (Bool-cases (t == 1)) [
  | inl e ↦ simp e (read_add-Fits json bytes)
  | inr e ↦ elim (Bool-cases (t == 2)) [
    | inl g ↦ simp (e, g) (read_spend-Fits bytes)
    | inr g ↦ simp (e, g) (omega arith)
  ]
]

abbrev stopped : Error → Result (Unit {0})
stopped e = thrown e

ok_ne : ok tt ≢ stopped out_of_fuel
ok_ne e = cc

thrown_ne : (e : Error) → e ≢ out_of_fuel → stopped e ≢ stopped out_of_fuel
thrown_ne e n q = n cc

abbrev resume : Json → ℕ → Store → Entry → Store × Result (Unit {0})
resume json fuel s (added o u rest) = load_entries json fuel rest (remember o u s)
resume json fuel s (spent o rest) = load_entries json fuel rest (forget o s)
resume json fuel s (skipped rest) = load_entries json fuel rest s
resume json fuel s (failed x) = (s, stopped x)

-- One round, given that the rounds on shorter bytes do not run out.
round_enough :
    (json : Json) (fuel n : ℕ) (s : Store) (e : Entry)
    → ((bytes : Text) (s : Store)
        → length bytes ≤ fuel
        → (load_entries json fuel bytes s).1 ≢ stopped out_of_fuel)
    → n ≤ fuel
    → Fits n e
    → (resume json fuel s e).1 ≢ stopped out_of_fuel
round_enough json fuel n s (added o u rest) ih l f = ih rest (remember o u s) (omega (arith, l, f))
round_enough json fuel n s (spent o rest) ih l f = ih rest (forget o s) (omega (arith, l, f))
round_enough json fuel n s (skipped rest) ih l f = ih rest s (omega (arith, l, f))
round_enough json fuel n s (failed x) ih l f = thrown_ne x f

load_enough :
    (json : Json) (fuel : ℕ) (bytes : Text) (s : Store)
    → length bytes ≤ fuel
    → (load_entries json fuel bytes s).1 ≢ stopped out_of_fuel
unfolding load_entries
load_enough json fuel [] s l = ok_ne
load_enough json zero (t ∷ bytes) s l = absurd (omega (arith, l))
load_enough json (suc fuel) (t ∷ bytes) s l =
    round_enough json fuel (length bytes) s (read_entry json t bytes) (load_enough json fuel)
      (omega (arith, l)) (read_entry-Fits json t bytes)

-- Loading ends for every file, whatever bytes it holds: the length of the file is fuel enough, so
-- that the result is that of the code, an error of the code included.
pub load_terminates : (json : Json) (s : Store) → (load_utxo_set json s).1 ≢ thrown out_of_fuel
unfolding load_utxo_set
load_terminates json s q =
    ground (arith, q, load_enough json (length s.file) s.file s (omega arith))
