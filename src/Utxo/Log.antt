-- ===== src/Utxo/Log.antt =====
-- The log format of src/storage/utxo_store.js: how `addUTXO` and `spendUTXO` write an entry, and how
-- `loadUTXOSet` reads one. What reads past the end of the buffer throws, as the methods of `Buffer`
-- do; `toString` and `slice` stop at the end.
use bt2c.Base.{
  ℕ, zero, suc, ◌+◌, ◌*◌, ◌/◌, ◌%◌, Bool, ◌||◌, Option, none, some, [], ◌∷◌, ◌++◌, length, take,
  drop, ltb, ◌==◌, if◌then◌else◌,
}
use bt2c.Base.Text.{Text}
use bt2c.Utxo.Types.{Utxo, Json, Error, out_of_range, bad_json}

-- The decimal digits of a number, with fuel for one more digit than it has.
unfoldable pub decimal_from : ℕ → ℕ → Text
decimal_from zero n = []
decimal_from (suc fuel) n =
    let front = decimal_from fuel (n / 10) in
    if ltb n 10 then (48 + n) ∷ [] else front ++ ((48 + n % 10) ∷ [])

-- `${txid}:${vout}`
unfoldable pub outpoint : Text → ℕ → Text
unfolding decimal_from
outpoint txid vout = txid ++ (58 ∷ decimal_from (suc vout) vout)

-- `writeUInt16BE`, `writeUInt32BE`
unfoldable pub write_u16 : ℕ → Text
write_u16 n = (n / 256) ∷ (n % 256) ∷ []

unfoldable pub write_u32 : ℕ → Text
write_u32 n = (n / 16777216) ∷ (n / 65536 % 256) ∷ (n / 256 % 256) ∷ (n % 256) ∷ []

unfoldable pub read_u16 : Text → Option (ℕ × Text)
read_u16 (a ∷ b ∷ rest) = some (a * 256 + b, rest)
read_u16 _ = none

unfoldable pub read_u32 : Text → Option (ℕ × Text)
read_u32 (a ∷ b ∷ c ∷ d ∷ rest) = some (a * 16777216 + b * 65536 + c * 256 + d, rest)
read_u32 _ = none

module _ (json : Json) where
  open json use {stringify, parse}

  unfoldable pub encode_add : Text → Utxo → Text
  unfolding write_u16 write_u32
  encode_add o u =
      1 ∷ (write_u16 (length o) ++ (o ++ (write_u32 (length (stringify u)) ++ stringify u)))

  -- The lengths do not fit their fields, and `writeUInt16BE` or `writeUInt32BE` throws.
  unfoldable pub add_overflows : Text → Utxo → Bool
  add_overflows o u = ltb 65535 (length o) || ltb 4294967295 (length (stringify u))

unfoldable pub encode_spend : Text → Text
unfolding write_u16
encode_spend o = 2 ∷ (write_u16 (length o) ++ o)

unfoldable pub spend_overflows : Text → Bool
spend_overflows o = ltb 65535 (length o)

-- One round of the loop of `loadUTXOSet`: what was read, and the bytes after it.
pub data Entry : Type 0 where
  added : Text → Utxo → Text → Entry
  spent : Text → Text → Entry
  skipped : Text → Entry
  failed : Error → Entry

module _ (json : Json) where
  open json use {parse}

  unfoldable pub read_add : Text → Entry
  read_add bytes = elim (read_u16 bytes) [
    | none ↦ failed out_of_range
    | some (n, rest) ↦ elim (read_u32 (drop n rest)) [
      | none ↦ failed out_of_range
      | some (m, rest') ↦ elim (parse (take m rest')) [
        | none ↦ failed bad_json
        | some u ↦ added (take n rest) u (drop m rest')
      ]
    ]
  ]

unfoldable pub read_spend : Text → Entry
read_spend bytes = elim (read_u16 bytes) [
  | none ↦ failed out_of_range
  | some (n, rest) ↦ spent (take n rest) (drop n rest)
]

-- A byte that is neither 1 nor 2 is passed over.
unfoldable pub read_entry : Json → ℕ → Text → Entry
read_entry json entry_type bytes =
    if entry_type == 1
    then read_add json bytes
    else if entry_type == 2
    then read_spend bytes
    else skipped bytes
