-- ===== src/Utxo/Types.antt =====
-- The data of src/storage/utxo_store.js: an unspent output, the state of `class UTXOStore` with the
-- bytes of its log file, and what its methods may throw.
-- A string is the list of its UTF-8 bytes; an amount counts base units.
use bt2c.Base.{ℕ, ◌≡◌, Bool, Option, some, List}
use bt2c.Base.Int.{ℤ}
use bt2c.Base.Text.{Text}
use bt2c.Base.Dict.{Dict}

pub record Utxo : Type 0 where
  pub address : Text
  pub amount : ℤ

-- The runtime's `JSON.stringify` and `JSON.parse` on such objects, and that the one undoes the other.
pub record Json : Type 0 where
  pub stringify : Utxo → Text
  pub parse : Text → Option Utxo
  pub parse-stringify : (u : Utxo) → parse (stringify u) ≡ some u

-- `utxo_index` maps an address to the set of its outpoints; a set is listed in insertion order. The
-- threshold of compaction is the quotient `threshold_num / threshold_den`.
pub record Store : Type 0 where
  pub threshold_num : ℕ
  pub threshold_den : ℕ
  pub utxo_set : Dict Utxo
  pub utxo_index : Dict (List Text)
  pub spent_outputs : List Text
  pub file : Text
  pub file_position : ℕ
  pub is_open : Bool
  pub dirty : Bool
  pub last_compaction_time : ℕ
  pub total_utxo_count : ℕ
  pub spent_utxo_count : ℕ

-- `out_of_fuel` is no error of the code: it marks a loop that was cut off.
pub data Error : Type 0 where
  not_open out_of_range bad_json out_of_fuel : Error
  utxo_not_found : Text → Error

pub data Result (A : Type 0) : Type 0 where
  ok : A → Result A
  thrown : Error → Result A
