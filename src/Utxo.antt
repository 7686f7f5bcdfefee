-- ===== src/Utxo.antt =====
-- `class UTXOStore` of src/storage/utxo_store.js: the set of unspent outputs, the index by address,
-- the spent outputs and the log file. The file is opened for appending, so a write goes to its end;
-- the file system itself is taken not to fail. A method returns the store and its result, the store
-- also where it throws, since what was written before stays written.
pub mod Types
pub mod Log
pub mod Codec
pub mod Durability
pub mod Fuel
pub mod Survival
pub mod Sets
pub mod Index
pub mod Balance
use bt2c.Base.{
  ℕ, zero, suc, ◌+◌, ◌*◌, Bool, true, false, ◌||◌, not, Option, none, some, List, [], ◌∷◌, ◌++◌,
  length, ltb, leb, ◌==◌, if◌then◌else◌,
}
use bt2c.Base.Int.{ℤ, pos, ◌+ℤ◌}
use bt2c.Base.Text.{Text, text_eq}
use bt2c.Base.Dict.{Dict, lookup, contains, insert, erase}
use Types.{
  Utxo, Json, Store, Error, not_open, out_of_range, out_of_fuel, utxo_not_found, Result, ok, thrown,
}
use Log.{
  outpoint, encode_add, add_overflows, encode_spend, spend_overflows, Entry, added, spent, skipped,
  failed, read_entry,
}

-- The methods of a JavaScript `Set` of strings.
abbrev pub member : Text → List Text → Bool
member o [] = false
member o (x ∷ xs) = if text_eq o x then true else member o xs

abbrev pub set_add : Text → List Text → List Text
set_add o [] = o ∷ []
set_add o (x ∷ xs) = if text_eq o x then x ∷ xs else x ∷ set_add o xs

abbrev pub set_delete : Text → List Text → List Text
set_delete o [] = []
set_delete o (x ∷ xs) = if text_eq o x then xs else x ∷ set_delete o xs

-- The outpoints of an address, none if it is not in the index.
abbrev pub outpoints_of : Text → Dict (List Text) → List Text
outpoints_of a index = elim (lookup a index) [ none ↦ [] | some os ↦ os ]

unfoldable pub index_add : Text → Text → Dict (List Text) → Dict (List Text)
index_add a o index = insert a (set_add o (outpoints_of a index)) index

abbrev pub put_back : Text → List Text → Dict (List Text) → Dict (List Text)
put_back a [] index = erase a index
put_back a (o ∷ os) index = insert a (o ∷ os) index

unfoldable pub index_remove : Text → Text → Dict (List Text) → Dict (List Text)
index_remove a o index = elim (lookup a index) [
  | none ↦ index
  | some os ↦ put_back a (set_delete o os) index
]

-- Lines 318 to 326 of `addUTXO`, and lines 178 to 186 of `loadUTXOSet`.
unfoldable pub remember : Text → Utxo → Store → Store
unfolding index_add
remember o u s = record s {
  utxo_set = insert o u s.utxo_set;
  total_utxo_count = s.total_utxo_count + 1;
  utxo_index = index_add u.address o s.utxo_index;
}

-- Lines 398 to 411 of `spendUTXO`, and lines 196 to 212 of `loadUTXOSet`.
unfoldable pub forget : Text → Store → Store
unfolding index_remove
forget o s =
    let s1 = record s {
      spent_outputs = set_add o s.spent_outputs;
      spent_utxo_count = s.spent_utxo_count + 1;
    } in
    elim (lookup o s.utxo_set) [
      | none ↦ s1
      | some u ↦ record s1 {
        utxo_set = erase o s.utxo_set;
        utxo_index = index_remove u.address o s.utxo_index;
      }
    ]

abbrev pub write : Text → Store → Store
write bytes s = record s {
  file = s.file ++ bytes;
  file_position = s.file_position + length bytes;
  dirty = true;
}

unfoldable pub add_utxo : Json → Text → ℕ → Utxo → Store → Store × Result (Unit {0})
add_utxo json txid vout u s =
    let o = outpoint txid vout in
    if not s.is_open
    then (s, thrown not_open)
    else if add_overflows json o u
    then (remember o u s, thrown out_of_range)
    else (write (encode_add json o u) (remember o u s), ok tt)

unfoldable pub spend_utxo : Text → ℕ → Store → Store × Result (Unit {0})
spend_utxo txid vout s =
    let o = outpoint txid vout in
    if not s.is_open
    then (s, thrown not_open)
    else if not (contains o s.utxo_set)
    then (s, thrown (utxo_not_found o))
    else if spend_overflows o
    then (forget o s, thrown out_of_range)
    else (write (encode_spend o) (forget o s), ok tt)

unfoldable pub get_utxo : Text → ℕ → Store → Result (Option Utxo)
get_utxo txid vout s =
    if not s.is_open then thrown not_open else ok (lookup (outpoint txid vout) s.utxo_set)

abbrev pub amount_at : Text → Dict Utxo → ℤ
amount_at o d = elim (lookup o d) [ none ↦ pos 0 | some u ↦ u.amount ]

-- The loop of `getBalance`.
abbrev pub sum_of : List Text → Dict Utxo → ℤ
sum_of [] d = pos 0
sum_of (o ∷ os) d = amount_at o d +ℤ sum_of os d

unfoldable pub get_balance : Text → Store → Result ℤ
get_balance address s =
    if not s.is_open
    then thrown not_open
    else ok (sum_of (outpoints_of address s.utxo_index) s.utxo_set)

unfoldable pub is_spent : Text → ℕ → Store → Result Bool
is_spent txid vout s =
    if not s.is_open then thrown not_open else ok (member (outpoint txid vout) s.spent_outputs)

-- The loop of `loadUTXOSet`, on the bytes that are left.
unfoldable pub load_entries : Json → ℕ → Text → Store → Store × Result (Unit {0})
load_entries json fuel [] s = (s, ok tt)
load_entries json zero (t ∷ bytes) s = (s, thrown out_of_fuel)
load_entries json (suc fuel) (t ∷ bytes) s = elim (read_entry json t bytes) [
  | added o u rest ↦ load_entries json fuel rest (remember o u s)
  | spent o rest ↦ load_entries json fuel rest (forget o s)
  | skipped rest ↦ load_entries json fuel rest s
  | failed e ↦ (s, thrown e)
]

-- Each round takes at least one byte, so the length of the file is fuel enough.
unfoldable pub load_utxo_set : Json → Store → Store × Result (Unit {0})
unfolding load_entries
load_utxo_set json s =
    let (s1, r) = load_entries json (length s.file) s.file s in
    elim r [
      | ok _ ↦ (record s1 { file_position = length s.file }, ok tt)
      | thrown e ↦ (s1, thrown e)
    ]

unfoldable pub initialize : Json → Store → Store × Result (Unit {0})
initialize json s =
    if s.is_open
    then (s, ok tt)
    else let (s1, r) = load_utxo_set json s in
      elim r [ ok _ ↦ (record s1 { is_open = true }, ok tt) | thrown e ↦ (s1, thrown e) ]

unfoldable pub sync : Store → Store
sync s = if not s.is_open || not s.dirty then s else record s { dirty = false }

unfoldable pub close : Store → Store
close s =
    if not s.is_open
    then s
    else let s1 = if s.dirty then sync s else s in record s1 { is_open = false }

-- The entries that `compact` writes, or nothing if one does not fit.
unfoldable pub encode_set : Json → Dict Utxo → Option Text
encode_set json [] = some []
encode_set json ((o, u) ∷ d) =
    if add_overflows json o u
    then none
    else elim (encode_set json d) [ none ↦ none | some bytes ↦ some (encode_add json o u ++ bytes) ]

unfoldable pub compact : Json → ℕ → Store → Store × Result (Unit {0})
compact json now s =
    if not s.is_open then (s, thrown not_open) else elim (encode_set json s.utxo_set) [
      | none ↦ (s, thrown out_of_range)
      | some bytes ↦ (
        record s {
          file = bytes;
          file_position = length bytes;
          spent_outputs = [];
          spent_utxo_count = 0;
          total_utxo_count = length s.utxo_set;
          last_compaction_time = now;
        },
        ok tt,
      )
    ]

-- `spentUtxoCount / totalUtxoCount >= compactionThreshold`, where a division by zero gives infinity
-- for a spent count above zero, and no number otherwise.
abbrev pub compaction_due : Store → Bool
compaction_due s =
    if s.total_utxo_count == 0
    then ltb 0 s.spent_utxo_count
    else leb (s.threshold_num * s.total_utxo_count) (s.spent_utxo_count * s.threshold_den)

-- What `compact` throws is caught.
unfoldable pub check_compaction : Json → ℕ → Store → Store
check_compaction json now s =
    if not s.is_open then s else if compaction_due s then (compact json now s).0 else s

-- A new object over a file.
unfoldable pub new_store : ℕ → ℕ → ℕ → Text → Store
new_store now threshold_num threshold_den file = record {
  threshold_num = threshold_num;
  threshold_den = threshold_den;
  utxo_set = [];
  utxo_index = [];
  spent_outputs = [];
  file = file;
  file_position = 0;
  is_open = false;
  dirty = false;
  last_compaction_time = now;
  total_utxo_count = 0;
  spent_utxo_count = 0;
}
