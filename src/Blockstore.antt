-- ===== src/Blockstore.antt =====
-- `class BlockchainStore` of src/storage/blockchain_store.js: the file of blocks, its index, and the
-- transactions in memory. The files are opened for appending, so a block goes to the end of its file; the
-- file system is taken not to fail. A closed store has no file handle, so writing to it throws, and a read
-- from it gives null. Checkpointing is switched off.
pub mod Types
pub mod Sequence
pub mod Calls
use bt2c.Base.{
  ℕ, suc, ◌+◌, Bool, true, false, ◌&&◌, ◌||◌, not, Option, none, some, List, [], ◌∷◌, ◌++◌, length,
  take, drop, ltb, ◌==◌, if◌then◌else◌,
}
use bt2c.Base.Text.{Text, is_empty}
use bt2c.Base.Dict.{Dict, lookup, insert}
use bt2c.Utxo.Types.{Utxo}
use Types.{Transfer, StoredBlock, Codec, Slot, Kept, Saved, Archive, Addition, returned, threw}

-- `m.get(h)` and `m.set(h, x)` of a map keyed by heights.
abbrev pub at_height : ℕ → List (ℕ × Slot) → Option Slot
at_height h [] = none
at_height h ((k, x) ∷ d) = if h == k then some x else at_height h d

abbrev pub set_height : ℕ → Slot → List (ℕ × Slot) → List (ℕ × Slot)
set_height h x [] = (h, x) ∷ []
set_height h x ((k, y) ∷ d) = if h == k then (k, x) ∷ d else (k, y) ∷ set_height h x d

unfoldable pub new_archive : Text → Option Saved → Archive
new_archive blocks index = record {
  block_index = [];
  block_hash_index = [];
  kept_transactions = [];
  block_transactions = [];
  file_position = 0;
  current_height = none;
  current_block_hash = none;
  blocks_file = blocks;
  index_file = index;
  is_open = false;
}

unfoldable pub load_index : Archive → Archive
load_index s = elim s.index_file [
  | none ↦ s
  | some d ↦ record s {
    block_index = d.saved_index;
    block_hash_index = d.saved_hashes;
    current_height = d.saved_height;
    file_position = d.saved_position;
    current_block_hash = d.saved_hash;
  }
]

unfoldable pub initialize : Archive → Archive
initialize s = record (load_index s) { is_open = true }

unfoldable pub sync : Archive → Archive
sync s =
    if s.is_open
    then record s {
      index_file = some (record {
        saved_index = s.block_index;
        saved_hashes = s.block_hash_index;
        saved_height = s.current_height;
        saved_position = s.file_position;
        saved_hash = s.current_block_hash;
      });
    }
    else s

unfoldable pub close : Archive → Archive
close s = if s.is_open then record (sync s) { is_open = false } else s

abbrev pub expected_height : Option ℕ → ℕ
expected_height none = 0
expected_height (some h) = h + 1

-- The block in the file and the indices.
unfoldable pub write_block : Codec → ℕ → StoredBlock → Archive → Archive
write_block k h b s =
    let bytes = k.encode b in
    record s {
      blocks_file = s.blocks_file ++ bytes;
      block_index =
          set_height h (record { position = s.file_position; size = length bytes }) s.block_index;
      block_hash_index = insert b.hash h s.block_hash_index;
      file_position = s.file_position + length bytes;
      current_height = some h;
      current_block_hash = some b.hash;
    }

unfoldable pub keep : ℕ → StoredBlock → Transfer → Dict Kept → Dict Kept
keep h b t d =
    insert t.txid
      (record {
        transfer = t;
        block_hash = b.hash;
        block_height = h;
        block_timestamp = b.timestamp;
      })
      d

-- The identifiers of the transactions that have one.
abbrev pub named : List Transfer → List Text
named [] = []
named (t ∷ ts) = let rest = named ts in if is_empty t.txid then rest else t.txid ∷ rest

-- `blockTransactions.set`, which is not reached after an exception.
unfoldable pub list_transactions : StoredBlock → Bool → Dict (List Text) → Dict (List Text)
list_transactions b true d = d
list_transactions b false d = elim b.transactions [
  | [] ↦ d
  | t ∷ ts ↦ insert b.hash (named b.transactions) d
]

-- `spend` and `add` are the methods `spendUTXO` and `addUTXO` of the store of unspent outputs, whose
-- state is `S`; true says that the call threw.
module _ {ℓ} {S : Type ℓ} (spend : Text → ℕ → ℕ → S → S × Bool)
    (add : Text → ℕ → Utxo → ℕ → StoredBlock → S → S × Bool) where
  abbrev pub spend_each : ℕ → List (Text × Option ℕ) → S × Bool → S × Bool
  spend_each h [] r = r
  spend_each h ((txid, none) ∷ is) r = spend_each h is r
  spend_each h ((txid, some vout) ∷ is) r =
      spend_each h is (if r.1 || is_empty txid then r else spend txid vout h r.0)

  abbrev pub add_each : ℕ → StoredBlock → Text → ℕ → List Utxo → S × Bool → S × Bool
  add_each h b txid vout [] r = r
  add_each h b txid vout (o ∷ os) r =
      add_each h b txid (vout + 1) os (if r.1 then r else add txid vout o h b r.0)

  unfoldable pub move_outputs : ℕ → StoredBlock → Transfer → S → S × Bool
  move_outputs h b t u =
      add_each h b t.txid 0 t.outputs
        (if t.coinbase then (u, false) else spend_each h t.inputs (u, false))

  -- The transactions one after the other, up to the first exception.
  unfoldable pub process_each :
      ℕ → StoredBlock → List Transfer → Dict Kept → S → Dict Kept × S × Bool
  process_each h b [] d u = (d, u, false)
  process_each h b (t ∷ ts) d u =
      let moved = move_outputs h b t u in
      let skipping = process_each h b ts d u in
      let going_on = process_each h b ts (keep h b t d) moved.0 in
      if is_empty t.txid
      then skipping
      else if moved.1
      then (keep h b t d, moved.0, true)
      else going_on

  unfoldable pub add_block : Codec → StoredBlock → Archive × S → (Archive × S) × Addition
  add_block k b (s, u) = if is_empty b.hash then ((s, u), returned false) else elim b.height [
    | none ↦ ((s, u), returned false)
    | some h ↦
        if not (h == expected_height s.current_height)
        then ((s, u), returned false)
        else if not s.is_open
        then ((s, u), threw)
        else let (kept, v, failed) = process_each h b b.transactions s.kept_transactions u in
          let w = write_block k h b s in
          (
            (
              record w {
                kept_transactions = kept;
                block_transactions = list_transactions b failed s.block_transactions;
              },
              v,
            ),
            if failed then threw else returned true,
          )
  ]

unfoldable pub read_slot : Codec → Slot → Archive → Option StoredBlock
read_slot k x s = if s.is_open then k.decode (take x.size (drop x.position s.blocks_file)) else none

abbrev pub is_above : ℕ → Option ℕ → Bool
is_above h none = true
is_above h (some n) = ltb n h

unfoldable pub get_block_by_height : Codec → ℕ → Archive → Option StoredBlock
get_block_by_height k h s =
    if is_above h s.current_height
    then none
    else elim (at_height h s.block_index) [ none ↦ none | some x ↦ read_slot k x s ]

unfoldable pub get_block_by_hash : Codec → Text → Archive → Option StoredBlock
get_block_by_hash k hash s = elim (lookup hash s.block_hash_index) [
  | none ↦ none
  | some h ↦ get_block_by_height k h s
]

unfoldable pub get_transaction_by_hash : Text → Archive → Option Kept
get_transaction_by_hash hash s = lookup hash s.kept_transactions

unfoldable pub get_block_transactions : Text → Archive → Option (List Text)
get_block_transactions hash s = lookup hash s.block_transactions
