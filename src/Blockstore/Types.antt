-- ===== src/Blockstore/Types.antt =====
-- The state of the block store (src/storage/blockchain_store.js).
use bt2c.Base.{ℕ, Bool, Option, List}
use bt2c.Base.Text.{Text}
use bt2c.Base.Dict.{Dict}
use bt2c.Utxo.Types.{Utxo}

-- An input without a number of its output has none.
pub record Transfer : Type 0 where
  pub txid : Text
  pub coinbase : Bool
  pub inputs : List (Text × Option ℕ)
  pub outputs : List Utxo

pub record StoredBlock : Type 0 where
  pub hash : Text
  pub height : Option ℕ
  pub previous_hash : Text
  pub timestamp : ℕ
  pub transactions : List Transfer

-- A block as bytes: `zlib.deflateSync(JSON.stringify(block))`, and the way back.
pub record Codec : Type 0 where
  pub encode : StoredBlock → Text
  pub decode : Text → Option StoredBlock

pub record Slot : Type 0 where
  pub position : ℕ
  pub size : ℕ

-- What is kept of a transaction, with its block.
pub record Kept : Type 0 where
  pub transfer : Transfer
  pub block_hash : Text
  pub block_height : ℕ
  pub block_timestamp : ℕ

-- The content of the index file, which is written as a whole.
pub record Saved : Type 0 where
  pub saved_index : List (ℕ × Slot)
  pub saved_hashes : Dict ℕ
  pub saved_height : Option ℕ
  pub saved_position : ℕ
  pub saved_hash : Option Text

-- `current_height` is none for -1.
pub record Archive : Type 0 where
  pub block_index : List (ℕ × Slot)
  pub block_hash_index : Dict ℕ
  pub kept_transactions : Dict Kept
  pub block_transactions : Dict (List Text)
  pub file_position : ℕ
  pub current_height : Option ℕ
  pub current_block_hash : Option Text
  pub blocks_file : Text
  pub index_file : Option Saved
  pub is_open : Bool

-- What `addBlock` did: its result, or an exception.
pub data Addition : Type 0 where
  returned : Bool → Addition
  threw : Addition
