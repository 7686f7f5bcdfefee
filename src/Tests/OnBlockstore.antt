-- ===== src/Tests/OnBlockstore.antt =====
-- The theorem on the block store (src/storage/blockchain_store.js) at a concrete sequence of calls.
use bt2c.Base.{
  ℕ, zero, suc, ◌+◌, ◌≡◌, refl, Bool, true, false, none, some, List, [], ◌∷◌, if◌then◌else◌,
}
use bt2c.Base.Int.{pos}
use bt2c.Base.Text.{Text, text_eq}
use bt2c.Utxo.Types.{Utxo}
use bt2c.Blockstore.Types.{Transfer, StoredBlock, Codec, Archive}
use bt2c.Blockstore.{new_archive, initialize, get_block_by_height, get_block_by_hash}
use bt2c.Blockstore.Calls.{append, reopen, save, Call, run, archive_is_list, Readable}
use bt2c.Tests.{alice, bob, carol}

abbrev grant : Transfer
grant = record {
  txid = 103 ∷ [];
  coinbase = true;
  inputs = [];
  outputs = record { address = alice; amount = pos 5 } ∷ [];
}

abbrev transfer : Transfer
transfer = record {
  txid = 104 ∷ [];
  coinbase = false;
  inputs = (103 ∷ [], some 0) ∷ [];
  outputs = record { address = bob; amount = pos 5 } ∷ [];
}

abbrev genesis : StoredBlock
genesis = record {
  hash = 49 ∷ [];
  height = some 0;
  previous_hash = [];
  timestamp = 1;
  transactions = grant ∷ [];
}

abbrev second : StoredBlock
second = record {
  hash = 50 ∷ 50 ∷ [];
  height = some 1;
  previous_hash = 49 ∷ [];
  timestamp = 2;
  transactions = transfer ∷ [];
}

-- A block that skips a height.
abbrev far : StoredBlock
far = record second { hash = carol; height = some 7 }

-- A codec for these three blocks.
abbrev tiny_codec : Codec
tiny_codec = record {
  encode = λ (b : StoredBlock). b.hash;
  decode = λ (t : Text).
      if text_eq t (49 ∷ [])
      then some genesis
      else if text_eq t (50 ∷ 50 ∷ [])
      then some second
      else if text_eq t carol
      then some far
      else none;
}

-- A store of unspent outputs that counts them, and that throws on spending one when it has none.
abbrev spend : Text → ℕ → ℕ → ℕ → ℕ × Bool
spend txid vout height zero = (0, true)
spend txid vout height (suc n) = (n, false)

abbrev add : Text → ℕ → Utxo → ℕ → StoredBlock → ℕ → ℕ × Bool
add txid vout o height b n = (n + 1, false)

abbrev calls : List Call
calls = append genesis ∷ append far ∷ save ∷ reopen ∷ append genesis ∷ append second ∷ reopen ∷ []

calls_read : Readable tiny_codec calls
unfolding text_eq
calls_read = (refl, (refl, (refl, (refl, tt))))

abbrev archive : Archive
archive = (run spend add tiny_codec calls (initialize (new_archive [] none), 0)).0

archive_is_list_example :
    (get_block_by_height tiny_codec 1 archive ≡ some second)
    × (get_block_by_hash tiny_codec (49 ∷ []) archive ≡ some genesis)
unfolding text_eq
archive_is_list_example = archive_is_list spend add tiny_codec calls 0 1 (49 ∷ []) calls_read
