-- ===== src/Tests/OnSealing.antt =====
-- The theorems on valid blocks (src/blockchain/block.js) at a chain of two blocks.
use bt2c.Base.{◌+◌, ◌≤◌, ◌≡◌, refl, true, [], ◌∷◌, some}
use bt2c.Base.Int.{pos, ◌+ℤ◌}
use bt2c.Base.Text.{Text, text_eq}
use bt2c.Merkle.{push_last, pad, pad_round, pair_up, merkle_loop, calculate_merkle_root}
use bt2c.Sealing.{
  SealedTx, SealedBlock, Services, verify_signature, is_valid_tx, root_matches,
  verify_block_signature, all_valid, is_valid_block,
}
use bt2c.Sealing.Heights.{IsChain, tip, chain_heights}
use bt2c.Sealing.Doubling.{doubled_stays_valid}
use bt2c.Tests.{alice, bob, carol}

-- A signature is right if it is the text that is signed; the hash of a text is its first byte.
abbrev first_byte : Text → Text
first_byte [] = 0 ∷ []
first_byte (c ∷ cs) = c ∷ []

abbrev simple : Services
simple = record {
  verify = λ text signature key. text_eq text signature;
  signable_data = λ tx. tx.sender;
  digest = first_byte;
  verify_block = λ hash signature key. text_eq hash signature;
  state_balance = λ a. pos 50;
  state_nonce = λ a. 4;
}

abbrev signed : SealedTx
signed = record {
  sender = alice;
  recipient = bob;
  amount = some (pos 20);
  fee = some (pos 1);
  nonce = some 4;
  timestamp = 3;
  sender_public_key = [];
  signature = alice;
  hash = 50 ∷ [];
}

abbrev genesis : SealedBlock
genesis = record {
  height = 0;
  previous_hash = [];
  transactions = [];
  validator_address = carol;
  timestamp = 2;
  reward = pos 0;
  merkle_root = [];
  hash = 71 ∷ [];
  signature = [];
}

abbrev next_block : SealedBlock
next_block = record {
  height = 1;
  previous_hash = 71 ∷ [];
  transactions = signed ∷ [];
  validator_address = carol;
  timestamp = 9;
  reward = pos 21;
  merkle_root = 50 ∷ [];
  hash = 72 ∷ [];
  signature = 72 ∷ [];
}

next_valid : is_valid_block simple genesis carol next_block ≡ true
unfolding is_valid_block verify_block_signature root_matches all_valid is_valid_tx verify_signature
    calculate_merkle_root merkle_loop pair_up pad pad_round push_last text_eq ◌+ℤ◌
next_valid = refl

doubled_stays_valid_example :
    is_valid_block simple genesis carol (record next_block { transactions = signed ∷ signed ∷ [] })
    ≡ is_valid_block simple genesis carol next_block
doubled_stays_valid_example = doubled_stays_valid simple genesis carol next_block refl

two_blocks : IsChain simple genesis ((carol, next_block) ∷ [])
unfolding IsChain
two_blocks = (next_valid, tt)

chain_heights_example :
    ((tip genesis ((carol, next_block) ∷ [])).height ≡ 0 + 1)
    × (2 + 1 ≤ (tip genesis ((carol, next_block) ∷ [])).timestamp)
chain_heights_example = chain_heights simple genesis ((carol, next_block) ∷ []) two_blocks
