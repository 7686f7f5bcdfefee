-- ===== src/Sealing.antt =====
-- What `isValid` checks of a block (src/blockchain/block.js) and of a transaction
-- (src/blockchain/transaction.js). The signature check of a transaction, its JSON text and the hash are
-- third-party code, and the block's signature check and the ledger are arguments of the methods: all
-- are parameters. A signature that is null is the empty text; amounts count base units. An amount, a fee or
-- a nonce is `none` where it is absent or does not count as a number.
pub mod Heights
pub mod Doubling
use bt2c.Base.{
  ℕ, ◌+◌, Bool, true, false, ◌&&◌, not, Option, none, some, List, [], ◌∷◌, map, leb, ◌==◌,
  if◌then◌else◌,
}
use bt2c.Base.Int.{ℤ, ◌+ℤ◌, ltb_ℤ}
use bt2c.Base.Text.{Text, text_eq, is_empty}
use bt2c.Merkle.{calculate_merkle_root}

pub record SealedTx : Type 0 where
  pub sender : Text
  pub recipient : Text
  pub amount : Option ℤ
  pub fee : Option ℤ
  pub nonce : Option ℕ
  pub timestamp : ℕ
  pub sender_public_key : Text
  pub signature : Text
  pub hash : Text

pub record SealedBlock : Type 0 where
  pub height : ℕ
  pub previous_hash : Text
  pub transactions : List SealedTx
  pub validator_address : Text
  pub timestamp : ℕ
  pub reward : ℤ
  pub merkle_root : Text
  pub hash : Text
  pub signature : Text

-- `verify(data, signature, publicKey)` and `JSON.stringify` of the signed fields, the hash function,
-- `verifyFunction(hash, signature, publicKey)`, and `state.getBalance` and `state.getNonce`.
pub record Services : Type 0 where
  pub verify : Text → Text → Text → Bool
  pub signable_data : SealedTx → Text
  pub digest : Text → Text
  pub verify_block : Text → Text → Text → Bool
  pub state_balance : Text → ℤ
  pub state_nonce : Text → ℕ

-- `this.amount + this.fee`, which is then no number either.
abbrev pub plus : Option ℤ → Option ℤ → Option ℤ
plus (some a) (some b) = some (a +ℤ b)
plus _ _ = none

-- `balance < cost`, and `nonce === expected`.
abbrev pub falls_short : ℤ → Option ℤ → Bool
falls_short balance none = false
falls_short balance (some cost) = ltb_ℤ balance cost

abbrev pub is_nonce : Option ℕ → ℕ → Bool
is_nonce none expected = false
is_nonce (some n) expected = n == expected

module _ (services : Services) where
  open services use {verify, signable_data, digest, verify_block, state_balance, state_nonce}

  unfoldable pub verify_signature : SealedTx → Bool
  verify_signature tx =
      if is_empty tx.signature
      then false
      else verify (signable_data tx) tx.signature tx.sender_public_key

  unfoldable pub is_valid_tx : SealedTx → Bool
  is_valid_tx tx =
      if not (verify_signature tx)
      then false
      else if falls_short (state_balance tx.sender) (plus tx.amount tx.fee)
      then false
      else is_nonce tx.nonce (state_nonce tx.sender)

  -- `this.merkleRoot === this.calculateMerkleRoot()`
  unfoldable pub root_matches : SealedBlock → Bool
  root_matches b = elim (calculate_merkle_root digest (map (λ tx. tx.hash) b.transactions)) [
    | none ↦ false
    | some root ↦ text_eq b.merkle_root root
  ]

  unfoldable pub verify_block_signature : Text → SealedBlock → Bool
  verify_block_signature public_key b =
      if is_empty b.signature then false else verify_block b.hash b.signature public_key

  -- The loop over the transactions.
  unfoldable pub all_valid : List SealedTx → Bool
  all_valid [] = true
  all_valid (tx ∷ txs) = if not (is_valid_tx tx) then false else all_valid txs

  unfoldable pub is_valid_block : SealedBlock → Text → SealedBlock → Bool
  is_valid_block previous public_key b =
      if not (b.height == previous.height + 1)
      then false
      else if not (text_eq b.previous_hash previous.hash)
      then false
      else if leb b.timestamp previous.timestamp
      then false
      else if not (verify_block_signature public_key b)
      then false
      else if not (root_matches b)
      then false
      else all_valid b.transactions
