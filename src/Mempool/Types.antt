-- ===== src/Mempool/Types.antt =====
-- The data of src/mempool/transaction_pool.js: a transaction as the pool reads it and the state of
-- `class TransactionPool`.
-- A fee counts base units; a fee or a nonce is `none` where the property is absent or does not count as a
-- number, so that every comparison with it is false. An absent string and the empty one, which the code treats alike, are both
-- the empty text.
use bt2c.Base.{ℕ, Bool, Option}
use bt2c.Base.Int.{ℤ}
use bt2c.Base.Text.{Text}
use bt2c.Base.Dict.{Dict}

-- `verify` and `calculated_hash` are what the methods `verify()` and `calculateHash()` of the
-- transaction return, `none` where it does not have them; `added_time` is `none` where the property
-- is absent.
pub record PoolTx : Type 0 where
  pub hash : Text
  pub from : Text
  pub sender : Text
  pub to : Text
  pub recipient : Text
  pub fee : Option ℤ
  pub nonce : Option ℕ
  pub verify : Option Bool
  pub calculated_hash : Option Text
  pub added_time : Option ℕ

pub data TransactionStatus : Type 0 where
  pending included expired invalid : TransactionStatus

pub record Metadata : Type 0 where
  pub added_at : ℕ
  pub status : TransactionStatus

pub record PoolOptions : Type 0 where
  pub max_size : ℕ
  pub max_size_bytes : ℕ
  pub expiration_time : ℕ
  pub min_fee : ℤ

pub record Pool : Type 0 where
  pub options : PoolOptions
  pub transactions : Dict PoolTx
  pub transaction_metadata : Dict Metadata
  pub account_nonces : Dict ℕ
  pub size_bytes : ℤ

pub data Reason : Type 0 where
  missing_hash missing_sender missing_recipient invalid_signature invalid_hash : Reason
  fee_below_minimum nonce_too_low : Reason

pub data AddResult : Type 0 where
  added : Text → AddResult
  already_exists : Text → AddResult
  refused : Reason → AddResult
  wrong_nonce : Option ℕ → ℕ → AddResult
