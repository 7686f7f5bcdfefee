-- ===== src/Mempool.antt =====
-- `class TransactionPool` of src/mempool/transaction_pool.js: the transactions that wait for a block.
-- The events, the broadcast and the timers are left out; a method returns its result and the pool.
pub mod Types
pub mod Loading
pub mod Sort
pub mod Select
pub mod Books
pub mod Eviction
pub mod Sparing
pub mod Soundness
pub mod Admission
pub mod Expiry
pub mod Reuse
pub mod Monotone
use bt2c.Base.{
  ℕ, zero, suc, ◌+◌, ◌≡◌, Bool, true, false, ◌&&◌, ◌||◌, not, Option, none, some, List, [], ◌∷◌,
  length, ltb, leb, ◌==◌, if◌then◌else◌,
}
use bt2c.Base.Int.{ℤ, pos, ◌+ℤ◌, ◌-ℤ◌, ltb_ℤ, leb_ℤ}
use bt2c.Base.Text.{Text, text_eq, is_empty}
use bt2c.Base.Dict.{Dict, lookup, contains, insert, erase}
use bt2c.Ledger.{or_else}
use Types.{
  PoolTx, TransactionStatus, Metadata, PoolOptions, Pool, Reason, missing_hash, missing_sender,
  missing_recipient, invalid_signature, invalid_hash, fee_below_minimum, nonce_too_low, AddResult,
  added, already_exists, refused, wrong_nonce,
}
use Sort.{sort}

unfoldable pub new_pool : PoolOptions → Pool
new_pool o = record {
  options = o;
  transactions = [];
  transaction_metadata = [];
  account_nonces = [];
  size_bytes = pos 0;
}

-- `tx.from || tx.sender`
abbrev pub pool_sender : PoolTx → Text
pool_sender tx = or_else tx.from tx.sender

-- `this.accountNonces.get(address) || 0`
abbrev pub highest_nonce : Text → Dict ℕ → ℕ
highest_nonce a d = elim (lookup a d) [ none ↦ 0 | some n ↦ n ]

-- `a < b` and `a <= b` of two fees, and of a nonce and a number.
abbrev pub below : Option ℤ → Option ℤ → Bool
below (some a) (some b) = ltb_ℤ a b
below _ _ = false

abbrev pub at_most : Option ℤ → Option ℤ → Bool
at_most (some a) (some b) = leb_ℤ a b
at_most _ _ = false

abbrev pub nonce_below : Option ℕ → ℕ → Bool
nonce_below none n = false
nonce_below (some m) n = ltb m n

abbrev pub nonce_at_most : Option ℕ → ℕ → Bool
nonce_at_most none n = false
nonce_at_most (some m) n = leb m n

abbrev pub is_false : Option Bool → Bool
is_false none = false
is_false (some b) = not b

abbrev pub differs : Text → Option Text → Bool
differs h none = false
differs h (some g) = not (text_eq h g)

-- `none` is `{ valid: true }`.
unfoldable pub validate_transaction : PoolTx → Pool → Option Reason
validate_transaction tx p =
    if is_empty tx.hash
    then some missing_hash
    else if is_empty (pool_sender tx)
    then some missing_sender
    else if is_empty (or_else tx.to tx.recipient)
    then some missing_recipient
    else if is_false tx.verify
    then some invalid_signature
    else if differs tx.hash tx.calculated_hash
    then some invalid_hash
    else if below tx.fee (some p.options.min_fee)
    then some fee_below_minimum
    else if nonce_at_most tx.nonce (highest_nonce tx.sender p.account_nonces)
    then some nonce_too_low
    else none

unfoldable pub update_account_nonce : Text → Option ℕ → Pool → Pool × Bool
update_account_nonce a none p = (p, true)
update_account_nonce a (some nonce) p =
    let current = highest_nonce a p.account_nonces in
    if ltb current nonce
    then (record p { account_nonces = insert a nonce p.account_nonces }, true)
    else if ltb nonce current
    then (p, false)
    else (p, true)

unfoldable pub estimate_transaction_size : PoolTx → ℕ
estimate_transaction_size tx = 386

-- Lines 166 to 179 of `addTransaction`.
unfoldable pub store_transaction : ℕ → PoolTx → Pool → Pool
store_transaction now tx p =
    let q = record p {
      transactions = insert tx.hash tx p.transactions;
      transaction_metadata =
          insert tx.hash (record { added_at = now; status = TransactionStatus.pending })
            p.transaction_metadata;
    } in
    let r = (update_account_nonce (pool_sender tx) tx.nonce q).0 in
    record r { size_bytes = r.size_bytes +ℤ pos (estimate_transaction_size tx) }

unfoldable pub add_transaction : ℕ → PoolTx → Pool → Pool × AddResult
add_transaction now tx p =
    if contains tx.hash p.transactions
    then (p, already_exists tx.hash)
    else elim (validate_transaction tx p) [
      | some r ↦ (p, refused r)
      | none ↦
          let current = highest_nonce (pool_sender tx) p.account_nonces in
          if nonce_below tx.nonce current
          then (p, wrong_nonce tx.nonce current)
          else (store_transaction now tx p, added tx.hash)
    ]

unfoldable pub remove_transaction : Text → Pool → Pool × Bool
remove_transaction hash p = elim (lookup hash p.transactions) [
  | none ↦ (p, false)
  | some tx ↦ (
    record p {
      transactions = erase hash p.transactions;
      size_bytes = p.size_bytes -ℤ pos (estimate_transaction_size tx);
    },
    true,
  )
]

unfoldable pub mark_transaction_included : Text → Pool → Pool × Bool
mark_transaction_included hash p = remove_transaction hash p

-- `Array.from(this.transactions.values())`
abbrev pub values {ℓ} : {V : Type ℓ} → Dict V → List V
values [] = []
values ((k, v) ∷ d) = v ∷ values d

-- Every transaction has the same estimated size, so fees per byte are ordered as the fees. A difference
-- that is not a number counts as 0.
abbrev pub pays_no_more : PoolTx → PoolTx → Bool
pays_no_more a b = not (below b.fee a.fee)

abbrev pub pays_no_less : PoolTx → PoolTx → Bool
pays_no_less a b = not (below a.fee b.fee)

-- Lines 346 and 347 of `evictLowerFeeTransactions`.
unfoldable pub drop_transaction : PoolTx → Pool → Pool
drop_transaction tx p = record p {
  transactions = erase tx.hash p.transactions;
  size_bytes = p.size_bytes -ℤ pos (estimate_transaction_size tx);
}

-- The loop of `evictLowerFeeTransactions`. `size - evicted < maxSize` is asked as
-- `size < maxSize + evicted`.
unfoldable pub evict_loop : Option ℤ → ℕ → List PoolTx → ℕ → ℕ → Pool → Pool
evict_loop fee required [] freed evicted p = p
evict_loop fee required (tx ∷ txs) freed evicted p =
    let stop = ltb (length p.transactions) (p.options.max_size + evicted) && leb required freed in
    let lower = below tx.fee fee in
    let rest =
      evict_loop fee required txs (if lower then freed + estimate_transaction_size tx else freed)
        (if lower then suc evicted else evicted) (if lower then drop_transaction tx p else p) in
    if stop then p else rest

-- `sortedTransactions.length > 0 && newFeePerByte <= sortedTransactions[0].feePerByte`
abbrev pub pays_least : Option ℤ → List PoolTx → Bool
pays_least fee [] = false
pays_least fee (tx ∷ txs) = at_most fee tx.fee

unfoldable pub evict_lower_fee_transactions : PoolTx → ℕ → Pool → Pool × Bool
evict_lower_fee_transactions tx required p =
    let sorted = sort pays_no_more (values p.transactions) in
    if pays_least tx.fee sorted
    then (p, false)
    else (let q = evict_loop tx.fee required sorted 0 0 p in
        (
          q,
          ltb (length q.transactions) q.options.max_size
              && leb_ℤ (q.size_bytes +ℤ pos (estimate_transaction_size tx))
                  (pos q.options.max_size_bytes),
        ))

unfoldable pub get_transaction : Text → Pool → Option PoolTx
get_transaction hash p = lookup hash p.transactions

-- The loop of `selectTransactionsForBlock`, with the number and the bytes selected so far.
unfoldable pub select_loop : ℕ → ℕ → List PoolTx → ℕ → ℕ → List PoolTx
select_loop max_bytes max_transactions [] count bytes = []
select_loop max_bytes max_transactions (tx ∷ txs) count bytes =
    let skips = ltb max_bytes (bytes + estimate_transaction_size tx) in
    let rest =
      select_loop max_bytes max_transactions txs (if skips then count else suc count)
        (if skips then bytes else bytes + estimate_transaction_size tx) in
    if leb max_transactions count then [] else if skips then rest else tx ∷ rest

unfoldable pub select_transactions_for_block : ℕ → ℕ → Pool → List PoolTx
select_transactions_for_block max_bytes max_transactions p =
    select_loop max_bytes max_transactions (sort pays_no_less (values p.transactions)) 0 0

-- `now - tx.addedTime > expirationTime`, which is false where `addedTime` is undefined.
abbrev pub has_expired : ℕ → ℕ → PoolTx → Bool
has_expired now expiration tx = elim tx.added_time [
  | none ↦ false
  | some t ↦ ltb (t + expiration) now
]

unfoldable pub cleanup_loop : ℕ → Dict PoolTx → Pool → Pool
cleanup_loop now [] p = p
cleanup_loop now ((hash, tx) ∷ d) p =
    cleanup_loop now d
      (if has_expired now p.options.expiration_time tx then (remove_transaction hash p).0 else p)

unfoldable pub cleanup : ℕ → Pool → Pool
cleanup now p = cleanup_loop now p.transactions p
