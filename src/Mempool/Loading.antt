-- ===== src/Mempool/Loading.antt =====
-- The queries of `class TransactionPool` in src/mempool/transaction_pool.js, and `loadFromRedis`.
use bt2c.Base.{
  ℕ, Bool, true, false, ◌||◌, not, Option, none, some, List, [], ◌∷◌, length, ◌==◌, if◌then◌else◌,
}
use bt2c.Base.Int.{pos, ◌+ℤ◌}
use bt2c.Base.Text.{Text, text_eq}
use bt2c.Base.Dict.{Dict, insert}
use bt2c.Mempool.{validate_transaction, values, estimate_transaction_size}
use bt2c.Mempool.Types.{PoolTx, Pool}

unfoldable pub get_transaction_count : Pool → ℕ
get_transaction_count p = length p.transactions

-- The transactions that pass a test, in order.
abbrev pub filter : (PoolTx → Bool) → List PoolTx → List PoolTx
filter test [] = []
filter test (tx ∷ txs) = if test tx then tx ∷ filter test txs else filter test txs

unfoldable pub get_transactions_by_sender : Text → Pool → List PoolTx
get_transactions_by_sender address p =
    filter (λ tx. text_eq tx.from address) (values p.transactions)

unfoldable pub get_account_transactions : Text → Pool → List PoolTx
get_account_transactions address p =
    filter (λ tx. text_eq tx.sender address || text_eq tx.recipient address) (values p.transactions)

-- `tx.addedTime || Date.now()`
abbrev pub added_or : ℕ → Option ℕ → ℕ
added_or now none = now
added_or now (some t) = if t == 0 then now else t

-- Lines 608 to 625 of `loadFromRedis`.
unfoldable pub load_loop : ℕ → List PoolTx → Pool → Pool
load_loop now [] p = p
load_loop now (tx ∷ txs) p = load_loop now txs (elim (validate_transaction tx p) [
  | some r ↦ p
  | none ↦ record p {
    transactions =
        insert tx.hash (record tx { added_time = some (added_or now tx.added_time) })
          p.transactions;
    size_bytes = p.size_bytes +ℤ pos (estimate_transaction_size tx);
  }
])

-- The loop that fills the cleared map of nonces.
abbrev pub set_all : List (Text × ℕ) → Dict ℕ → Dict ℕ
set_all [] d = d
set_all ((address, nonce) ∷ es) d = set_all es (insert address nonce d)

-- `stored` and `nonces` are what the Redis client, which is not part of this model, returns;
-- `enabled` is `persistenceEnabled && redisClient`.
unfoldable pub load_from_redis :
    ℕ → Bool → List PoolTx → Option (List (Text × ℕ)) → Pool → Pool × Bool
load_from_redis now enabled stored nonces p =
    if not enabled
    then (p, false)
    else (let q = load_loop now stored (record p { transactions = []; size_bytes = pos 0 }) in
        elim nonces [
          | none ↦ (q, true)
          | some es ↦ (record q { account_nonces = set_all es [] }, true)
        ])
