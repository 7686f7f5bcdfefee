-- ===== src/Tests/OnMempool.antt =====
-- The theorems on the transaction pool (src/mempool/transaction_pool.js) at concrete calls.
use bt2c.Base.{◌≤◌, ◌≡◌, refl, Bool, true, false, none, some, List, [], ◌∷◌}
use bt2c.Base.Int.{pos}
use bt2c.Base.Text.{text_eq}
use bt2c.Base.Dict.{lookup, contains}
use bt2c.Mempool.{
  below, nonce_at_most, new_pool, validate_transaction, update_account_nonce, store_transaction,
  highest_nonce, pool_sender, add_transaction, evict_lower_fee_transactions,
}
use bt2c.Mempool.Types.{PoolTx, PoolOptions, Pool, added}
use bt2c.Mempool.Books.{IsSound}
use bt2c.Mempool.Soundness.{
  PoolCall, add_call, remove_call, evict_call, cleanup_call, call_all, call, pool-IsSound,
}
use bt2c.Mempool.Admission.{add_accepted}
use bt2c.Mempool.Sparing.{eviction_spares}
use bt2c.Mempool.Monotone.{pool_nonces_grow}
use bt2c.Tests.{alice, bob}

abbrev limits : PoolOptions
limits = record { max_size = 2; max_size_bytes = 1000; expiration_time = 60; min_fee = pos 1 }

abbrev one : PoolTx
one = record {
  hash = 49 ∷ [];
  from = alice;
  sender = [];
  to = bob;
  recipient = [];
  fee = some (pos 3);
  nonce = some 1;
  verify = some true;
  calculated_hash = none;
  added_time = none;
}

-- The same sender and nonce, and a higher fee.
abbrev two : PoolTx
two = record one { hash = 50 ∷ []; fee = some (pos 5) }

abbrev empty_pool : Pool
empty_pool = new_pool limits

abbrev mixed_calls : List PoolCall
mixed_calls =
    add_call 5 one
    ∷ add_call 6 two
    ∷ evict_call two 386
    ∷ remove_call (50 ∷ [])
    ∷ cleanup_call 90
    ∷ []

abbrev filled : Pool
filled = call_all (add_call 5 one ∷ add_call 6 two ∷ []) empty_pool

abbrev fees_above : PoolTx → Bool
fees_above tx = below (some (pos 3)) tx.fee

pool-IsSound_example : IsSound (call_all mixed_calls (new_pool limits))
pool-IsSound_example = pool-IsSound limits mixed_calls

accepts_one : (add_transaction 5 one empty_pool).1 ≡ added one.hash
unfolding add_transaction validate_transaction store_transaction update_account_nonce new_pool
    text_eq
accepts_one = refl

others : text_eq two.hash one.hash ≡ false
unfolding text_eq
others = refl

abbrev holding_one : Pool
holding_one = (add_transaction 5 one empty_pool).0

add_accepted_example :
    (contains one.hash empty_pool.transactions ≡ false)
    × (below (some (pos 3)) (some empty_pool.options.min_fee) ≡ false)
    × (nonce_at_most (some 1) (highest_nonce one.sender empty_pool.account_nonces) ≡ false)
    × (lookup one.hash holding_one.transactions ≡ some one)
    × (lookup two.hash holding_one.transactions ≡ lookup two.hash empty_pool.transactions)
    × (highest_nonce (pool_sender one) holding_one.account_nonces ≡ 1)
add_accepted_example = add_accepted 5 one empty_pool one.hash two.hash accepts_one others

filled-IsSound : IsSound filled
filled-IsSound = pool-IsSound limits (add_call 5 one ∷ add_call 6 two ∷ [])

pool_nonces_grow_example :
    highest_nonce alice filled.account_nonces
    ≤ highest_nonce alice
        (call_all (remove_call (49 ∷ []) ∷ cleanup_call 90 ∷ []) filled).account_nonces
pool_nonces_grow_example =
    pool_nonces_grow (remove_call (49 ∷ []) ∷ cleanup_call 90 ∷ []) filled alice

-- A third transaction that pays more than the first and less than the second.
abbrev three : PoolTx
three = record one { hash = 51 ∷ []; fee = some (pos 4) }

listed_two : lookup two.hash filled.transactions ≡ some two
unfolding call_all call add_transaction validate_transaction store_transaction update_account_nonce
    new_pool text_eq
listed_two = refl

eviction_spares_example :
    lookup two.hash (evict_lower_fee_transactions three 386 filled).0.transactions ≡ some two
eviction_spares_example =
    eviction_spares three two 386 filled two.hash filled-IsSound listed_two refl
