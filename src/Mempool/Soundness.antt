-- ===== src/Mempool/Soundness.antt =====
-- The books of the transaction pool (src/mempool/transaction_pool.js) under any calls.
use bt2c.Base.{ℕ, refl, List, [], ◌∷◌}
use bt2c.Base.Text.{Text}
use bt2c.Mempool.{
  new_pool, add_transaction, remove_transaction, evict_lower_fee_transactions, cleanup,
}
use bt2c.Mempool.Types.{PoolTx, PoolOptions, Pool}
use bt2c.Mempool.Books.{IsSound, add-IsSound, remove-IsSound, cleanup_loop-IsSound}
use bt2c.Mempool.Eviction.{evict-IsSound}

pub data PoolCall : Type 0 where
  add_call : ℕ → PoolTx → PoolCall
  remove_call : Text → PoolCall
  evict_call : PoolTx → ℕ → PoolCall
  cleanup_call : ℕ → PoolCall

unfoldable pub call : PoolCall → Pool → Pool
unfolding add_transaction remove_transaction evict_lower_fee_transactions cleanup
call (add_call now tx) p = (add_transaction now tx p).0
call (remove_call h) p = (remove_transaction h p).0
call (evict_call tx n) p = (evict_lower_fee_transactions tx n p).0
call (cleanup_call now) p = cleanup now p

unfoldable pub call_all : List PoolCall → Pool → Pool
unfolding call
call_all [] p = p
call_all (c ∷ cs) p = call_all cs (call c p)

call-IsSound : (c : PoolCall) (p : Pool) → IsSound p → IsSound (call c p)
unfolding call cleanup
call-IsSound (add_call now tx) p s = add-IsSound now tx p s
call-IsSound (remove_call h) p s = remove-IsSound h p s
call-IsSound (evict_call tx n) p s = evict-IsSound tx n p s
call-IsSound (cleanup_call now) p s = cleanup_loop-IsSound now p.transactions p s

run-IsSound : (cs : List PoolCall) (p : Pool) → IsSound p → IsSound (call_all cs p)
unfolding call_all
run-IsSound [] p s = s
run-IsSound (c ∷ cs) p s = run-IsSound cs (call c p) (call-IsSound c p s)

new-IsSound : (o : PoolOptions) → IsSound (new_pool o)
unfolding new_pool
new-IsSound o = (tt, tt, refl)

-- However transactions are added to a new pool, removed from it, evicted and cleaned up: no hash is
-- in the pool twice, each transaction stands under its own hash, and `sizeBytes` is 386 times the
-- number of transactions.
pub pool-IsSound : (o : PoolOptions) (cs : List PoolCall) → IsSound (call_all cs (new_pool o))
pool-IsSound o cs = run-IsSound cs (new_pool o) (new-IsSound o)
