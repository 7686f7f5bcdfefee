-- ===== src/Mempool/Monotone.antt =====
-- The nonces that the transaction pool (src/mempool/transaction_pool.js) has recorded.
use bt2c.Base.{
  ℕ, suc, ◌+◌, ◌≤◌, ◌≡◌, refl, ◌∙◌, inl, inr, arith, List, [], ◌∷◌, Option-cases, Bool-cases,
  if◌then◌else◌, Option,
}
use bt2c.Base.Int.{ℤ}
use bt2c.Base.Text.{Text}
use bt2c.Base.Dict.{Dict, contains}
use bt2c.Mempool.{
  validate_transaction, highest_nonce, pool_sender, add_transaction, remove_transaction,
  cleanup_loop, cleanup, evict_loop, drop_transaction, pays_no_more, values,
  evict_lower_fee_transactions, estimate_transaction_size, nonce_below, below,
}
use bt2c.Mempool.Types.{PoolTx, Pool}
use bt2c.Mempool.Sort.{sort}
use bt2c.Mempool.Soundness.{
  PoolCall, add_call, remove_call, evict_call, cleanup_call, call, call_all,
}
use bt2c.Mempool.Admission.{nonces-store}

nonces-add :
    (now : ℕ) (tx : PoolTx) (p : Pool) (b : Text)
    → highest_nonce b p.account_nonces ≤ highest_nonce b (add_transaction now tx p).0.account_nonces
unfolding add_transaction
nonces-add now tx p b = elim (Bool-cases (contains tx.hash p.transactions)) [
  | inl c ↦ simp c (omega arith)
  | inr c ↦ elim (Option-cases (validate_transaction tx p)) [
    | inr (r, v) ↦ simp (c, v) (omega arith)
    | inl v ↦
        elim (Bool-cases (nonce_below tx.nonce (highest_nonce (pool_sender tx) p.account_nonces))) [
          | inl l ↦ simp (c, v, l) (omega arith)
          | inr l ↦ simp (c, v, l) (nonces-store now tx p b)
        ]
  ]
]

nonces-remove : (k : Text) (p : Pool) → (remove_transaction k p).0.account_nonces ≡ p.account_nonces
unfolding remove_transaction
nonces-remove k p = ground arith

nonces-cleanup_loop :
    (now : ℕ) (d : Dict PoolTx) (p : Pool)
    → (cleanup_loop now d p).account_nonces ≡ p.account_nonces
unfolding cleanup_loop
nonces-cleanup_loop now [] p = refl
nonces-cleanup_loop now ((k, tx) ∷ d) p =
    nonces-cleanup_loop now d _ ∙ ground (arith, nonces-remove k p)

nonces-drop : (tx : PoolTx) (p : Pool) → (drop_transaction tx p).account_nonces ≡ p.account_nonces
unfolding drop_transaction
nonces-drop tx p = refl

nonces-evict_loop :
    (fee : Option ℤ) (required : ℕ) (txs : List PoolTx) (freed evicted : ℕ) (p : Pool)
    → (evict_loop fee required txs freed evicted p).account_nonces ≡ p.account_nonces
unfolding evict_loop
nonces-evict_loop fee required [] freed evicted p = refl
nonces-evict_loop fee required (tx ∷ txs) freed evicted p =
    let lower = below tx.fee fee in
    let ih =
      nonces-evict_loop fee required txs
        (if lower then freed + estimate_transaction_size tx else freed)
        (if lower then suc evicted else evicted) (if lower then drop_transaction tx p else p) in
    ground (arith, ih, nonces-drop tx p)

nonces-evict :
    (tx : PoolTx) (n : ℕ) (p : Pool)
    → (evict_lower_fee_transactions tx n p).0.account_nonces ≡ p.account_nonces
unfolding evict_lower_fee_transactions
nonces-evict tx n p =
    let sorted = sort pays_no_more (values p.transactions) in
    ground (arith, nonces-evict_loop tx.fee n sorted 0 0 p)

call_grows :
    (c : PoolCall) (p : Pool) (b : Text)
    → highest_nonce b p.account_nonces ≤ highest_nonce b (call c p).account_nonces
unfolding call cleanup
call_grows (add_call now tx) p b = nonces-add now tx p b
call_grows (remove_call h) p b = rw (nonces-remove h p) (omega arith)
call_grows (evict_call tx n) p b = rw (nonces-evict tx n p) (omega arith)
call_grows (cleanup_call now) p b = rw (nonces-cleanup_loop now p.transactions p) (omega arith)

-- The highest nonce that the pool has recorded for an address never goes down, whatever is added,
-- removed, evicted or cleaned up.
pub pool_nonces_grow :
    (cs : List PoolCall) (p : Pool) (b : Text)
    → highest_nonce b p.account_nonces ≤ highest_nonce b (call_all cs p).account_nonces
unfolding call_all
pool_nonces_grow [] p b = omega arith
pool_nonces_grow (c ∷ cs) p b = omega (arith, call_grows c p b, pool_nonces_grow cs (call c p) b)
