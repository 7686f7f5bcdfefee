-- ===== src/Mempool/Books.antt =====
-- The map and the byte count of the transaction pool (src/mempool/transaction_pool.js) under each method
-- but the eviction.
use bt2c.Base.{
  ℕ, suc, ◌*◌, ◌≡◌, refl, true, false, none, some, inl, inr, arith, [], ◌∷◌, length, All,
  Option-cases, Bool-cases, if◌then◌else◌,
}
use bt2c.Base.Int.{pos, ◌+ℤ◌, ◌-ℤ◌, int_laws}
use bt2c.Base.Text.{Text, text_eq_sound}
use bt2c.Base.Dict.{
  Dict, lookup, contains, insert, erase, IsDict, insert-IsDict, erase-IsDict, length-insert_new,
}
use bt2c.Mempool.{
  validate_transaction, update_account_nonce, highest_nonce, pool_sender, store_transaction,
  add_transaction, remove_transaction, drop_transaction, cleanup_loop, has_expired,
  estimate_transaction_size, nonce_below,
}
use bt2c.Mempool.Types.{PoolTx, Pool}

-- Each entry is stored under the hash of its transaction.
abbrev pub IsKeyed : Dict PoolTx → Type 0
IsKeyed d = All (λ (e : Text × PoolTx). e.0 ≡ e.1.hash) d

-- No hash is stored twice, each transaction is stored under its hash, and `sizeBytes` counts 386
-- bytes for each.
abbrev pub IsSound : Pool → Type 0
IsSound p =
    IsDict p.transactions
    × IsKeyed p.transactions
    × (p.size_bytes ≡ pos (386 * length p.transactions))

module _ {ℓ} {V : Type ℓ} where
  length-erase : (k : Text) (d : Dict V) → contains k d ≡ true → suc (length (erase k d)) ≡ length d
  length-erase k [] h = ground (arith, h)
  length-erase k ((j, w) ∷ d) h = ground (arith, h, length-erase k d)

insert-IsKeyed : (tx : PoolTx) (d : Dict PoolTx) → IsKeyed d → IsKeyed (insert tx.hash tx d)
insert-IsKeyed tx [] h = (refl, tt)
insert-IsKeyed tx ((j, w) ∷ d) h = ground (arith, h, text_eq_sound tx.hash j, insert-IsKeyed tx d)

erase-IsKeyed : (k : Text) (d : Dict PoolTx) → IsKeyed d → IsKeyed (erase k d)
erase-IsKeyed k [] h = tt
erase-IsKeyed k ((j, w) ∷ d) h = ground (arith, h, erase-IsKeyed k d)

contains-none : (k : Text) (d : Dict PoolTx) → contains k d ≡ false → lookup k d ≡ none
contains-none k d h = ground (arith, h)

pub transactions-store :
    (now : ℕ) (tx : PoolTx) (p : Pool)
    → (store_transaction now tx p).transactions ≡ insert tx.hash tx p.transactions
unfolding store_transaction update_account_nonce
transactions-store now tx p = ground arith

size_bytes-store :
    (now : ℕ) (tx : PoolTx) (p : Pool)
    → (store_transaction now tx p).size_bytes ≡ p.size_bytes +ℤ pos 386
unfolding store_transaction update_account_nonce estimate_transaction_size
size_bytes-store now tx p = ground arith

store-IsSound :
    (now : ℕ) (tx : PoolTx) (p : Pool)
    → contains tx.hash p.transactions ≡ false
    → IsSound p
    → IsSound (store_transaction now tx p)
store-IsSound now tx p c s =
    let t = transactions-store now tx p in
    let b = size_bytes-store now tx p in
    let n = length-insert_new tx.hash tx p.transactions (contains-none tx.hash p.transactions c) in
    (
      rw t (insert-IsDict tx.hash tx p.transactions s.0),
      rw t (insert-IsKeyed tx p.transactions s.1),
      rw (t, b, s.2, n) (omega int_laws),
    )

erase_bytes :
    (k : Text) (p : Pool)
    → contains k p.transactions ≡ true
    → p.size_bytes ≡ pos (386 * length p.transactions)
    → p.size_bytes -ℤ pos 386 ≡ pos (386 * length (erase k p.transactions))
erase_bytes k p c s = let e = length-erase k p.transactions c in rw s (grind (int_laws, e))

pub drop-IsSound :
    (tx : PoolTx) (p : Pool)
    → contains tx.hash p.transactions ≡ true
    → IsSound p
    → IsSound (drop_transaction tx p)
unfolding drop_transaction estimate_transaction_size
drop-IsSound tx p c s = (
  erase-IsDict tx.hash p.transactions s.0,
  erase-IsKeyed tx.hash p.transactions s.1,
  erase_bytes tx.hash p c s.2,
)

pub remove_none :
    (k : Text) (p : Pool) → lookup k p.transactions ≡ none → remove_transaction k p ≡ (p, false)
unfolding remove_transaction
remove_none k p e = ground (arith, e)

pub remove_some :
    (k : Text) (tx : PoolTx) (p : Pool)
    → lookup k p.transactions ≡ some tx
    → (remove_transaction k p).0
      ≡ record p { transactions = erase k p.transactions; size_bytes = p.size_bytes -ℤ pos 386 }
unfolding remove_transaction estimate_transaction_size
remove_some k tx p e = ground (arith, e)

pub remove-IsSound : (k : Text) (p : Pool) → IsSound p → IsSound (remove_transaction k p).0
remove-IsSound k p s = elim (Option-cases (lookup k p.transactions)) [
  | inl e ↦ rw (remove_none k p e) s
  | inr (tx, e) ↦ rw (remove_some k tx p e) (
    erase-IsDict k p.transactions s.0,
    erase-IsKeyed k p.transactions s.1,
    erase_bytes k p (ground (arith, e)) s.2,
  )
]

pub add-IsSound :
    (now : ℕ) (tx : PoolTx) (p : Pool) → IsSound p → IsSound (add_transaction now tx p).0
unfolding add_transaction
add-IsSound now tx p s = elim (Bool-cases (contains tx.hash p.transactions)) [
  | inl e ↦ simp e s
  | inr e ↦ elim (Option-cases (validate_transaction tx p)) [
    | inr (r, v) ↦ simp (e, v) s
    | inl v ↦
        elim (Bool-cases (nonce_below tx.nonce (highest_nonce (pool_sender tx) p.account_nonces))) [
          | inl l ↦ simp (e, v, l) s
          | inr l ↦ simp (e, v, l) (store-IsSound now tx p e s)
        ]
  ]
]

pub cleanup_loop-IsSound :
    (now : ℕ) (d : Dict PoolTx) (p : Pool) → IsSound p → IsSound (cleanup_loop now d p)
unfolding cleanup_loop
cleanup_loop-IsSound now [] p s = s
cleanup_loop-IsSound now ((k, tx) ∷ d) p s =
    cleanup_loop-IsSound now d
      (if has_expired now p.options.expiration_time tx then (remove_transaction k p).0 else p)
      (elim (Bool-cases (has_expired now p.options.expiration_time tx)) [
        | inl e ↦ simp e (remove-IsSound k p s)
        | inr e ↦ simp e s
      ])
