-- ===== src/Mempool/Admission.antt =====
-- What `addTransaction` of src/mempool/transaction_pool.js lets in.
use bt2c.Base.{
  ℕ, ◌≤◌, ◌≡◌, ◌≢◌, false, none, some, inl, inr, arith, [], Option-cases, Bool-cases, Option,
}
use bt2c.Base.Text.{Text, text_eq, text_eq_sound}
use bt2c.Base.Dict.{lookup, contains, lookup-insert, lookup-insert_self, lookup-insert_ne}
use bt2c.Mempool.{
  validate_transaction, update_account_nonce, highest_nonce, pool_sender, store_transaction,
  add_transaction, below, nonce_below, nonce_at_most,
}
use bt2c.Mempool.Types.{PoolTx, Pool, added}
use bt2c.Mempool.Books.{transactions-store}

pub data Admitted (now : ℕ) (tx : PoolTx) (p : Pool) : Type 0 where
  admitted :
      contains tx.hash p.transactions ≡ false
      → validate_transaction tx p ≡ none
      → nonce_below tx.nonce (highest_nonce (pool_sender tx) p.account_nonces) ≡ false
      → (add_transaction now tx p).0 ≡ store_transaction now tx p
      → Admitted now tx p

pub added-Admitted :
    (now : ℕ) (tx : PoolTx) (p : Pool) (h : Text)
    → (add_transaction now tx p).1 ≡ added h
    → Admitted now tx p
unfolding add_transaction
added-Admitted now tx p h e = elim (Bool-cases (contains tx.hash p.transactions)) [
  | inl c ↦ absurd (ground (arith, c, e))
  | inr c ↦ elim (Option-cases (validate_transaction tx p)) [
    | inr (r, v) ↦ absurd (ground (arith, c, v, e))
    | inl v ↦
        elim (Bool-cases (nonce_below tx.nonce (highest_nonce (pool_sender tx) p.account_nonces))) [
          | inl l ↦ absurd (ground (arith, c, v, l, e))
          | inr l ↦ admitted c v l (simp (c, v, l))
        ]
  ]
]

validated :
    (tx : PoolTx) (p : Pool)
    → validate_transaction tx p ≡ none
    → (below tx.fee (some p.options.min_fee) ≡ false)
      × (nonce_at_most tx.nonce (highest_nonce tx.sender p.account_nonces) ≡ false)
      × (tx.hash ≢ [])
unfolding validate_transaction
validated tx p v = ground (arith, v)

-- The nonce that stands afterwards: the transaction's, if it has one.
abbrev pub recorded : Option ℕ → ℕ → ℕ
recorded none highest = highest
recorded (some n) highest = n

highest-update :
    (a : Text) (n : Option ℕ) (p : Pool)
    → nonce_below n (highest_nonce a p.account_nonces) ≡ false
    → highest_nonce a (update_account_nonce a n p).0.account_nonces
      ≡ recorded n (highest_nonce a p.account_nonces)
unfolding update_account_nonce
highest-update a none p h = ground arith
highest-update a (some n) p h = ground (arith, h, lookup-insert_self a n p.account_nonces)

highest-update_grows :
    (a b : Text) (n : Option ℕ) (p : Pool)
    → highest_nonce b p.account_nonces
      ≤ highest_nonce b (update_account_nonce a n p).0.account_nonces
unfolding update_account_nonce
highest-update_grows a b none p = omega arith
highest-update_grows a b (some n) p =
    ground (arith, lookup-insert b a n p.account_nonces, text_eq_sound b a)

pub nonces-store :
    (now : ℕ) (tx : PoolTx) (p : Pool) (b : Text)
    → highest_nonce b p.account_nonces ≤ highest_nonce b (store_transaction now tx p).account_nonces
unfolding store_transaction
nonces-store now tx p b = highest-update_grows (pool_sender tx) b tx.nonce _

pub nonce-store :
    (now : ℕ) (tx : PoolTx) (p : Pool)
    → nonce_below tx.nonce (highest_nonce (pool_sender tx) p.account_nonces) ≡ false
    → highest_nonce (pool_sender tx) (store_transaction now tx p).account_nonces
      ≡ recorded tx.nonce (highest_nonce (pool_sender tx) p.account_nonces)
unfolding store_transaction
nonce-store now tx p h = highest-update (pool_sender tx) tx.nonce _ h

-- A transaction that `addTransaction` accepts was not in the pool, does not pay less than the minimum fee,
-- and its nonce is not at or below the highest one recorded for its field `sender`; a missing fee or nonce,
-- or one that is no number, passes these tests. Afterwards it is stored under its hash, every other hash
-- has the transaction it had, and the highest nonce recorded for its sender (`from`, or else `sender`) is
-- its nonce, or is as before if it has none.
pub add_accepted :
    (now : ℕ) (tx : PoolTx) (p : Pool) (h j : Text)
    → (add_transaction now tx p).1 ≡ added h
    → text_eq j tx.hash ≡ false
    → (contains tx.hash p.transactions ≡ false)
      × (below tx.fee (some p.options.min_fee) ≡ false)
      × (nonce_at_most tx.nonce (highest_nonce tx.sender p.account_nonces) ≡ false)
      × (lookup tx.hash (add_transaction now tx p).0.transactions ≡ some tx)
      × (lookup j (add_transaction now tx p).0.transactions ≡ lookup j p.transactions)
      × (highest_nonce (pool_sender tx) (add_transaction now tx p).0.account_nonces
          ≡ recorded tx.nonce (highest_nonce (pool_sender tx) p.account_nonces))
add_accepted now tx p h j e ne = elim (added-Admitted now tx p h e) [
  | admitted c v l q ↦
      let t = transactions-store now tx p in
      let w = validated tx p v in
      (
        c,
        w.0,
        w.1,
        rw (q, t) (lookup-insert_self tx.hash tx p.transactions),
        rw (q, t) (lookup-insert_ne j tx.hash tx p.transactions ne),
        rw q (nonce-store now tx p l),
      )
]
