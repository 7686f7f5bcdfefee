-- ===== src/Mempool/Reuse.antt =====
-- Which field `addTransaction` of src/mempool/transaction_pool.js looks nonces up under.
use bt2c.Base.{ℕ, ◌≡◌, ◌≢◌, refl, ◌∙◌, false, none, arith, [], ◌∷◌}
use bt2c.Base.Text.{Text, text_eq, text_eq_sound}
use bt2c.Base.Dict.{contains, lookup-insert_ne}
use bt2c.Mempool.{
  validate_transaction, update_account_nonce, highest_nonce, pool_sender, store_transaction,
  add_transaction, nonce_below,
}
use bt2c.Mempool.Types.{PoolTx, Pool, added}
use bt2c.Mempool.Books.{transactions-store}
use bt2c.Mempool.Admission.{admitted, added-Admitted, nonce-store}

add_again :
    (now : ℕ) (tx : PoolTx) (p : Pool)
    → contains tx.hash p.transactions ≡ false
    → validate_transaction tx p ≡ none
    → nonce_below tx.nonce (highest_nonce (pool_sender tx) p.account_nonces) ≡ false
    → (add_transaction now tx p).1 ≡ added tx.hash
unfolding add_transaction
add_again now tx p c v l = simp (c, v, l)

validate_same :
    (tx : PoolTx) (p q : Pool)
    → highest_nonce tx.sender q.account_nonces ≡ highest_nonce tx.sender p.account_nonces
    → q.options ≡ p.options
    → validate_transaction tx q ≡ validate_transaction tx p
unfolding validate_transaction
validate_same tx p q e o = simp (e, o)

nonce-store_ne :
    (now : ℕ) (tx : PoolTx) (p : Pool) (b : Text)
    → text_eq b (pool_sender tx) ≡ false
    → highest_nonce b (store_transaction now tx p).account_nonces ≡ highest_nonce b p.account_nonces
unfolding store_transaction update_account_nonce
nonce-store_ne now tx p b ne =
    grind (arith, λ (n : ℕ). lookup-insert_ne b (pool_sender tx) n p.account_nonces ne)

options-store :
    (now : ℕ) (tx : PoolTx) (p : Pool) → (store_transaction now tx p).options ≡ p.options
unfolding store_transaction update_account_nonce
options-store now tx p = ground arith

pool_sender-from : (tx : PoolTx) → tx.from ≢ [] → pool_sender tx ≡ tx.from
pool_sender-from tx f = ground (arith, f)

empty_ne : (a : Text) → a ≢ [] → text_eq [] a ≡ false
empty_ne [] f = absurd (f refl)
empty_ne (c ∷ cs) f = ground (arith, text_eq_sound [] (c ∷ cs))

second :
    (now later : ℕ) (a b : PoolTx) (p : Pool)
    → a.from ≢ []
    → b.from ≡ a.from
    → b.sender ≡ []
    → b.nonce ≡ a.nonce
    → text_eq b.hash a.hash ≡ false
    → contains b.hash p.transactions ≡ false
    → validate_transaction b p ≡ none
    → nonce_below a.nonce (highest_nonce (pool_sender a) p.account_nonces) ≡ false
    → (add_transaction later b (store_transaction now a p)).1 ≡ added b.hash
second now later a b p f fb sb n hb cb vb l =
    let q = store_transaction now a p in
    let pa = pool_sender-from a f in
    let pb : pool_sender b ≡ pool_sender a = rw pa (ground (arith, f, fb)) in
    let same = nonce-store_ne now a p b.sender (rw (sb, pa) (empty_ne a.from f)) in
    add_again later b q
      (rw (transactions-store now a p)
        (ground (arith, cb, lookup-insert_ne b.hash a.hash a p.transactions hb)))
      (validate_same b p q same (options-store now a p) ∙ vb)
      (rw (pb, nonce-store now a p l) (ground (arith, n)))

-- Of two transactions with the same `from`, no `sender` and the same nonce, each valid for the pool,
-- `addTransaction` accepts both, one after the other: the nonce is looked up under `sender` and
-- recorded under `from`.
pub from_nonce_reused :
    (now later : ℕ) (a b : PoolTx) (p : Pool)
    → a.from ≢ []
    → a.sender ≡ []
    → b.from ≡ a.from
    → b.sender ≡ []
    → b.nonce ≡ a.nonce
    → text_eq b.hash a.hash ≡ false
    → contains a.hash p.transactions ≡ false
    → contains b.hash p.transactions ≡ false
    → validate_transaction a p ≡ none
    → validate_transaction b p ≡ none
    → nonce_below a.nonce (highest_nonce a.from p.account_nonces) ≡ false
    → ((add_transaction now a p).1 ≡ added a.hash)
      × ((add_transaction later b (add_transaction now a p).0).1 ≡ added b.hash)
from_nonce_reused now later a b p f sa fb sb n hb ca cb va vb m =
    let one = add_again now a p ca va (ground (arith, f, m)) in
    elim (added-Admitted now a p a.hash one) [
      | admitted c v l q ↦ (one, rw q (second now later a b p f fb sb n hb cb vb l))
    ]
