-- ===== src/Mempool/Sparing.antt =====
-- What the eviction of src/mempool/transaction_pool.js leaves in the pool.
use bt2c.Base.{
  ℕ, suc, ◌+◌, ◌≡◌, ◌∙◌, Bool, true, false, ◌&&◌, ◌⊎◌, none, some, inl, inr, arith, List, [], ◌∷◌,
  length, All, Bool-cases, ltb, leb, if◌then◌else◌, Option,
}
use bt2c.Base.Int.{ℤ}
use bt2c.Base.Text.{Text, text_eq, text_eq_sound}
use bt2c.Base.Dict.{Dict, lookup, IsDict, lookup-erase_ne}
use bt2c.Mempool.{
  drop_transaction, values, pays_no_more, evict_loop, pays_least, evict_lower_fee_transactions,
  estimate_transaction_size, below,
}
use bt2c.Mempool.Types.{PoolTx, Pool}
use bt2c.Mempool.Sort.{sort, All-sort}
use bt2c.Mempool.Books.{IsKeyed, IsSound}

-- A transaction that is not stored under `h`, or is not cheaper than `fee`.
abbrev Spares : Text → Option ℤ → PoolTx → Type 0
Spares h fee tx = (text_eq h tx.hash ≡ false) ⊎ (below tx.fee fee ≡ false)

drop_spares :
    (tx u : PoolTx) (p : Pool) (h : Text)
    → text_eq h tx.hash ≡ false
    → lookup h p.transactions ≡ some u
    → lookup h (drop_transaction tx p).transactions ≡ some u
unfolding drop_transaction
drop_spares tx u p h n e = lookup-erase_ne h tx.hash p.transactions n ∙ e

if_some :
    (b : Bool) (h : Text) (u : PoolTx) (p q : Pool)
    → lookup h p.transactions ≡ some u
    → lookup h q.transactions ≡ some u
    → lookup h (if b then p else q).transactions ≡ some u
if_some true h u p q s t = s
if_some false h u p q s t = t

evict_loop-Spares :
    (fee : Option ℤ) (required : ℕ) (txs : List PoolTx) (freed evicted : ℕ) (p : Pool) (h : Text)
    (u : PoolTx)
    → All (Spares h fee) txs
    → lookup h p.transactions ≡ some u
    → lookup h (evict_loop fee required txs freed evicted p).transactions ≡ some u
unfolding evict_loop
evict_loop-Spares fee required [] freed evicted p h u a e = e
evict_loop-Spares fee required (tx ∷ txs) freed evicted p h u a e =
    if_some (ltb (length p.transactions) (p.options.max_size + evicted) && leb required freed) h u p
      _ e
      (elim (Bool-cases (below tx.fee fee)) [
        | inl l ↦ simp l (
            evict_loop-Spares fee required txs (freed + estimate_transaction_size tx) (suc evicted)
              (drop_transaction tx p) h u a.1
              (elim a.0 [
                | inl n ↦ drop_spares tx u p h n e
                | inr n ↦ absurd (ground (arith, l, n))
              ]))
        | inr l ↦ simp l (evict_loop-Spares fee required txs freed evicted p h u a.1 e)
      ])

absent-Spares :
    (h : Text) (fee : Option ℤ) (d : Dict PoolTx)
    → IsKeyed d
    → lookup h d ≡ none
    → All (Spares h fee) (values d)
absent-Spares h fee [] k n = tt
absent-Spares h fee ((j, tx) ∷ d) k n =
    (inl (ground (arith, k, n)), absent-Spares h fee d k.1 (ground (arith, n)))

listed-Spares :
    (h : Text) (u : PoolTx) (fee : Option ℤ) (d : Dict PoolTx)
    → IsDict d
    → IsKeyed d
    → lookup h d ≡ some u
    → below u.fee fee ≡ false
    → All (Spares h fee) (values d)
listed-Spares h u fee [] i k e l = tt
listed-Spares h u fee ((j, tx) ∷ d) i k e l = elim (Bool-cases (text_eq h j)) [
  | inl y ↦ (
    inr (ground (arith, y, e, l)),
    absent-Spares h fee d k.1 (ground (arith, i, y, text_eq_sound h j)),
  )
  | inr n ↦ (inl (ground (arith, k, n)), listed-Spares h u fee d i.1 k.1 (ground (arith, n, e)) l)
]

-- The eviction for a new transaction removes none that pays at least the same fee: in a sound pool
-- such a transaction is afterwards still stored under its hash.
pub eviction_spares :
    (tx u : PoolTx) (required : ℕ) (p : Pool) (h : Text)
    → IsSound p
    → lookup h p.transactions ≡ some u
    → below u.fee tx.fee ≡ false
    → lookup h (evict_lower_fee_transactions tx required p).0.transactions ≡ some u
unfolding evict_lower_fee_transactions
eviction_spares tx u required p h s e l =
    let vs = values p.transactions in
    let go =
      evict_loop-Spares tx.fee required (sort pays_no_more vs) 0 0 p h u
        (All-sort pays_no_more (Spares h tx.fee) vs
          (listed-Spares h u tx.fee p.transactions s.0 s.1 e l))
        e in
    elim (Bool-cases (pays_least tx.fee (sort pays_no_more vs))) [
      | inl c ↦ simp c e
      | inr c ↦ simp c go
    ]
