-- ===== src/Mempool/Eviction.antt =====
-- The eviction of src/mempool/transaction_pool.js goes through a list that was taken before it.
use bt2c.Base.{
  ℕ, suc, ◌+◌, ◌≡◌, sym, Bool, true, false, ◌&&◌, none, inl, inr, arith, List, [], ◌∷◌, length, All,
  Bool-cases, ltb, leb, if◌then◌else◌, Option,
}
use bt2c.Base.Int.{ℤ}
use bt2c.Base.Text.{Text, text_eq, text_eq_refl, text_eq_symm}
use bt2c.Base.Dict.{Dict, lookup, contains, erase, IsDict, lookup-erase_ne}
use bt2c.Mempool.{
  drop_transaction, values, pays_no_more, evict_loop, pays_least, evict_lower_fee_transactions,
  estimate_transaction_size, below,
}
use bt2c.Mempool.Types.{PoolTx, Pool}
use bt2c.Mempool.Sort.{sort, AllPairs, All-sort, AllPairs-sort}
use bt2c.Mempool.Books.{IsKeyed, IsSound, drop-IsSound}

-- Every transaction of the list is in the pool, and no two have the same hash.
abbrev pub IsListed : PoolTx → Dict PoolTx → Type 0
IsListed tx d = contains tx.hash d ≡ true

abbrev pub Differ : PoolTx → PoolTx → Type 0
Differ a b = text_eq a.hash b.hash ≡ false

IsListed-after :
    (tx : PoolTx) (d : Dict PoolTx) (txs : List PoolTx)
    → All (Differ tx) txs
    → All (λ (u : PoolTx). IsListed u d) txs
    → All (λ (u : PoolTx). IsListed u (erase tx.hash d)) txs
IsListed-after tx d [] f l = tt
IsListed-after tx d (u ∷ us) f l = (
  ground (arith, f, l, text_eq_symm tx.hash u.hash, lookup-erase_ne u.hash tx.hash d),
  IsListed-after tx d us f.1 l.1,
)

drop-IsListed :
    (tx : PoolTx) (p : Pool) (txs : List PoolTx)
    → All (Differ tx) txs
    → All (λ (u : PoolTx). IsListed u p.transactions) txs
    → All (λ (u : PoolTx). IsListed u (drop_transaction tx p).transactions) txs
unfolding drop_transaction
drop-IsListed tx p txs f l = IsListed-after tx p.transactions txs f l

if_IsSound : (b : Bool) (p q : Pool) → IsSound p → IsSound q → IsSound (if b then p else q)
if_IsSound true p q s t = s
if_IsSound false p q s t = t

evict_loop-IsSound :
    (fee : Option ℤ) (required : ℕ) (txs : List PoolTx) (freed evicted : ℕ) (p : Pool)
    → All (λ (u : PoolTx). IsListed u p.transactions) txs
    → AllPairs Differ txs
    → IsSound p
    → IsSound (evict_loop fee required txs freed evicted p)
unfolding evict_loop
evict_loop-IsSound fee required [] freed evicted p l f s = s
evict_loop-IsSound fee required (tx ∷ txs) freed evicted p l f s =
    if_IsSound (ltb (length p.transactions) (p.options.max_size + evicted) && leb required freed) p
      _ s
      (elim (Bool-cases (below tx.fee fee)) [
        | inl e ↦ simp e (
            evict_loop-IsSound fee required txs (freed + estimate_transaction_size tx) (suc evicted)
              (drop_transaction tx p) (drop-IsListed tx p txs f.0 l.1) f.1
              (drop-IsSound tx p l.0 s))
        | inr e ↦ simp e (evict_loop-IsSound fee required txs freed evicted p l.1 f.1 s)
      ])

IsListed-values :
    (d e : Dict PoolTx)
    → IsKeyed d
    → ((k : Text) → contains k d ≡ true → contains k e ≡ true)
    → All (λ (u : PoolTx). IsListed u e) (values d)
IsListed-values [] e k h = tt
IsListed-values ((j, tx) ∷ d) e k h = (
  h tx.hash (ground (arith, k, text_eq_refl tx.hash)),
  IsListed-values d e k.1 (λ i. λ c. h i (ground (arith, c))),
)

Differ-values_one :
    (h : Text) (tx : PoolTx) (d : Dict PoolTx)
    → tx.hash ≡ h
    → IsKeyed d
    → lookup h d ≡ none
    → All (Differ tx) (values d)
Differ-values_one h tx [] e k n = tt
Differ-values_one h tx ((j, u) ∷ d) e k n =
    (ground (arith, e, k, n), Differ-values_one h tx d e k.1 (ground (arith, n)))

Differ-values : (d : Dict PoolTx) → IsDict d → IsKeyed d → AllPairs Differ (values d)
Differ-values [] i k = tt
Differ-values ((j, tx) ∷ d) i k =
    (Differ-values_one j tx d (sym k.0) k.1 i.0, Differ-values d i.1 k.1)

symm_Differ : (a b : PoolTx) → Differ a b → Differ b a
symm_Differ a b h = ground (arith, h, text_eq_symm a.hash b.hash)

pub evict-IsSound :
    (tx : PoolTx) (required : ℕ) (p : Pool)
    → IsSound p
    → IsSound (evict_lower_fee_transactions tx required p).0
unfolding evict_lower_fee_transactions
evict-IsSound tx required p s =
    let vs = values p.transactions in
    let go =
      evict_loop-IsSound tx.fee required (sort pays_no_more vs) 0 0 p
        (All-sort pays_no_more (λ (u : PoolTx). IsListed u p.transactions) vs
          (IsListed-values p.transactions p.transactions s.1 (λ k. λ h. h)))
        (AllPairs-sort pays_no_more Differ symm_Differ vs (Differ-values p.transactions s.0 s.1))
        s in
    elim (Bool-cases (pays_least tx.fee (sort pays_no_more vs))) [
      | inl e ↦ simp e s
      | inr e ↦ simp e go
    ]
