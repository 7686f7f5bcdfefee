-- ===== src/Mempool/Select.antt =====
-- What `selectTransactionsForBlock` of src/mempool/transaction_pool.js picks.
use bt2c.Base.{ℕ, ◌/◌, ◌≡◌, Bool, false, none, some, true, All, leb, if◌then◌else◌, All, true}
use bt2c.Mempool.{pays_no_less}
use bt2c.Mempool.Types.{PoolTx}

-- The number of transactions that a block of `max_bytes` bytes and `max_transactions` entries holds.
abbrev pub capacity : ℕ → ℕ → ℕ
capacity max_bytes max_transactions =
    if leb max_transactions (max_bytes / 386) then max_transactions else max_bytes / 386

-- The fee is a number.
abbrev pub has_fee : PoolTx → Bool
has_fee tx = elim tx.fee [ none ↦ false | some f ↦ true ]

abbrev pub PaysNoLess : PoolTx → PoolTx → Type 0
PaysNoLess a b = pays_no_less a b ≡ true
