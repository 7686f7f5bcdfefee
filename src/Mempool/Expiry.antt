-- ===== src/Mempool/Expiry.antt =====
-- What `cleanup` of src/mempool/transaction_pool.js leaves.
use bt2c.Base.{ℕ, Option, none, some, if◌then◌else◌}
use bt2c.Base.Text.{Text}
use bt2c.Base.Dict.{Dict}
use bt2c.Mempool.{remove_transaction, has_expired}
use bt2c.Mempool.Types.{PoolTx, Pool}

-- What is left under a hash whose entry is `o`, given the entry `t` that `cleanup` meets.
abbrev pub unless_expired : ℕ → ℕ → Option PoolTx → Option PoolTx → Option PoolTx
unless_expired now expiration none o = o
unless_expired now expiration (some tx) o = if has_expired now expiration tx then none else o

-- One round of the loop of `cleanup`.
abbrev cleaned : ℕ → Text → PoolTx → Pool → Pool
cleaned now k tx p =
    if has_expired now p.options.expiration_time tx then (remove_transaction k p).0 else p
