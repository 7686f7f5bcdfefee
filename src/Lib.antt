-- ===== src/Lib.antt =====
-- bt2c: a proof-of-stake chain in JavaScript. This library models the parts that decide what the
-- chain's state is.
--
-- The parts and how they interact. The ledger (`class StateMachine`) applies blocks of transactions to
-- accounts, pays block rewards and keeps the validators, each an object of `class Validator`. The
-- transaction pool collects the transactions that wait for a block and selects those for the next
-- one. The store of unspent outputs keeps a set with an index by address in memory and in a log file. The block store appends the blocks to a file, keeps an
-- index of it, and calls the store of unspent outputs for each transaction.
-- Beside them stands the consensus: an engine that runs rounds of proposals and votes over validators,
-- the manager of validators that selects its proposers, and a second state machine of accounts and
-- validators, with the rewards of the first two weeks.
--
--   Validator, Validator/*: src/blockchain/validator.js. `jail`, `tryUnjail`, `tombstone`, `activate`,
--     `deactivate`, `updateStats`, `updateReputation` and `checkAndJailIfNeeded` are functions of the
--     same names in snake case, from a record to a record.
--   Ledger, Ledger/*: src/blockchain/state_machine.js, `applyBlock` and what it calls. Types holds the
--     data, Accounts the map of accounts; the other children hold proofs. `apply_block` runs the
--     checks, `create_state_snapshot`, `try_block` (the body of the `try`) and, where that throws,
--     `restore_state_snapshot`, in the order of the source.
--   Staking, Staking/*: src/blockchain/state_machine.js, the methods on stakes and validators.
--   Utxo, Utxo/*: src/storage/utxo_store.js. Log holds the format of an entry, byte by byte; Utxo the
--     methods; Durability and Survival are about the file, Sets, Index and Balance about the index.
--   Mempool, Mempool/*: src/mempool/transaction_pool.js.
--   Holdings, Holdings/*: src/blockchain/account.js, `class Account`.
--   Merkle, Merkle/*: src/blockchain/block.js, `calculateMerkleRoot`.
--   Sealing, Sealing/*: src/blockchain/block.js and src/blockchain/transaction.js, `isValid` of a block
--     and of a transaction.
--   Distribution, Distribution/*: src/consensus/distribution.js, `class DistributionPeriod`.
--   Registry, Registry/*: src/consensus/state_machine.js, the consensus's own `class StateMachine`, which
--     calls the distribution period. Backing and Steps hold lemmas on its coins, Runs its calls in
--     sequence.
--   Consensus, Consensus/*: src/consensus/rpos.js. Types holds the state, Members the methods on
--     validators, Rounds those on rounds and votes, Events what reaches the engine from outside, timers
--     included; the other children hold proofs.
--   Manager, Manager/*: src/blockchain/validator_manager.js, and the functions that
--     src/consensus/consensus_integration.js makes of it for the engine. Choice holds the selection; the
--     children Counting, Filing, Service and Runs hold proofs.
--   Blockstore, Blockstore/*: src/storage/blockchain_store.js, from opening to closing, `addBlock` and the
--     reading methods. Types holds the state; Sequence and Calls hold proofs.
--   Base, Base/*: lists, texts, integers and string-keyed maps over the native numbers.
--   Tests, Tests/*: concrete inputs.
--
-- Representation. A string is the list of its bytes; an absent string and the empty one, which the
-- code does not tell apart, are both the empty list. An amount of coins is a whole number of base
-- units with a sign, so sums are exact where the code rounds in floating point. A JavaScript `Map` is
-- a list of entries in insertion order. The clock is an argument. A method returns the new state and
-- its result; a thrown error is a value. An asynchronous method is taken to end before the next call
-- begins. Where a number may be missing, it is an `Option`, and comparisons with `none` are false.
--
-- Loops are structural recursion over the list that the code iterates. Three are on fuel. The reading of
-- the log, `load_entries`, has the length of the file, as each entry takes at least one byte; the
-- `while` loop of the Merkle root has the number of hashes, as each round leaves fewer of them; and the
-- methods of the consensus engine, which call each other in a circle, have one round, as no round starts
-- another within the same call.
--
-- Not modelled: checkpoints and the return to one, events, timers, logging and statistics, the copies of the state in Postgres and
-- Redis, failures of the file system, and the network, explorer, API and monitoring directories, and the
-- rest of the classes of blocks and transactions. The hash function and the checks of signatures are
-- parameters; so is the floating-point arithmetic of the selection. The consensus engine takes the
-- functions of the validator manager as arguments. The two are modelled with maps of their own; as the
-- integration lets them share the validators' objects, what the manager does to one is an event of the
-- engine, `altered`.
-- `JSON.stringify` and `JSON.parse` are a parameter of the store of unspent outputs, with
-- the law that the one undoes the other; for the block store, which compresses the text, each block
-- appended is taken to come back from its bytes.
pub mod Base
pub mod Validator
pub mod Ledger
pub mod Staking
pub mod Holdings
pub mod Merkle
pub mod Sealing
pub mod Utxo
pub mod Mempool
pub mod Distribution
pub mod Registry
pub mod Manager
pub mod Consensus
pub mod Blockstore
pub mod Tests
