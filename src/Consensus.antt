-- ===== src/Consensus.antt =====
-- `class RPoSConsensus` of src/consensus/rpos.js: who the validators are, the rounds, the votes and
-- what a finalised block changes.
pub mod Types
pub mod Members
pub mod Rounds
pub mod Events
pub mod Stakes
pub mod Turnover
pub mod Closing
pub mod Totals
pub mod Loads
pub mod Heights
pub mod Growth
pub mod Finality
pub mod Repeats
