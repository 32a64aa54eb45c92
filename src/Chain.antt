-- ===== src/Chain.antt =====
-- libraries/chain: the fork database, the block log, the chain of blocks, the tables with their operations, the evaluators and the slots.
pub mod ForkDatabase
pub mod BlockLog
pub mod Blocks
pub mod Ledger
pub mod Evaluators
pub mod Slots
pub mod Funds
pub mod PowerDown
pub mod Application
pub mod Rewards
pub mod Cashout
pub mod Schedule
