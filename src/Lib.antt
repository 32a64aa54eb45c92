-- ===== src/Lib.antt =====
-- The core of the chain: which chain of blocks is followed, who may act, and where the tokens are.
--
-- Protocol models libraries/protocol. A block id carries the number of its block (Protocol.Block:
-- block.cpp). An authority is a threshold with weighted keys and accounts (Protocol.Authority:
-- authority.cpp, and its twin libraries/chain/shared_authority.cpp). A `sign_state` checks it against
-- the signatures of a transaction, through the authorities of other accounts (Protocol.SignState:
-- sign_state.cpp), and `verify_authority` checks all that a transaction requires
-- (Protocol.VerifyAuthority: transaction.cpp). Amounts and prices are Protocol.Asset: asset.cpp.
--
-- Chain models libraries/chain. The fork database is the tree of recent blocks (Chain.ForkDatabase:
-- fork_database.cpp): the branches that a switch of forks undoes and applies, and the walk along the
-- main branch. Chain.Ledger is the state that blocks change, as database.cpp keeps it: State has the
-- tables, Supply the balances, the supply and the vesting fund, Votes the way of vesting shares to the
-- witnesses, and Invariants the sums of `validate_invariants`. Chain.Evaluators has the operations of
-- wls_evaluator.cpp that move tokens; its parts Witnesses and Withdrawals have the votes for witnesses,
-- the proxies, and the withdrawals with their routes. Chain.Funds has the tokens that a block issues,
-- Chain.PowerDown the weekly withdrawals, which go along the index of the accounts by date. Chain.Slots has the slots for blocks and the
-- inflation rate of database.cpp.
--
-- Chain.Blocks pushes and pops blocks, as `_push_block` and `pop_block` of database.cpp do, over the
-- fork database, the sessions of chainbase and the block log (Chain.BlockLog: block_log.cpp). A run of
-- it is a `Step` of Prelude.Steps: what it changed before it threw stays changed. It takes the tables
-- as an interface, `Tables`, with a block's application in two parts, before and after irreversible
-- blocks are committed, and asks nothing of these
-- parts. Chain.Application has the parts of that application which keep the chain's own records: the
-- header, the missed slots, the last irreversible block (Finality), the hardforks (Hardforks),
-- and transactions with their table against duplicates (Transactions). Chain.Rewards is the reward of a comment
-- (util/reward.cpp), Chain.Cashout its payout to the curators, the beneficiaries and the author, and the
-- loops of database.cpp over the comments that are due (Cashout.Rounds), Chain.Schedule the shuffle of the witnesses (witness_schedule.cpp).
--
-- A function of the source has a function of its name, which returns a `Result`: a failed `FC_ASSERT`
-- or a named exception is an `Error`. A handler that throws leaves no state, since the caller undoes
-- what was changed. `share_type` is `fc::safe<int64_t>`: its sums go through a parameter `safe`, and the
-- theorems ask that what it returns is exact. Words of 64 and 128 bits wrap around as written. Hashes,
-- byte swaps and `to_uint64` of the fc library are parameters as well.
--
-- Bounds: `check_authority` has as many rounds as the recursion limit leaves; a walk along proxies has
-- WLS_MAX_PROXY_RECURSION_DEPTH levels, which is 4. The search for a cycle of proxies has no bound: after
-- one round the code reads an object that is gone, which is an error of the model. The
-- loops over the fork database have one round for each address given out, since a `prev` leads to an
-- older item, and `set_max_size` has one for each item. The loop that pops blocks has one round more
-- than there are addresses, and that over hardforks one more than there are hardforks. The loop over
-- the withdrawals has a round for each account and each second up to the head block's, and one more:
-- each round is at a later date, or at a later row of one date. The loop over the
-- comments that are due has one round more than there are comments, since a paid comment is due no more.
--
-- Not modelled: the merkle root and the order of the parts of `_apply_block`; the
-- clearing of the null account; the selection of witnesses and the virtual time; the text forms of assets; the files of the
-- block log, the network, the wallet, the plugins and the API, which are input and output or
-- read-only; and libraries/chainbase, another project's library, whose tables are lists here and whose
-- sessions hold the tables as they were.
pub mod Prelude
pub mod Protocol
pub mod Chain
