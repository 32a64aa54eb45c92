-- ===== src/Chain/Blocks/Switch.antt =====
-- libraries/chain/database.cpp: `_push_block`, with the switch to another fork.
pub mod Pushes
pub mod Heads
pub mod Throws
mod Tests
use vidpow.Prelude.{
  ℕ, suc, Bool, true, false, ◌==◌, ltb, if◌then◌else◌, Option, none, some, List, [], ◌∷◌,
}
use vidpow.Prelude.{Result, ok, err, Error, or_throw, null_pointer}
use vidpow.Prelude.Steps.{Step, ◌>>=◌, ◌>>◌, return, throw, get, change, lift, handle}
use vidpow.Protocol.Block.{SignedBlock, BlockHash, block_num, block_id}
use vidpow.Chain.ForkDatabase
use vidpow.Chain.ForkDatabase.{ForkItem, ForkDb, previous_id}
use vidpow.Chain.Blocks.{
  Skip, Tables, ChainDb, head_block_id, head_block_num, apply_in_session, pop_to, last_of, first_of,
  reverse,
}

module _ (hash : BlockHash) (T : Tables) where
  abbrev Run : Type 0 → Type 0
  Run A = Step (ChainDb T.State) A

  -- The loop over the new fork: nothing, or the exception and the blocks from the failed one on.
  pub apply_branch : Skip → List ForkItem → Run (Option (Error × List ForkItem))
  unfolding apply_in_session
  apply_branch skip [] = return none
  apply_branch skip (x ∷ xs) =
      handle (apply_in_session hash T skip x.data_block) (λ _. apply_branch skip xs)
        (λ e. return (some (e, x ∷ xs)))

  -- The loop that applies the blocks of the good fork again.
  pub restore_branch : Skip → List ForkItem → Run (Unit {0})
  unfolding apply_in_session
  restore_branch skip [] = return tt
  restore_branch skip (x ∷ xs) = do
    apply_in_session hash T skip x.data_block
    restore_branch skip xs

  pub remove_all : List ForkItem → ForkDb → ForkDb
  remove_all [] f = f
  remove_all (x ∷ xs) f = remove_all xs (ForkDatabase.remove (block_id hash x.data_block) f)

  pub pop_to_fork : ℕ → Run (Unit {0})
  unfolding pop_to
  pop_to_fork target = do db ← get; pop_to hash T (suc db.fork_db.next_address) target

  -- What follows an exception in the loop over the new fork.
  pub back_to : Skip → List ForkItem → List ForkItem → ForkItem → ForkItem → Run (Unit {0})
  unfolding remove_all pop_to_fork restore_branch
  back_to skip seconds bad first last = do
    change (λ s. record s { fork_db = ForkDatabase.set_head first (remove_all bad s.fork_db) })
    pop_to_fork (previous_id last)
    restore_branch skip (reverse seconds)

  pub after_branch :
      Skip → List ForkItem → ForkItem → ForkItem → Option (Error × List ForkItem) → Run Bool
  unfolding back_to
  after_branch skip seconds first last none = return true
  after_branch skip seconds first last (some (e, bad)) = do
    back_to skip seconds bad first last
    throw e

  pub switch_fork : Skip → ForkItem → Run Bool
  unfolding head_block_id pop_to_fork apply_branch after_branch
  switch_fork skip new_head = do
    db ← get
    r ← lift (
        ForkDatabase.fetch_branch_from db.fork_db (block_id hash new_head.data_block)
          (head_block_id hash T db))
    last ← lift (or_throw (last_of r.seconds) null_pointer)
    first ← lift (or_throw (first_of r.seconds) null_pointer)
    pop_to_fork (previous_id last)
    stopped ← apply_branch skip (reverse r.firsts)
    after_branch skip r.seconds first last stopped

  -- The end of `_push_block`, for a block that builds off the current head.
  pub push_on_head : Skip → SignedBlock → Run Bool
  unfolding apply_in_session
  push_on_head skip b =
      handle (apply_in_session hash T skip b) (λ _. return false)
        (λ e. do
          change (λ s. record s { fork_db = ForkDatabase.remove (block_id hash b) s.fork_db })
          throw e)

  -- `_push_block`
  pub push_block : Skip → SignedBlock → Run Bool
  unfolding head_block_id head_block_num switch_fork push_on_head
  push_block skip b = if skip.skip_fork_db then push_on_head skip b else (do
    db ← get
    f ← lift (ForkDatabase.push_block hash b db.fork_db)
    change (λ s. record s { fork_db = f })
    new_head ← lift (or_throw f.head null_pointer)
    if previous_id new_head == head_block_id hash T db
        then push_on_head skip b
        else if ltb (head_block_num hash T db) (block_num hash new_head.data_block)
        then switch_fork skip new_head
        else return false)
