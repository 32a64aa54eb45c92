-- ===== src/Chain/Blocks/Switch/Pushes.antt =====
-- The chain's state after a block was pushed, with or without a switch of forks.
use vidpow.Prelude.{ℕ, suc, false, ◌==◌, ltb, Option, none, some, List, [], ◌∷◌}
use vidpow.Prelude.{Result, Error, or_throw, null_pointer}
use vidpow.Prelude.Steps.{
  change, return, throw, ◌>>◌, ◌>>=◌, by_value, by_kept, by_test, by_handled,
}
use vidpow.Protocol.Block.{SignedBlock, BlockHash, block_num, block_id}
use vidpow.Chain.ForkDatabase
use vidpow.Chain.ForkDatabase.{ForkItem, ForkDb, previous_id}
use vidpow.Chain.Blocks.{
  Skip, Tables, ChainDb, head_block_id, head_block_num, apply_in_session, last_of, first_of,
  reverse,
}
use vidpow.Chain.Blocks.Replay.{
  IsReplay, apply_in_session-IsReplay, pop_to-IsReplay, fork_db-IsReplay,
}
use vidpow.Chain.Blocks.Switch.{
  apply_branch, restore_branch, remove_all, pop_to_fork, back_to, after_branch, switch_fork,
  push_on_head, push_block,
}

module _ (hash : BlockHash) (T : Tables) where
  abbrev After : {A : Type 0} → ChainDb T.State × Result A → Type 0
  After q = IsReplay hash T q.0

  pub apply_branch-IsReplay :
      (skip : Skip) (xs : List ForkItem) (d : ChainDb T.State)
      → IsReplay hash T d
      → After (apply_branch hash T skip xs d)
  unfolding apply_branch
  apply_branch-IsReplay skip [] d i = i
  apply_branch-IsReplay skip (x ∷ xs) d i =
      by_handled (IsReplay hash T) After (apply_in_session hash T skip x.data_block d)
        {next = λ _. apply_branch hash T skip xs} {caught = λ e. return (some (e, x ∷ xs))}
        (apply_in_session-IsReplay hash T skip x.data_block d i)
        (λ t u e j. apply_branch-IsReplay skip xs t j) (λ t e q j. j)

  restore_branch-IsReplay :
      (skip : Skip) (xs : List ForkItem) (d : ChainDb T.State)
      → IsReplay hash T d
      → After (restore_branch hash T skip xs d)
  unfolding restore_branch
  restore_branch-IsReplay skip [] d i = i
  restore_branch-IsReplay skip (x ∷ xs) d i =
      by_kept (IsReplay hash T) After (apply_in_session hash T skip x.data_block d)
        {next = λ _. restore_branch hash T skip xs}
        (apply_in_session-IsReplay hash T skip x.data_block d i)
        (λ t u j. restore_branch-IsReplay skip xs t j) (λ t e j. j)

  pub pop_to_fork-IsReplay :
      (target : ℕ) (d : ChainDb T.State) → IsReplay hash T d → After (pop_to_fork hash T target d)
  unfolding pop_to_fork
  pop_to_fork-IsReplay target d i = pop_to-IsReplay hash T (suc d.fork_db.next_address) target d i

  back_to-IsReplay :
      (skip : Skip) (seconds bad : List ForkItem) (first last : ForkItem) (d : ChainDb T.State)
      → IsReplay hash T d
      → After (back_to hash T skip seconds bad first last d)
  unfolding back_to
  back_to-IsReplay skip seconds bad first last d i =
      let d' = record d {
        fork_db = ForkDatabase.set_head first (remove_all hash T bad d.fork_db);
      } in
      by_kept (IsReplay hash T) After (pop_to_fork hash T (previous_id last) d')
        {next = λ _. restore_branch hash T skip (reverse seconds)}
        (pop_to_fork-IsReplay (previous_id last) d' (fork_db-IsReplay hash T _ i))
        (λ t u j. restore_branch-IsReplay skip (reverse seconds) t j) (λ t e j. j)

  after_branch-IsReplay :
      (skip : Skip) (seconds : List ForkItem) (first last : ForkItem)
      (stopped : Option (Error × List ForkItem)) (d : ChainDb T.State)
      → IsReplay hash T d
      → After (after_branch hash T skip seconds first last stopped d)
  unfolding after_branch
  after_branch-IsReplay skip seconds first last none d i = i
  after_branch-IsReplay skip seconds first last (some (e, bad)) d i =
      by_kept (IsReplay hash T) After (back_to hash T skip seconds bad first last d)
        {next = λ _. throw e} (back_to-IsReplay skip seconds bad first last d i) (λ t u j. j)
        (λ t e j. j)

  push_on_head-IsReplay :
      (skip : Skip) (b : SignedBlock) (d : ChainDb T.State)
      → IsReplay hash T d
      → After (push_on_head hash T skip b d)
  unfolding push_on_head
  push_on_head-IsReplay skip b d i =
      by_handled (IsReplay hash T) After (apply_in_session hash T skip b d)
        {next = λ _. return false}
        {caught = λ e.
          change (λ s. record s { fork_db = ForkDatabase.remove (block_id hash b) s.fork_db })
          >> throw e}
        (apply_in_session-IsReplay hash T skip b d i) (λ t u e j. j)
        (λ t e q j. fork_db-IsReplay hash T _ j)

  switch_fork-IsReplay :
      (skip : Skip) (new_head : ForkItem) (d : ChainDb T.State)
      → IsReplay hash T d
      → After (switch_fork hash T skip new_head d)
  unfolding switch_fork
  switch_fork-IsReplay skip new_head d i =
      by_value After
        (ForkDatabase.fetch_branch_from d.fork_db (block_id hash new_head.data_block)
          (head_block_id hash T d))
        (λ r e.
          by_value After (or_throw (last_of r.seconds) null_pointer)
            (λ last e'.
              by_value After (or_throw (first_of r.seconds) null_pointer)
                (λ first e''.
                  by_kept (IsReplay hash T) After (pop_to_fork hash T (previous_id last) d)
                    {next = λ _.
                      apply_branch hash T skip (reverse r.firsts)
                      >>= after_branch hash T skip r.seconds first last}
                    (pop_to_fork-IsReplay (previous_id last) d i)
                    (λ t u j.
                      by_kept (IsReplay hash T) After
                        (apply_branch hash T skip (reverse r.firsts) t)
                        {next = after_branch hash T skip r.seconds first last}
                        (apply_branch-IsReplay skip (reverse r.firsts) t j)
                        (λ t' stopped k.
                          after_branch-IsReplay skip r.seconds first last stopped t' k)
                        (λ t' e k. k))
                    (λ t e j. j))
                (λ e e''. i))
            (λ e e'. i))
        (λ e e'. i)

  -- Whatever the application of a block does to the tables: where no transactions are pending and
  -- the sessions are a replay, they still are after every push, whether it extends the chain,
  -- switches forks, fails and goes back, or throws. In a replay each session holds the tables from
  -- before a block whose application led to the tables above it, and its revision, one more than
  -- that of the session below it, is the current one for the newest session.
  pub push_block-IsReplay :
      (skip : Skip) (b : SignedBlock) (d : ChainDb T.State)
      → IsReplay hash T d
      → IsReplay hash T (push_block hash T skip b d).0
  unfolding push_block
  push_block-IsReplay skip b d i =
      by_test After skip.skip_fork_db _ _ (λ e. push_on_head-IsReplay skip b d i)
        (λ e.
          by_value After (ForkDatabase.push_block hash b d.fork_db)
            (λ f ef.
              let i' = fork_db-IsReplay hash T f i in
              by_value After (or_throw f.head null_pointer)
                (λ new_head en.
                  by_test After (previous_id new_head == head_block_id hash T d) _ _
                    (λ e1. push_on_head-IsReplay skip b _ i')
                    (λ e1.
                      by_test After
                        (ltb (head_block_num hash T d) (block_num hash new_head.data_block)) _ _
                        (λ e2. switch_fork-IsReplay skip new_head _ i') (λ e2. i')))
                (λ e en. i'))
            (λ e ef. i))
