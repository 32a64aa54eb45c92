-- ===== src/Chain/Blocks/Switch/Heads.antt =====
-- Which blocks lead to the tables after a switch of forks, and after the way back from one.
use vidpow.Prelude.{
  ℕ, zero, suc, ◌≡◌, refl, sym, ◌∙◌, ap, subst, Bool, true, ◌==◌, Option, none, some, List, [], ◌∷◌,
  arith,
}
use vidpow.Prelude.{Result, ok, Error, or_throw, or_throw-ok, null_pointer}
use vidpow.Prelude.Steps.{return, throw, ◌>>=◌, by_value, by_end, by_handled, by_test}
use vidpow.Protocol.Block.{SignedBlock, BlockHash, block_id}
use vidpow.Chain.ForkDatabase
use vidpow.Chain.ForkDatabase.{ForkItem, ForkDb, BranchPair, previous_id, fetch_branch_from}
use vidpow.Chain.Blocks.{
  Skip, Tables, Session, ChainDb, head_block_id, apply_in_session, pop_block, pop_to, last_of,
  first_of, reverse,
}
use vidpow.Chain.Blocks.Sessions.{
  Applies, Outcome, took, failed, overtaken, apply_in_session-Outcome,
}
use vidpow.Chain.Blocks.Replay.{
  IsReplay, IsReplay-Holds, IsReplay-NoneAbove, apply_in_session-IsReplay, fork_db-IsReplay,
}
use vidpow.Chain.Blocks.Switch.{
  apply_branch, restore_branch, remove_all, pop_to_fork, back_to, after_branch, switch_fork,
}
use vidpow.Chain.Blocks.Switch.Pushes.{pop_to_fork-IsReplay}

module _ (hash : BlockHash) (T : Tables) where
  -- The blocks of the items, one after the other, take the tables from one state to another.
  abbrev pub AppliesAll : List ForkItem → T.State → T.State → Type 0
  AppliesAll [] s t = s ≡ t
  AppliesAll (x ∷ xs) s t = (m : T.State) × Applies hash T x.data_block s m × AppliesAll xs m t

  -- From a state whose head is the block `target`, the blocks of the items lead to `t`.
  abbrev pub LeadsFrom : ℕ → List ForkItem → T.State → Type 0
  LeadsFrom target xs t = (s : T.State) × (T.head_block_id s ≡ target) × AppliesAll xs s t

  Outcome-Applies :
      (b : SignedBlock) {s : T.State} {r : ℕ} {xs : List (Session T.State)}
      {x : ChainDb T.State × Result (Unit {0})}
      → Outcome hash T b s r xs x
      → {u : Unit {0}} → x.1 ≡ ok u
      → Applies hash T b s x.0.state
  Outcome-Applies b {s} (took t ys a q h) e = subst (Applies hash T b s) (sym h.state) a
  Outcome-Applies b (failed ys q h) e = absurd (ground arith)
  Outcome-Applies b (overtaken t flags m em l h) e = absurd (ground arith)

  apply_in_session-Applies :
      (skip : Skip) (b : SignedBlock) (d : ChainDb T.State)
      → IsReplay hash T d
      → {t : ChainDb T.State} {u : Unit {0}} → apply_in_session hash T skip b d ≡ (t, ok u)
      → Applies hash T b d.state t.state
  apply_in_session-Applies skip b d i {t} {u} e =
      subst (λ (y : ChainDb T.State × Result (Unit {0})). Applies hash T b d.state y.0.state) e
        (Outcome-Applies b
          (apply_in_session-Outcome hash T skip b d (IsReplay-NoneAbove hash T i)
            (IsReplay-Holds hash T i))
          {u = u} (ap (λ y. y.1) e))

  restore_branch-AppliesAll :
      (skip : Skip) (xs : List ForkItem) (d : ChainDb T.State)
      → IsReplay hash T d
      → (restore_branch hash T skip xs d).1 ≡ ok tt
      → AppliesAll xs d.state (restore_branch hash T skip xs d).0.state
  unfolding restore_branch
  restore_branch-AppliesAll skip [] d i = λ e. refl
  restore_branch-AppliesAll skip (x ∷ xs) d i =
      by_end (λ q. q.1 ≡ ok tt → AppliesAll (x ∷ xs) d.state q.0.state)
        (apply_in_session hash T skip x.data_block d) {next = λ _. restore_branch hash T skip xs}
        (λ t u e q.
          let j : IsReplay hash T t =
            subst (λ (y : ChainDb T.State × Result (Unit {0})). IsReplay hash T y.0) e
              (apply_in_session-IsReplay hash T skip x.data_block d i) in
          (
            t.state,
            apply_in_session-Applies skip x.data_block d i e,
            restore_branch-AppliesAll skip xs t j q,
          ))
        (λ t e q r. absurd (ground arith))

  -- Where no exception was caught, all blocks of the branch were applied.
  apply_branch-AppliesAll :
      (skip : Skip) (xs : List ForkItem) (d : ChainDb T.State)
      → IsReplay hash T d
      → (apply_branch hash T skip xs d).1 ≡ ok none
      → AppliesAll xs d.state (apply_branch hash T skip xs d).0.state
  unfolding apply_branch
  apply_branch-AppliesAll skip [] d i = λ e. refl
  apply_branch-AppliesAll skip (x ∷ xs) d i =
      by_handled (IsReplay hash T) (λ q. q.1 ≡ ok none → AppliesAll (x ∷ xs) d.state q.0.state)
        (apply_in_session hash T skip x.data_block d) {next = λ _. apply_branch hash T skip xs}
        {caught = λ e. return (some (e, x ∷ xs))}
        (apply_in_session-IsReplay hash T skip x.data_block d i)
        (λ t u e j q. (
          t.state,
          apply_in_session-Applies skip x.data_block d i e,
          apply_branch-AppliesAll skip xs t j q,
        ))
        (λ t e q j r. absurd (ground arith))

  pop_to-head :
      (fuel target : ℕ) (d : ChainDb T.State) {t : ChainDb T.State} {u : Unit {0}}
      → pop_to hash T fuel target d ≡ (t, ok u)
      → T.head_block_id t.state ≡ target
  unfolding pop_to head_block_id
  pop_to-head zero target d = λ e. absurd (ground (arith, ap (λ y. y.1) e))
  pop_to-head (suc fuel) target d {t} {u} =
      by_test (λ q. q ≡ (t, ok u) → T.head_block_id t.state ≡ target)
        (T.head_block_id d.state == target) _ _
        (λ h e.
          subst (λ (z : ChainDb T.State). T.head_block_id z.state ≡ target) (ap (λ y. y.0) e)
            (ground arith))
        (λ h.
          by_end (λ q. q ≡ (t, ok u) → T.head_block_id t.state ≡ target) (pop_block hash T d)
            {next = λ _. pop_to hash T fuel target}
            (λ t' u' e' e. pop_to-head fuel target t' {t = t} {u = u} e)
            (λ t' e' q e. absurd (ground (arith, ap (λ y. y.1) e))))

  pop_to_fork-head :
      (target : ℕ) (d : ChainDb T.State) {t : ChainDb T.State} {u : Unit {0}}
      → pop_to_fork hash T target d ≡ (t, ok u)
      → T.head_block_id t.state ≡ target
  unfolding pop_to_fork
  pop_to_fork-head target d {t} {u} e =
      pop_to-head (suc d.fork_db.next_address) target d {t = t} {u = u} e

  pop_to_fork-kept :
      (target : ℕ) (d : ChainDb T.State)
      → IsReplay hash T d
      → {t : ChainDb T.State} {u : Unit {0}} → pop_to_fork hash T target d ≡ (t, ok u)
      → IsReplay hash T t
  pop_to_fork-kept target d i e =
      subst (λ (y : ChainDb T.State × Result (Unit {0})). IsReplay hash T y.0) e
        (pop_to_fork-IsReplay hash T target d i)

  -- Whatever the application of a block does to the tables: from sessions that are a replay, with
  -- no transactions pending, the way back after a failed switch, if it returns, ends with the
  -- tables that the blocks of the old branch, each applied after the one below it, made of tables
  -- whose head is the previous of its last block, wherever the loop over the new fork stopped.
  pub back_to-LeadsFrom :
      (skip : Skip) (seconds bad : List ForkItem) (first last : ForkItem) (d : ChainDb T.State)
      → IsReplay hash T d
      → {d' : ChainDb T.State} → back_to hash T skip seconds bad first last d ≡ (d', ok tt)
      → LeadsFrom (previous_id last) (reverse seconds) d'.state
  unfolding back_to
  back_to-LeadsFrom skip seconds bad first last d i {d'} e =
      let P : ChainDb T.State × Result (Unit {0}) → Type 0 =
        λ q. q.1 ≡ ok tt → LeadsFrom (previous_id last) (reverse seconds) q.0.state in
      let d0 = record d {
        fork_db = ForkDatabase.set_head first (remove_all hash T bad d.fork_db);
      } in
      let h : P (back_to hash T skip seconds bad first last d) =
        by_end P (pop_to_fork hash T (previous_id last) d0)
          {next = λ _. restore_branch hash T skip (reverse seconds)}
          (λ t u et q.
            let j = pop_to_fork-kept (previous_id last) d0 (fork_db-IsReplay hash T _ i) et in
            (
              t.state,
              pop_to_fork-head (previous_id last) d0 et,
              restore_branch-AppliesAll skip (reverse seconds) t j q,
            ))
          (λ t e q r. absurd (ground arith)) in
      subst
        (λ (y : ChainDb T.State × Result (Unit {0})).
          LeadsFrom (previous_id last) (reverse seconds) y.0.state)
        e (h (ap (λ y. y.1) e))

  -- `after_branch` returns only where all blocks applied, and then it changes nothing.
  after_branch-returns :
      (skip : Skip) (seconds : List ForkItem) (first last : ForkItem)
      (stopped : Option (Error × List ForkItem)) (d : ChainDb T.State) (a : Bool)
      → (after_branch hash T skip seconds first last stopped d).1 ≡ ok a
      → (stopped ≡ none)
        × (a ≡ true)
        × ((after_branch hash T skip seconds first last stopped d).0 ≡ d)
  unfolding after_branch
  after_branch-returns skip seconds first last none d a q = (refl, ground arith, refl)
  after_branch-returns skip seconds first last (some (e, bad)) d a q = absurd (
      by_end (λ x. x.1 ≡ ok a → ⊥) (back_to hash T skip seconds bad first last d)
        {next = λ _. throw e} (λ t u e' q'. absurd (ground arith))
        (λ t e' q' r. absurd (ground arith)) q)

  -- The end of a switch, from the state that the pops left.
  branch-AppliesAll :
      (skip : Skip) (r : BranchPair) (first last : ForkItem) (t t' : ChainDb T.State)
      (stopped : Option (Error × List ForkItem))
      → IsReplay hash T t
      → apply_branch hash T skip (reverse r.firsts) t ≡ (t', ok stopped)
      → (a : Bool) → (after_branch hash T skip r.seconds first last stopped t').1 ≡ ok a
      → (a ≡ true)
        × AppliesAll
            (reverse r.firsts)
            t.state
            (after_branch hash T skip r.seconds first last stopped t').0.state
  branch-AppliesAll skip r first last t t' stopped j es a q =
      let (none_left, returned, same) =
        after_branch-returns skip r.seconds first last stopped t' a q in
      let All = λ (z : ChainDb T.State). AppliesAll (reverse r.firsts) t.state z.state in
      let applied : All t' = subst All (ap (λ z. z.0) es) (
        apply_branch-AppliesAll skip (reverse r.firsts) t j (ap (λ z. z.1) es ∙ ap ok none_left)) in
      (returned, subst All (sym same) applied)

  -- The branches from the new head and from the head, and the last block of the latter.
  abbrev pub Switched : ForkItem → ChainDb T.State → T.State → Type 0
  Switched new_head d t =
      (r : BranchPair) × (last : ForkItem) × (fetch_branch_from d.fork_db
          (block_id hash new_head.data_block) (T.head_block_id d.state)
        ≡ ok r)
      × (last_of r.seconds ≡ some last)
      × LeadsFrom (previous_id last) (reverse r.firsts) t

  -- Whatever the application of a block does to the tables: from sessions that are a replay, with
  -- no transactions pending, a switch of forks that returns has returned true, and the tables are
  -- what the blocks of the branch to the new head, each applied after the one below it, made of
  -- tables whose head is the previous of the last block of the old branch. The branches are those
  -- that `fetch_branch_from` gives from the new head and from the head before the switch.
  pub switch_fork-Switched :
      (skip : Skip) (new_head : ForkItem) (d : ChainDb T.State)
      → IsReplay hash T d
      → {d' : ChainDb T.State} {switched : Bool}
      → switch_fork hash T skip new_head d ≡ (d', ok switched)
      → (switched ≡ true) × Switched new_head d d'.state
  unfolding switch_fork head_block_id
  switch_fork-Switched skip new_head d i {d'} {switched} e =
      let id = block_id hash new_head.data_block in
      let P : ChainDb T.State × Result Bool → Type 0 =
        λ q. (a : Bool) → q.1 ≡ ok a → (a ≡ true) × Switched new_head d q.0.state in
      let h : P (switch_fork hash T skip new_head d) =
        by_value P (ForkDatabase.fetch_branch_from d.fork_db id (T.head_block_id d.state))
          (λ r er.
            by_value P (or_throw (last_of r.seconds) null_pointer)
              (λ last el.
                by_value P (or_throw (first_of r.seconds) null_pointer)
                  (λ first e''.
                    by_end P (pop_to_fork hash T (previous_id last) d)
                      {next = λ _.
                        apply_branch hash T skip (reverse r.firsts)
                        >>= after_branch hash T skip r.seconds first last}
                      (λ t u et.
                        by_end P (apply_branch hash T skip (reverse r.firsts) t)
                          {next = after_branch hash T skip r.seconds first last}
                          (λ t' stopped es a q.
                            let j = pop_to_fork-kept (previous_id last) d i et in
                            let (returned, all) =
                              branch-AppliesAll skip r first last t t' stopped j es a q in
                            (
                              returned,
                              (
                                r,
                                last,
                                er,
                                or_throw-ok (last_of r.seconds) null_pointer el,
                                (t.state, pop_to_fork-head (previous_id last) d et, all),
                              ),
                            ))
                          (λ t' e q a q'. absurd (ground arith)))
                      (λ t e j a q. absurd (ground arith)))
                  (λ e e'' a q. absurd (ground arith)))
              (λ e e' a q. absurd (ground arith)))
          (λ e e' a q. absurd (ground arith)) in
      subst
        (λ (y : ChainDb T.State × Result Bool). (switched ≡ true) × Switched new_head d y.0.state) e
        (h switched (ap (λ y. y.1) e))
