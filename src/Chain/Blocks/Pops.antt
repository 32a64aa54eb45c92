-- ===== src/Chain/Blocks/Pops.antt =====
-- The loop that pops blocks down to a fork.
use vidpow.Prelude.{
  ℕ, zero, suc, ◌<◌, ◌≡◌, ◌≢◌, sym, ap, subst, ◌∙◌, inl, inr, false, ◌==◌, Option, some, arith,
  Bool-cases,
}
use vidpow.Prelude.{Result, ok, err, Error, or_throw, out_of_fuel, pop_empty_chain}
use vidpow.Prelude.Steps.{by_value, by_end, by_test}
use vidpow.Protocol.Block.{SignedBlock, BlockHash, num_from_id}
use vidpow.Chain.ForkDatabase
use vidpow.Chain.ForkDatabase.{ForkItem, ForkDb}
use vidpow.Chain.ForkDatabase.Invariant.{Inv}
use vidpow.Chain.ForkDatabase.Steps.{pop_block-Inv}
use vidpow.Chain.ForkDatabase.Pops.{pop_block-older, pop_block-ne}
use vidpow.Chain.BlockLog.Reads.{read_block_by_num-ne}
use vidpow.Chain.Blocks.{
  Tables, ChainDb, pop_block, pop_to, undo, reset_pending, head_block_id, fetch_block_by_id,
}

module _ {S : Type 0} where
  fork_db-undo : (d : ChainDb S) → (undo d).fork_db ≡ d.fork_db
  unfolding undo
  fork_db-undo d = ground arith

  fork_db-reset_pending : (d : ChainDb S) → (reset_pending d).fork_db ≡ d.fork_db
  unfolding reset_pending
  fork_db-reset_pending d = elim (Bool-cases d.pending) [
    | inl t ↦ ground (arith, fork_db-undo (record d { pending = false }))
    | inr f ↦ ground arith
  ]

module _ (hash : BlockHash) (T : Tables) where
  or_throw-ne : (found : Option SignedBlock) → or_throw found pop_empty_chain ≢ err out_of_fuel
  or_throw-ne found e = ground arith

  fetch_block_by_id-ne :
      (id : ℕ) (d : ChainDb T.State) → fetch_block_by_id hash T id d ≢ err out_of_fuel
  unfolding fetch_block_by_id
  fetch_block_by_id-ne id d e =
      ground (arith, read_block_by_num-ne hash (num_from_id hash id) d.log)

  -- A pop that returns has popped the fork database; it does not run out of fuel.
  record Pops (d : ChainDb T.State) (x : ChainDb T.State × Result (Unit {0})) : Type 0 where
    pub total : x.1 ≢ err out_of_fuel
    pub fork : (u : Unit {0}) → x.1 ≡ ok u → ForkDatabase.pop_block d.fork_db ≡ ok x.0.fork_db

  throws-Pops : (d t : ChainDb T.State) (e : Error) → e ≢ out_of_fuel → Pops d (t, err e)
  throws-Pops d t e n = record {
    total = λ q. n (ground arith);
    fork = λ u q. absurd (ground arith);
  }

  pop_block-Pops : (d : ChainDb T.State) → Pops d (pop_block hash T d)
  unfolding pop_block
  pop_block-Pops d =
      let d' = reset_pending d in
      by_value (Pops d) (fetch_block_by_id hash T (head_block_id hash T d') d')
        (λ found e.
          by_value (Pops d) (or_throw found pop_empty_chain)
            (λ b e'.
              by_value (Pops d) (ForkDatabase.pop_block d'.fork_db)
                (λ f ef. record {
                  total = λ q. absurd (ground arith);
                  fork = λ u q.
                      ap ForkDatabase.pop_block (sym (fork_db-reset_pending d))
                      ∙ ef
                      ∙ ap ok (sym (fork_db-undo (record d' { fork_db = f })));
                })
                (λ t et. throws-Pops d _ t (λ q. pop_block-ne d'.fork_db (et ∙ ap err q))))
            (λ t et. throws-Pops d _ t (λ q. or_throw-ne found (et ∙ ap err q))))
        (λ t et. throws-Pops d _ t (λ q. fetch_block_by_id-ne _ d' (et ∙ ap err q)))

  pop_to-runs :
      (fuel target : ℕ) (d : ChainDb T.State)
      → Inv hash d.fork_db
      → ((h : ForkItem) → d.fork_db.head ≡ some h → suc h.address < fuel)
      → 0 < fuel
      → (pop_to hash T fuel target d).1 ≢ err out_of_fuel
  unfolding pop_to
  pop_to-runs zero target d v h pos = absurd (omega arith)
  pop_to-runs (suc fuel) target d v h pos =
      let P : ChainDb T.State × Result (Unit {0}) → Type 0 = λ q. q.1 ≢ err out_of_fuel in
      by_test P (head_block_id hash T d == target) _ _ (λ e q. absurd (ground arith))
        (λ e.
          by_end P (pop_block hash T d) {next = λ u. pop_to hash T fuel target}
            (λ t u e'.
              let f : ForkDatabase.pop_block d.fork_db ≡ ok t.fork_db =
                subst (λ x. ForkDatabase.pop_block d.fork_db ≡ ok x.0.fork_db) e'
                  ((pop_block-Pops d).fork u (ap (λ x. x.1) e')) in
              let (k, p, ek, ep, lt) = pop_block-older hash d.fork_db {db' = t.fork_db} f v in
              pop_to-runs fuel target t (pop_block-Inv hash d.fork_db f v)
                (λ p' ep'. ground (arith, h k ek)) (omega (arith, h k ek)))
            (λ t e' q r. (pop_block-Pops d).total (ap (λ x. x.1) q ∙ r)))

  -- On a fork database that keeps its invariant, the loop that pops blocks down to a fork ends: the
  -- number of addresses given out bounds its rounds.
  pub pop_to-terminates :
      (target : ℕ) (d : ChainDb T.State)
      → Inv hash d.fork_db
      → (pop_to hash T (suc d.fork_db.next_address) target d).1 ≢ err out_of_fuel
  pop_to-terminates target d v =
      pop_to-runs (suc d.fork_db.next_address) target d v (λ h e. omega (arith, v.fresh h (inl e)))
        (omega arith)
