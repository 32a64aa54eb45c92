-- ===== src/Chain/Blocks/Replay.antt =====
-- The chain's state as the replay of blocks.
use vidpow.Prelude.{
  ℕ, zero, suc, ◌≤◌, ◌≡◌, refl, sym, subst, inl, inr, false, ltb, Bool-cases, ◌==◌, List, [], ◌∷◌,
  arith,
}
use vidpow.Prelude.{Result, or_throw, pop_empty_chain}
use vidpow.Prelude.Steps.{by_value, by_kept, by_test}
use vidpow.Protocol.Block.{SignedBlock, BlockHash}
use vidpow.Chain.ForkDatabase
use vidpow.Chain.Blocks.{
  Tables, Session, ChainDb, Skip, apply_in_session, pop_block, pop_to, undo, head_block_id,
  fetch_block_by_id, reset_pending,
}
use vidpow.Chain.Blocks.Sessions.{
  Holds, committed, Trimmed, NoneAbove, Applies, Outcome, took, failed, overtaken,
  apply_in_session-Outcome, undo-Holds,
}

module _ (hash : BlockHash) (T : Tables) where
  -- Each session holds the tables from before one block, down to the oldest reversible one.
  abbrev pub Replays : ℕ → T.State → List (Session T.State) → Type 0
  Replays r s [] = Unit
  Replays r s (x ∷ xs) =
      (b : SignedBlock) × (k : ℕ) × (r ≡ suc k)
      × (x.revision ≡ r)
      × Applies hash T b x.before s
      × Replays k x.before xs

  -- No transactions are pending, and the sessions are a replay up to the revision.
  pub record IsReplay (d : ChainDb T.State) : Type 0 where
    pub pending : d.pending ≡ false
    pub replays : Replays d.revision d.state d.sessions

  committed-nil :
      (n r : ℕ) (s : T.State) (xs : List (Session T.State))
      → Replays r s xs
      → r ≤ n
      → committed n xs ≡ []
  committed-nil n r s [] p h = refl
  committed-nil n r s (x ∷ xs) (b, k, e, v, a, p) h =
      let rest = committed-nil n k x.before xs p (omega arith) in ground arith

  Replays-committed :
      (n r : ℕ) (s : T.State) (xs : List (Session T.State))
      → Replays r s xs
      → Replays r s (committed n xs)
  Replays-committed n r s [] p = p
  Replays-committed n r s (x ∷ xs) (b, k, e, v, a, p) = elim (Bool-cases (ltb n x.revision)) [
    | inl t ↦ rw t (b, k, e, v, a, Replays-committed n k x.before xs p)
    | inr f ↦ rw (f, committed-nil n k x.before xs p (ground arith)) tt
  ]

  Replays-Trimmed :
      (b : SignedBlock) (r : ℕ) (s t : T.State) {xs ys : List (Session T.State)}
      → Replays r t xs
      → Trimmed hash T b s xs ys
      → Replays r t ys
  Replays-Trimmed b r s t p (inl e) = subst (Replays r t) (sym e) p
  Replays-Trimmed b r s t {xs} p (inr (flags, m, em, e)) =
      subst (Replays r t) (sym e) (Replays-committed (T.last_irreversible_block_num m) r t xs p)

  pub IsReplay-NoneAbove :
      {d : ChainDb T.State} → IsReplay d → NoneAbove hash T d.revision d.sessions
  IsReplay-NoneAbove {d} i k h = committed-nil k d.revision d.state d.sessions i.replays h

  Holds-IsReplay :
      {d : ChainDb T.State} {s : T.State} {r : ℕ} {xs : List (Session T.State)}
      → Holds s r xs d
      → Replays r s xs
      → IsReplay d
  Holds-IsReplay h p = record {
    pending = h.pending;
    replays = rw (h.state, h.revision, h.sessions) p;
  }

  pub IsReplay-Holds : {d : ChainDb T.State} → IsReplay d → Holds d.state d.revision d.sessions d
  IsReplay-Holds i = record { state = refl; revision = refl; sessions = refl; pending = i.pending }

  Outcome-IsReplay :
      {b : SignedBlock} (s : T.State) (r : ℕ) {xs : List (Session T.State)}
      {x : ChainDb T.State × Result (Unit {0})}
      → Replays r s xs
      → Outcome hash T b s r xs x
      → IsReplay x.0
  Outcome-IsReplay {b} s r p (took t ys a q h) =
      Holds-IsReplay h (Replays-Trimmed b (suc r) s t (b, r, refl, refl, a, p) q)
  Outcome-IsReplay {b} s r p (failed ys q h) = Holds-IsReplay h (Replays-Trimmed b r s s p q)
  Outcome-IsReplay s r p (overtaken t flags m em l h) = Holds-IsReplay h tt

  pub apply_in_session-IsReplay :
      (skip : Skip) (b : SignedBlock) (d : ChainDb T.State)
      → IsReplay d
      → IsReplay (apply_in_session hash T skip b d).0
  apply_in_session-IsReplay skip b d i =
      Outcome-IsReplay d.state d.revision i.replays
        (apply_in_session-Outcome hash T skip b d (IsReplay-NoneAbove i) (IsReplay-Holds i))

  undo-Replays :
      (d : ChainDb T.State) (s : T.State) (r : ℕ) (xs : List (Session T.State))
      → Holds s r xs d
      → Replays r s xs
      → IsReplay (undo d)
  unfolding undo
  undo-Replays d s r [] h p = rw h.sessions (record { pending = h.pending; replays = tt })
  undo-Replays d s r (x ∷ xs) h (b, k, e, v, a, p) = Holds-IsReplay (undo-Holds h refl e) p

  pub undo-IsReplay : (d : ChainDb T.State) → IsReplay d → IsReplay (undo d)
  undo-IsReplay d i = undo-Replays d d.state d.revision d.sessions (IsReplay-Holds i) i.replays

  -- What is kept outside of the tables and their sessions does not matter.
  pub fork_db-IsReplay :
      {d : ChainDb T.State} (f : ForkDatabase.ForkDb)
      → IsReplay d
      → IsReplay (record d { fork_db = f })
  fork_db-IsReplay f i = record { pending = i.pending; replays = i.replays }

  popped_tx-IsReplay :
      {d : ChainDb T.State} (popped : List ℕ)
      → IsReplay d
      → IsReplay (record d { popped_tx = popped })
  popped_tx-IsReplay popped i = record { pending = i.pending; replays = i.replays }

  reset_pending-IsReplay : (d : ChainDb T.State) → IsReplay d → IsReplay (reset_pending d)
  unfolding reset_pending
  reset_pending-IsReplay d i = simp i.pending i

  pub pop_block-IsReplay : (d : ChainDb T.State) → IsReplay d → IsReplay (pop_block hash T d).0
  unfolding pop_block
  pop_block-IsReplay d i =
      let P : ChainDb T.State × Result (Unit {0}) → Type 0 = λ q. IsReplay q.0 in
      let d' = reset_pending d in
      let i' = reset_pending-IsReplay d i in
      by_value P (fetch_block_by_id hash T (head_block_id hash T d') d')
        (λ found e.
          by_value P (or_throw found pop_empty_chain)
            (λ b e'.
              by_value P (ForkDatabase.pop_block d'.fork_db)
                (λ f e''. popped_tx-IsReplay _ (undo-IsReplay _ (fork_db-IsReplay f i')))
                (λ t e''. i'))
            (λ t e'. i'))
        (λ t e. i')

  pub pop_to-IsReplay :
      (fuel target : ℕ) (d : ChainDb T.State)
      → IsReplay d
      → IsReplay (pop_to hash T fuel target d).0
  unfolding pop_to
  pop_to-IsReplay zero target d i = i
  pop_to-IsReplay (suc fuel) target d i =
      let P : ChainDb T.State × Result (Unit {0}) → Type 0 = λ q. IsReplay q.0 in
      by_test P (head_block_id hash T d == target) _ _ (λ e. i)
        (λ e.
          by_kept IsReplay P (pop_block hash T d) {next = λ u. pop_to hash T fuel target}
            (pop_block-IsReplay d i) (λ t u j. pop_to-IsReplay fuel target t j) (λ t e' j. j))
