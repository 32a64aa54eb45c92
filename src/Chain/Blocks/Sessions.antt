-- ===== src/Chain/Blocks/Sessions.antt =====
-- The tables and the sessions of chainbase while a block is applied.
use vidpow.Prelude.{
  ℕ, zero, suc, ◌+◌, ◌-◌, ◌%◌, ◌^◌, ◌≤◌, ◌<◌, ◌≡◌, refl, ap, subst, Bool-cases, ◌∙◌, ◌⊎◌, inl, inr,
  Bool, true, false, ltb, List, [], ◌∷◌, filter, arith,
}
use vidpow.Prelude.{Result, ok, err, Error, or_throw, assertion}
use vidpow.Prelude.Steps.{change, by_value, by_kept}
use vidpow.Protocol.Block.{SignedBlock, BlockHash}
use vidpow.Chain.ForkDatabase
use vidpow.Chain.BlockLog
use vidpow.Chain.Blocks.{
  Skip, Tables, Session, ChainDb, start_undo_session, undo, commit, resize, append_to_log,
  append_unless, write_irreversible, check_checkpoint, apply_block, apply_in_session, end_session,
  head_block_num, log_head_num,
}

-- The tables, their revision and the sessions of a chain outside of pending transactions.
pub record Holds {S : Type 0} (s : S) (r : ℕ) (xs : List (Session S)) (d : ChainDb S) : Type 0 where
  pub state : d.state ≡ s
  pub revision : d.revision ≡ r
  pub sessions : d.sessions ≡ xs
  pub pending : d.pending ≡ false

abbrev pub committed : {S : Type 0} → ℕ → List (Session S) → List (Session S)
committed k xs = filter (λ x. ltb k x.revision) xs

module _ (hash : BlockHash) (T : Tables) (s : T.State) (r : ℕ) (xs : List (Session T.State)) where
  append_to_log-Holds :
      (count n : ℕ) (d : ChainDb T.State)
      → Holds s r xs d
      → Holds s r xs (append_to_log hash T count n d).0
  unfolding append_to_log
  append_to_log-Holds zero n d h = h
  append_to_log-Holds (suc count) n d h =
      let P : ChainDb T.State × Result (Unit {0}) → Type 0 = λ q. Holds s r xs q.0 in
      by_value P (ForkDatabase.fetch_block_on_main_branch_by_number (suc n) d.fork_db)
        (λ found e.
          by_value P (or_throw found assertion)
            (λ x e'.
              by_value P (BlockLog.append hash x.data_block d.log)
                (λ log e''.
                  append_to_log-Holds count (suc n) (record d { log = log })
                    (record {
                      state = h.state;
                      revision = h.revision;
                      sessions = h.sessions;
                      pending = h.pending;
                    }))
                (λ t e''. h))
            (λ t e'. h))
        (λ t e. h)

  append_unless-Holds :
      (skipped : Bool) (count n : ℕ) (d : ChainDb T.State)
      → Holds s r xs d
      → Holds s r xs (append_unless hash T skipped count n d).0
  unfolding append_unless
  append_unless-Holds true count n d h = h
  append_unless-Holds false count n d h = append_to_log-Holds count n d h

module _ {S : Type 0} {s : S} {r : ℕ} {xs : List (Session S)} {d : ChainDb S}
    (h : Holds s r xs d) where
  commit-Holds : (k : ℕ) → Holds s r (committed k xs) (commit k d)
  unfolding commit
  commit-Holds k = record {
    state = h.state;
    revision = h.revision;
    sessions = ap (committed k) h.sessions;
    pending = h.pending;
  }

  resize-Holds : (n : ℕ) → Holds s r xs (resize n d)
  unfolding resize
  resize-Holds n = record {
    state = h.state;
    revision = h.revision;
    sessions = h.sessions;
    pending = h.pending;
  }

  state-Holds : (t : S) → Holds t r xs (record d { state = t })
  state-Holds t = record {
    state = refl;
    revision = h.revision;
    sessions = h.sessions;
    pending = h.pending;
  }

  pub undo-Holds :
      {x : Session S} {ys : List (Session S)} {k : ℕ}
      → xs ≡ x ∷ ys
      → r ≡ suc k
      → Holds x.before k ys (undo d)
  unfolding undo
  undo-Holds {x} {ys} {k} e n =
      let e' : d.sessions ≡ x ∷ ys = h.sessions ∙ e in
      record {
        state = rw e' refl;
        revision = rw e' (omega (arith, h.revision));
        sessions = rw e' refl;
        pending = rw e' h.pending;
      }

module _ (hash : BlockHash) (T : Tables) where
  write_irreversible-Holds :
      (skip : Skip) {s : T.State} {r : ℕ} {xs : List (Session T.State)} (d : ChainDb T.State)
      → Holds s r xs d
      → Holds s r
          (committed (T.last_irreversible_block_num d.state) xs)
          (write_irreversible hash T skip d).0
  unfolding write_irreversible
  write_irreversible-Holds skip {s} {r} {xs} d h =
      let lib = T.last_irreversible_block_num d.state in
      let I = Holds s r (committed lib xs) in
      let n = (head_block_num hash T d + 2 ^ 32 - lib % 2 ^ 32 + 1) % 2 ^ 32 in
      by_kept I (λ q. I q.0)
        (append_unless hash T skip.skip_block_log (lib - log_head_num hash T d)
          (log_head_num hash T d) (commit lib d))
        {next = λ u. change (resize n)}
        (append_unless-Holds hash T s r (committed lib xs) skip.skip_block_log _ _ (commit lib d)
          (commit-Holds h lib))
        (λ t u i. resize-Holds i n) (λ t e i. i)

  -- A block takes the tables from one state to another.
  abbrev pub Applies : SignedBlock → T.State → T.State → Type 0
  Applies b s t =
      (flags : Skip) × (m : T.State) × (T.begin_block flags b s ≡ ok m)
      × (T.finish_block flags b m ≡ ok t)

  -- Sessions were committed up to the block that is irreversible in the middle of the application of
  -- `b` to `s`, or none was.
  abbrev pub Trimmed :
      SignedBlock → T.State → List (Session T.State) → List (Session T.State) → Type 0
  Trimmed b s xs ys =
      (ys ≡ xs)
      ⊎ ((flags : Skip) × (m : T.State) × (T.begin_block flags b s ≡ ok m)
          × (ys ≡ committed (T.last_irreversible_block_num m) xs))

  -- How `apply_block` ends inside the session that was begun for it.
  data Half (b : SignedBlock) (s : T.State) (r : ℕ) (xs : List (Session T.State))
      : ChainDb T.State × Result (Unit {0}) → Type 0 where
    done :
        {d : ChainDb T.State} (t : T.State) (ys : List (Session T.State))
        → Applies b s t
        → Trimmed b s xs ys
        → Holds t r ys d
        → Half b s r xs (d, ok tt)
    stopped :
        {d : ChainDb T.State} {e : Error} (t : T.State) (ys : List (Session T.State))
        → Trimmed b s xs ys
        → Holds t r ys d
        → Half b s r xs (d, err e)

  apply_block-Half :
      (skip : Skip) (b : SignedBlock) {s : T.State} {r : ℕ} {xs : List (Session T.State)}
      (d : ChainDb T.State)
      → Holds s r xs d
      → Half b s r xs (apply_block hash T skip b d)
  unfolding apply_block
  apply_block-Half skip b {s} {r} {xs} d h =
      by_value (Half b s r xs) (check_checkpoint hash T skip b d.checkpoints)
        (λ flags e.
          by_value (Half b s r xs) (T.begin_block flags b d.state)
            (λ m em.
              let ys = committed (T.last_irreversible_block_num m) xs in
              let em' = subst (λ z. T.begin_block flags b z ≡ ok m) h.state em in
              by_kept (Holds m r ys) (Half b s r xs) _
                (write_irreversible-Holds flags (record d { state = m }) (state-Holds h m))
                (λ t u i.
                  by_value (Half b s r xs) (T.finish_block flags b m)
                    (λ t' et.
                      done t' ys (flags, m, em', et) (inr (flags, m, em', refl)) (state-Holds i t'))
                    (λ e' et. stopped m ys (inr (flags, m, em', refl)) i))
                (λ t e' i. stopped m ys (inr (flags, m, em', refl)) i))
            (λ e' em. stopped s xs (inl refl) h))
        (λ e ec. stopped s xs (inl refl) h)

  -- How a block that is applied in a session of its own ends: it took, over the session that holds the
  -- tables as they were; it failed, and the tables are as they were; or it stopped after it had become
  -- irreversible itself, so that its own session was committed and nothing is left to undo.
  pub data Outcome (b : SignedBlock) (s : T.State) (r : ℕ) (xs : List (Session T.State))
      : ChainDb T.State × Result (Unit {0}) → Type 0 where
    took :
        {d : ChainDb T.State} (t : T.State) (ys : List (Session T.State))
        → Applies b s t
        → Trimmed b s (record { revision = suc r; before = s } ∷ xs) ys
        → Holds t (suc r) ys d
        → Outcome b s r xs (d, ok tt)
    failed :
        {d : ChainDb T.State} {e : Error} (ys : List (Session T.State))
        → Trimmed b s xs ys
        → Holds s r ys d
        → Outcome b s r xs (d, err e)
    overtaken :
        {d : ChainDb T.State} {e : Error} (t : T.State) (flags : Skip) (m : T.State)
        → T.begin_block flags b s ≡ ok m
        → r < T.last_irreversible_block_num m
        → Holds t (suc r) [] d
        → Outcome b s r xs (d, err e)

  undo-nothing :
      {t : T.State} {r : ℕ} {d : ChainDb T.State} → Holds t r [] d → Holds t r [] (undo d)
  unfolding undo
  undo-nothing {t} {r} {d} h = record {
    state = rw h.sessions h.state;
    revision = rw h.sessions h.revision;
    sessions = rw h.sessions refl;
    pending = rw h.sessions h.pending;
  }

  -- All sessions are at most as new as the revision.
  abbrev pub NoneAbove : ℕ → List (Session T.State) → Type 0
  NoneAbove r xs = (k : ℕ) → r ≤ k → committed k xs ≡ []

  stopped-Outcome :
      (b : SignedBlock) (s t : T.State) (r : ℕ) (xs zs : List (Session T.State))
      (d : ChainDb T.State) (e : Error)
      → NoneAbove r xs
      → Trimmed b s (record { revision = suc r; before = s } ∷ xs) zs
      → Holds t (suc r) zs d
      → Outcome b s r xs (undo d, err e)
  stopped-Outcome b s t r xs zs d e low (inl q) h = failed xs (inl refl) (undo-Holds h q refl)
  stopped-Outcome b s t r xs zs d e low (inr (flags, m, em, q)) h =
      let lib = T.last_irreversible_block_num m in
      elim (Bool-cases (ltb lib (suc r))) [
        | inl l ↦
            let own : zs ≡ record { revision = suc r; before = s } ∷ committed lib xs =
              q ∙ rw l refl in
            failed (committed lib xs) (inr (flags, m, em, refl)) (undo-Holds h own refl)
        | inr f ↦
            let none_left : zs ≡ [] = q ∙ rw f (low lib (ground arith)) in
            overtaken t flags m em (ground arith)
              (undo-nothing (subst (λ ys. Holds t (suc r) ys d) none_left h))
      ]

  end_session-Outcome :
      {b : SignedBlock} {s : T.State} {r : ℕ} {xs : List (Session T.State)}
      {x : ChainDb T.State × Result (Unit {0})}
      → NoneAbove r xs
      → Half b s (suc r) (record { revision = suc r; before = s } ∷ xs) x
      → Outcome b s r xs (end_session hash T x.1 x.0)
  unfolding end_session
  end_session-Outcome low (done t zs a q h) = took t zs a q h
  end_session-Outcome {b} {s} {r} {xs} low (stopped {d = d} {e = e} t zs q h) =
      stopped-Outcome b s t r xs zs d e low q h

  start_undo_session-Holds :
      {s : T.State} {r : ℕ} {xs : List (Session T.State)} (d : ChainDb T.State)
      → Holds s r xs d
      → Holds s (suc r) (record { revision = suc r; before = s } ∷ xs) (start_undo_session d)
  unfolding start_undo_session
  start_undo_session-Holds d h = record {
    state = h.state;
    revision = ap suc h.revision;
    sessions = rw (h.state, h.revision, h.sessions) refl;
    pending = h.pending;
  }

  pub apply_in_session-Outcome :
      (skip : Skip) (b : SignedBlock) {s : T.State} {r : ℕ} {xs : List (Session T.State)}
      (d : ChainDb T.State)
      → NoneAbove r xs
      → Holds s r xs d
      → Outcome b s r xs (apply_in_session hash T skip b d)
  unfolding apply_in_session
  apply_in_session-Outcome skip b d low h =
      end_session-Outcome low
        (apply_block-Half skip b (start_undo_session d) (start_undo_session-Holds d h))
