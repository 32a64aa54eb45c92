-- ===== src/Chain/Blocks/Switch/Throws.antt =====
-- What is left of a block on the head that does not apply.
use vidpow.Prelude.{suc, ◌≡◌, ◌<◌, ◌⊎◌, inl, inr, [], refl, sym, subst, Bool, false, none, arith}
use vidpow.Prelude.{Result, ok, err, Error}
use vidpow.Prelude.Steps.{change, return, throw, ◌>>◌, resume}
use vidpow.Protocol.Block.{SignedBlock, BlockHash, block_id}
use vidpow.Chain.ForkDatabase
use vidpow.Chain.ForkDatabase.{ForkItem, ForkDb, find_id, remove}
use vidpow.Chain.ForkDatabase.Pops.{remove-find}
use vidpow.Chain.Blocks.{Skip, Tables, ChainDb}
use vidpow.Chain.Blocks.Sessions.{
  Outcome, took, failed, overtaken, Trimmed, apply_in_session-Outcome,
}
use vidpow.Chain.Blocks.Replay.{IsReplay, IsReplay-Holds, IsReplay-NoneAbove}
use vidpow.Chain.Blocks.Switch.{push_on_head}

module _ (hash : BlockHash) (T : Tables) (b : SignedBlock) where
  -- The tables as in `d`, and sessions only lost at the old end.
  pub record IsUndone (d d' : ChainDb T.State) : Type 0 where
    pub state : d'.state ≡ d.state
    pub revision : d'.revision ≡ d.revision
    pub sessions : Trimmed hash T b d.state d.sessions d'.sessions

  -- The block became irreversible in its own application, before it threw: its session was committed
  -- with all older ones, and the revision is the one that was begun for it.
  pub record IsOvertaken (d d' : ChainDb T.State) : Type 0 where
    pub flags : Skip
    pub middle : T.State
    pub begun : T.begin_block flags b d.state ≡ ok middle
    pub irreversible : d.revision < T.last_irreversible_block_num middle
    pub revision : d'.revision ≡ suc d.revision
    pub sessions : d'.sessions ≡ []

  -- And no block with its id is in the index.
  abbrev pub Thrown : ChainDb T.State → ChainDb T.State → Type 0
  Thrown d d' =
      (IsUndone d d' ⊎ IsOvertaken d d') × (find_id (block_id hash b) d'.fork_db.index ≡ none)

  after_push :
      (d : ChainDb T.State) {x : ChainDb T.State × Result (Unit {0})}
      → Outcome hash T b d.state d.revision d.sessions x
      → (e : Error) → (q : ChainDb T.State × Result Bool)
      → q
        ≡ resume
            (λ _. return false)
            (λ e.
              change (λ s. record s { fork_db = ForkDatabase.remove (block_id hash b) s.fork_db })
              >> throw e)
            x
      → q.1 ≡ err e
      → Thrown d q.0
  after_push d (took t ys a tr h) e q eq r = absurd (ground arith)
  after_push d (failed {d = d1} ys tr h) e q eq r =
      subst (λ (z : ChainDb T.State × Result Bool). Thrown d z.0) (sym eq)
        (
          inl (record {
            state = h.state;
            revision = h.revision;
            sessions = subst (Trimmed hash T b d.state d.sessions) (sym h.sessions) tr;
          }),
          remove-find (block_id hash b) d1.fork_db,
        )
  after_push d (overtaken {d = d1} t flags m em l h) e q eq r =
      subst (λ (z : ChainDb T.State × Result Bool). Thrown d z.0) (sym eq)
        (
          inr (record {
            flags = flags;
            middle = m;
            begun = em;
            irreversible = l;
            revision = h.revision;
            sessions = h.sessions;
          }),
          remove-find (block_id hash b) d1.fork_db,
        )

  -- Whatever the application of a block does to the tables: from sessions that are a replay, with
  -- no transactions pending, a block on the head that throws is not in the index of the fork
  -- database, and it is undone, unless it became irreversible in its own application. Where it is
  -- undone, the tables and the revision are as they were, and the sessions too, but for those
  -- committed up to the block that is irreversible in the middle of its application. Where it is
  -- not, its own session was committed with all others, and the revision stays one higher.
  pub push_on_head-Thrown :
      (skip : Skip) (d : ChainDb T.State)
      → IsReplay hash T d
      → {d' : ChainDb T.State} {e : Error} → push_on_head hash T skip b d ≡ (d', err e)
      → Thrown d d'
  unfolding push_on_head
  push_on_head-Thrown skip d i {d'} {e} p =
      after_push d
        (apply_in_session-Outcome hash T skip b d (IsReplay-NoneAbove hash T i)
          (IsReplay-Holds hash T i))
        e (d', err e) (sym p) refl
