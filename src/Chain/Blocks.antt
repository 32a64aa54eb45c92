-- ===== src/Chain/Blocks.antt =====
-- libraries/chain/database.cpp: applying a block in a session, popping blocks; Switch has `_push_block`.
-- The tables are an interface without laws: `begin_block` is `_apply_block` up to the new
-- `last_irreversible_block_num`, `finish_block` its rest; what either leaves in the tables before it
-- throws is not kept track of. What lies between them, and all that is kept outside of the tables, is
-- here. A session of chainbase holds the tables as they were when it
-- began. Checkpoints are a list in the order of their numbers.
pub mod Switch
pub mod Sessions
pub mod Replay
pub mod Pops
use vidpow.Prelude.{
  ℕ, zero, suc, ◌+◌, ◌-◌, ◌%◌, ◌^◌, Bool, true, false, not, ◌&&◌, ◌==◌, ltb, leb, if◌then◌else◌,
  Option, none, some, List, [], ◌∷◌, ◌++◌, map, filter, length,
}
use vidpow.Prelude.{
  Result, ok, err, Error, or_throw, assert, assertion, out_of_fuel, null_pointer, pop_empty_chain,
}
use vidpow.Prelude.Steps.{Step, ◌>>=◌, ◌>>◌, return, throw, get, change, lift, attempt}
use vidpow.Protocol.Block.{SignedBlock, BlockHash, block_num, block_id, num_from_id}
use vidpow.Chain.ForkDatabase
use vidpow.Chain.ForkDatabase.{ForkItem, ForkDb, previous_id}
use vidpow.Chain.BlockLog

-- `database::validation_steps`
pub record Skip : Type 0 where
  pub skip_witness_signature : Bool
  pub skip_transaction_signatures : Bool
  pub skip_transaction_dupe_check : Bool
  pub skip_fork_db : Bool
  pub skip_block_size_check : Bool
  pub skip_tapos_check : Bool
  pub skip_authority_check : Bool
  pub skip_merkle_check : Bool
  pub skip_undo_history_check : Bool
  pub skip_witness_schedule_check : Bool
  pub skip_validate : Bool
  pub skip_validate_invariants : Bool
  pub skip_undo_block : Bool
  pub skip_block_log : Bool

abbrev pub skip_nothing : Skip
skip_nothing = record {
  skip_witness_signature = false;
  skip_transaction_signatures = false;
  skip_transaction_dupe_check = false;
  skip_fork_db = false;
  skip_block_size_check = false;
  skip_tapos_check = false;
  skip_authority_check = false;
  skip_merkle_check = false;
  skip_undo_history_check = false;
  skip_witness_schedule_check = false;
  skip_validate = false;
  skip_validate_invariants = false;
  skip_undo_block = false;
  skip_block_log = false;
}

-- The flags for the blocks up to the last checkpoint.
abbrev pub skip_below_checkpoint : Skip
skip_below_checkpoint = record {
  skip_witness_signature = true;
  skip_transaction_signatures = true;
  skip_transaction_dupe_check = true;
  skip_fork_db = true;
  skip_block_size_check = true;
  skip_tapos_check = true;
  skip_authority_check = true;
  skip_merkle_check = false;
  skip_undo_history_check = true;
  skip_witness_schedule_check = true;
  skip_validate = true;
  skip_validate_invariants = true;
  skip_undo_block = false;
  skip_block_log = false;
}

pub record Tables : Type 1 where
  pub State : Type 0
  pub head_block_id : State → ℕ
  pub head_block_num : State → ℕ
  pub last_irreversible_block_num : State → ℕ
  pub begin_block : Skip → SignedBlock → State → Result State
  pub finish_block : Skip → SignedBlock → State → Result State
  -- The ids of a block's transactions.
  pub transactions : SignedBlock → List ℕ

pub record Session (S : Type 0) : Type 0 where
  pub revision : ℕ
  pub before : S

-- `pending` says whether `_pending_tx_session` is there: then it is the newest session.
pub record ChainDb (S : Type 0) : Type 0 where
  pub state : S
  pub revision : ℕ
  pub sessions : List (Session S)
  pub pending : Bool
  pub popped_tx : List ℕ
  pub fork_db : ForkDb
  pub log : List SignedBlock
  pub checkpoints : List (ℕ × ℕ)

module _ {S : Type 0} where
  pub start_undo_session : ChainDb S → ChainDb S
  start_undo_session db = record db {
    revision = suc db.revision;
    sessions = record { revision = suc db.revision; before = db.state } ∷ db.sessions;
  }

  -- Without a session `undo` does nothing.
  pub undo : ChainDb S → ChainDb S
  undo db = elim db.sessions [
    | [] ↦ db
    | x ∷ rest ↦ record db { state = x.before; revision = db.revision - 1; sessions = rest }
  ]

  pub commit : ℕ → ChainDb S → ChainDb S
  commit r db = record db { sessions = filter (λ x. ltb r x.revision) db.sessions }

  pub resize : ℕ → ChainDb S → ChainDb S
  resize n db = record db { fork_db = ForkDatabase.set_max_size n db.fork_db }

  -- `_pending_tx_session.reset()`
  pub reset_pending : ChainDb S → ChainDb S
  reset_pending db = if db.pending then undo (record db { pending = false }) else db

abbrev pub last_of {ℓ} : {A : Type ℓ} → List A → Option A
last_of [] = none
last_of (x ∷ xs) = elim (last_of xs) [ none ↦ some x | some y ↦ some y ]

abbrev pub first_of {ℓ} : {A : Type ℓ} → List A → Option A
first_of [] = none
first_of (x ∷ xs) = some x

abbrev pub reverse {ℓ} : {A : Type ℓ} → List A → List A
reverse [] = []
reverse (x ∷ xs) = reverse xs ++ x ∷ []

abbrev pub find_checkpoint : ℕ → List (ℕ × ℕ) → Option ℕ
find_checkpoint n [] = none
find_checkpoint n (c ∷ cs) = if c.0 == n then some c.1 else find_checkpoint n cs

module _ (hash : BlockHash) (T : Tables) where
  abbrev Run : Type 0 → Type 0
  Run A = Step (ChainDb T.State) A

  pub head_block_id : ChainDb T.State → ℕ
  head_block_id db = T.head_block_id db.state

  pub head_block_num : ChainDb T.State → ℕ
  head_block_num db = T.head_block_num db.state

  pub fetch_block_by_id : ℕ → ChainDb T.State → Result (Option SignedBlock)
  fetch_block_by_id id db = elim (ForkDatabase.fetch_block id db.fork_db) [
    | some x ↦ ok (some x.data_block)
    | none ↦ elim (BlockLog.read_block_by_num hash (num_from_id hash id) db.log) [
      | err e ↦ err e
      | ok none ↦ ok none
      | ok (some b) ↦ ok (if block_id hash b == id then some b else none)
    ]
  ]

  pub fetch_block_by_number : ℕ → ChainDb T.State → Result (Option SignedBlock)
  fetch_block_by_number n db = elim (ForkDatabase.fetch_block_by_number n db.fork_db) [
    | [] ↦ BlockLog.read_block_by_num hash n db.log
    | x ∷ rest ↦ elim rest [
      | [] ↦ ok (some x.data_block)
      | _ ∷ _ ↦ BlockLog.read_block_by_num hash n db.log
    ]
  ]

  pub get_block_ids_on_fork : ℕ → ChainDb T.State → Result (List ℕ)
  unfolding head_block_id
  get_block_ids_on_fork head_of_fork db =
      elim (ForkDatabase.fetch_branch_from db.fork_db (head_block_id db) head_of_fork) [
        | err e ↦ err e
        | ok r ↦ elim (last_of r.firsts) [
          | none ↦ err null_pointer
          | some x ↦ ok (map (λ y. y.id) r.seconds ++ previous_id x ∷ [])
        ]
      ]

  pub pop_block : Run (Unit {0})
  unfolding head_block_id fetch_block_by_id reset_pending undo
  pop_block = do
    change reset_pending
    db ← get
    found ← lift (fetch_block_by_id (head_block_id db) db)
    b ← lift (or_throw found pop_empty_chain)
    f ← lift (ForkDatabase.pop_block db.fork_db)
    change (λ s. undo (record s { fork_db = f }))
    change (λ s. record s { popped_tx = T.transactions b ++ s.popped_tx })

  -- The loop that writes `count` irreversible blocks, from number `n + 1` on.
  pub append_to_log : ℕ → ℕ → Run (Unit {0})
  append_to_log zero n = return tt
  append_to_log (suc count) n = do
    db ← get
    found ← lift (ForkDatabase.fetch_block_on_main_branch_by_number (suc n) db.fork_db)
    x ← lift (or_throw found assertion)
    log ← lift (BlockLog.append hash x.data_block db.log)
    change (λ s. record s { log = log })
    append_to_log count (suc n)

  pub log_head_num : ChainDb T.State → ℕ
  log_head_num db = elim (BlockLog.head db.log) [ none ↦ 0 | some b ↦ block_num hash b ]

  -- Nothing is written where the log is skipped.
  pub append_unless : Bool → ℕ → ℕ → Run (Unit {0})
  unfolding append_to_log
  append_unless true count n = return tt
  append_unless false count n = append_to_log count n

  -- The end of `update_last_irreversible_block`, after the tables hold the number.
  pub write_irreversible : Skip → Run (Unit {0})
  unfolding append_unless log_head_num commit resize head_block_num
  write_irreversible skip = do
    db ← get
    let lib = T.last_irreversible_block_num db.state
    change (commit lib)
    append_unless skip.skip_block_log (lib - log_head_num db) (log_head_num db)
    change (resize ((head_block_num db + 2 ^ 32 - lib % 2 ^ 32 + 1) % 2 ^ 32))

  -- What `apply_block` makes of the flags, after a block was compared with its checkpoint.
  pub check_checkpoint : Skip → SignedBlock → List (ℕ × ℕ) → Result Skip
  check_checkpoint skip b checkpoints = elim (last_of checkpoints) [
    | none ↦ ok skip
    | some c ↦
        let skip' = if leb (block_num hash b) c.0 then skip_below_checkpoint else skip in
        if c.1 == 0 then ok skip else elim (find_checkpoint (block_num hash b) checkpoints) [
          | none ↦ ok skip'
          | some id ↦ if block_id hash b == id then ok skip' else err assertion
        ]
  ]

  pub apply_block : Skip → SignedBlock → Run (Unit {0})
  unfolding write_irreversible check_checkpoint
  apply_block skip b = do
    db ← get
    flags ← lift (check_checkpoint skip b db.checkpoints)
    s ← lift (T.begin_block flags b db.state)
    change (λ d. record d { state = s })
    write_irreversible flags
    s ← lift (T.finish_block flags b s)
    change (λ d. record d { state = s })

  -- The session's destructor, which takes the changes back unless `push` was reached.
  pub end_session : Result (Unit {0}) → Run (Unit {0})
  unfolding undo
  end_session (ok u) = return tt
  end_session (err e) = change undo >> throw e

  -- `auto session = start_undo_session( true ); apply_block( b, skip ); session.push();`
  pub apply_in_session : Skip → SignedBlock → Run (Unit {0})
  unfolding start_undo_session apply_block end_session
  apply_in_session skip b = do
    change start_undo_session
    r ← attempt (apply_block skip b)
    end_session r

  -- `while( head_block_id() != target ) pop_block();`
  pub pop_to : ℕ → ℕ → Run (Unit {0})
  unfolding pop_block head_block_id
  pop_to zero target = throw out_of_fuel
  pop_to (suc fuel) target = do
    db ← get
    if head_block_id db == target then return tt else (do pop_block; pop_to fuel target)
