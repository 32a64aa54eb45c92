-- ===== src/Chain/Blocks/Switch/Tests.antt =====
-- Tests of pushing blocks, and the theorems at a chain that switches forks. The tables are a head's
-- id and number, block contents of 99 do not apply, and nothing is irreversible, but for the last test.
use vidpow.Prelude.{ℕ, suc, ◌≡◌, ◌≢◌, refl, true, false, ◌==◌, if◌then◌else◌, some, [], ◌∷◌}
use vidpow.Prelude.{Result, ok, err, assertion, out_of_fuel}
use vidpow.Protocol.Block.{SignedBlock, block_num, block_id, num_from_id}
use vidpow.Chain.ForkDatabase
use vidpow.Chain.ForkDatabase.{
  ForkItem, ForkDb, find_id, push_item, make_item, recent, link, longest, insert, oldest,
  previous_id, fetch_branch_from, descend, descend_both, lock, find_address, fetch_block,
  set_max_size, trim, least, erase, remove, set_head,
}
use vidpow.Chain.ForkDatabase.Invariant.{Inv}
use vidpow.Chain.ForkDatabase.Steps.{Reach-Inv, push_block-Inv}
use vidpow.Chain.ForkDatabase.Tests.{
  test_hash, block, item, item_0, item_1, item_2, item_3, item_4, tree, tree-Reach,
}
use vidpow.Chain.Blocks.{
  Skip, skip_nothing, Tables, Session, ChainDb, head_block_id, pop_to, pop_block, undo,
  reset_pending, fetch_block_by_id, apply_in_session, start_undo_session, apply_block,
  check_checkpoint, write_irreversible, append_unless, commit, resize, end_session, log_head_num,
  head_block_num,
}
use vidpow.Chain.Blocks.Replay.{IsReplay, fork_db-IsReplay}
use vidpow.Chain.Blocks.Pops.{pop_to-terminates}
use vidpow.Chain.Blocks.Switch.{
  push_block, switch_fork, push_on_head, back_to, pop_to_fork, apply_branch, after_branch,
  restore_branch, remove_all,
}
use vidpow.Chain.Blocks.Switch.Pushes.{push_block-IsReplay}
use vidpow.Chain.Blocks.Switch.Heads.{LeadsFrom, Switched, switch_fork-Switched, back_to-LeadsFrom}
use vidpow.Chain.Blocks.Switch.Throws.{Thrown, push_on_head-Thrown}

record Head : Type 0 where
  pub id : ℕ
  pub num : ℕ

begin_head : Skip → SignedBlock → Head → Result Head
begin_head skip b s =
    if b.previous == s.id then (if b.content == 99 then err assertion else ok s) else err assertion

finish_head : Skip → SignedBlock → Head → Result Head
finish_head skip b s = ok (record { id = block_id test_hash b; num = suc s.num })

abbrev tables : Tables
tables = record {
  State = Head;
  head_block_id = λ s. s.id;
  head_block_num = λ s. s.num;
  last_irreversible_block_num = λ s. 0;
  begin_block = begin_head;
  finish_block = finish_head;
  transactions = λ b. b.content ∷ [];
}

abbrev no_skip : Skip
no_skip = record skip_nothing { skip_block_log = true }

abbrev head_of : ForkItem → Head
head_of x = record { id = x.id; num = x.num }

abbrev genesis : Head
genesis = record { id = 0; num = 0 }

abbrev session : ℕ → Head → Session Head
session r s = record { revision = r; before = s }

abbrev chain : ChainDb Head
chain = record {
  state = head_of item_3;
  revision = 3;
  sessions = session 3 (head_of item_1) ∷ session 2 (head_of item_0) ∷ session 1 genesis ∷ [];
  pending = false;
  popped_tx = [];
  fork_db = tree;
  log = [];
  checkpoints = [];
}

chain-IsReplay : IsReplay test_hash tables chain
unfolding begin_head finish_head block_id block_num num_from_id
chain-IsReplay = record {
  pending = refl;
  replays = (
    item_3.data_block,
    2,
    refl,
    refl,
    (no_skip, head_of item_1, refl, refl),
    (
      item_1.data_block,
      1,
      refl,
      refl,
      (no_skip, head_of item_0, refl, refl),
      (item_0.data_block, 0, refl, refl, (no_skip, genesis, refl, refl), tt),
    ),
  );
}

push_block-IsReplay_example :
    IsReplay test_hash tables (push_block test_hash tables no_skip (block item_4.id 6) chain).0
push_block-IsReplay_example =
    push_block-IsReplay test_hash tables no_skip (block item_4.id 6) chain chain-IsReplay

pop_to-terminates_example : (pop_to test_hash tables 6 item_0.id chain).1 ≢ err out_of_fuel
pop_to-terminates_example =
    pop_to-terminates test_hash tables item_0.id chain (Reach-Inv test_hash tree-Reach)

-- A block on the shorter fork makes it the longer one.
abbrev block_6 : SignedBlock
block_6 = block item_4.id 6

abbrev fork_db_6 : ForkDb
fork_db_6 =
    let item_6 = item 5 (some 4) 4 item_4.id in
    record tree {
      index = item_0 ∷ item_1 ∷ item_2 ∷ item_3 ∷ item_4 ∷ item_6 ∷ [];
      head = some item_6;
      next_address = 6;
    }

abbrev chain_6 : ChainDb Head
chain_6 = record chain { fork_db = fork_db_6 }

pushed_6 : ForkDatabase.push_block test_hash block_6 tree ≡ ok fork_db_6
unfolding ForkDatabase.push_block push_item make_item recent link longest insert oldest find_id
    previous_id block_id block_num num_from_id
pushed_6 = refl

fork_db_6-Inv : Inv test_hash fork_db_6
fork_db_6-Inv = push_block-Inv test_hash tree block_6 pushed_6 (Reach-Inv test_hash tree-Reach)

abbrev item_6 : ForkItem
item_6 = item 5 (some 4) 4 item_4.id

switched :
    switch_fork test_hash tables no_skip item_6 chain_6
    ≡ ((switch_fork test_hash tables no_skip item_6 chain_6).0, ok true)
unfolding switch_fork fetch_branch_from find_id descend descend_both lock find_address previous_id
    head_block_id pop_to_fork pop_to ForkDatabase.pop_block pop_block undo reset_pending
    fetch_block_by_id fetch_block apply_branch apply_in_session start_undo_session apply_block
    check_checkpoint write_irreversible append_unless commit resize end_session log_head_num
    head_block_num set_max_size oldest trim least erase after_branch begin_head finish_head block_id
    block_num num_from_id
switched = refl

switch_fork-Switched_example :
    (true ≡ true)
    × Switched test_hash tables item_6 chain_6
        (switch_fork test_hash tables no_skip item_6 chain_6).0.state
switch_fork-Switched_example =
    switch_fork-Switched test_hash tables no_skip item_6 chain_6
      (fork_db-IsReplay test_hash tables fork_db_6 chain-IsReplay) switched

-- The fork database was popped twice from the new head: its head is two blocks behind the chain's.
lagging_head : (switch_fork test_hash tables no_skip item_6 chain_6).0.fork_db.head ≡ some item_2
unfolding switch_fork fetch_branch_from find_id descend descend_both lock find_address previous_id
    head_block_id pop_to_fork pop_to ForkDatabase.pop_block pop_block undo reset_pending
    fetch_block_by_id fetch_block apply_branch apply_in_session start_undo_session apply_block
    check_checkpoint write_irreversible append_unless commit resize end_session log_head_num
    head_block_num set_max_size oldest trim least erase after_branch begin_head finish_head block_id
    block_num num_from_id
lagging_head = refl

went_back :
    back_to test_hash tables no_skip (item_3 ∷ item_1 ∷ []) [] item_3 item_1 chain
    ≡ ((back_to test_hash tables no_skip (item_3 ∷ item_1 ∷ []) [] item_3 item_1 chain).0, ok tt)
unfolding back_to remove_all restore_branch set_head fetch_branch_from find_id descend descend_both
    lock find_address previous_id head_block_id pop_to_fork pop_to ForkDatabase.pop_block pop_block
    undo reset_pending fetch_block_by_id fetch_block apply_branch apply_in_session
    start_undo_session apply_block check_checkpoint write_irreversible append_unless commit resize
    end_session log_head_num head_block_num set_max_size oldest trim least erase after_branch
    begin_head finish_head block_id block_num num_from_id
went_back = refl

back_to-LeadsFrom_example :
    LeadsFrom test_hash tables item_0.id
      (item_1 ∷ item_3 ∷ [])
      (back_to test_hash tables no_skip (item_3 ∷ item_1 ∷ []) [] item_3 item_1 chain).0.state
unfolding previous_id
back_to-LeadsFrom_example =
    back_to-LeadsFrom test_hash tables no_skip (item_3 ∷ item_1 ∷ []) [] item_3 item_1 chain
      chain-IsReplay went_back

thrown :
    push_on_head test_hash tables no_skip (block item_3.id 99) chain
    ≡ ((push_on_head test_hash tables no_skip (block item_3.id 99) chain).0, err assertion)
unfolding push_on_head remove fetch_branch_from find_id descend descend_both lock find_address
    previous_id head_block_id pop_to_fork pop_to ForkDatabase.pop_block pop_block undo reset_pending
    fetch_block_by_id fetch_block apply_branch apply_in_session start_undo_session apply_block
    check_checkpoint write_irreversible append_unless commit resize end_session log_head_num
    head_block_num set_max_size oldest trim least erase after_branch begin_head finish_head block_id
    block_num num_from_id
thrown = refl

push_on_head-Thrown_example :
    Thrown test_hash tables
      (block item_3.id 99)
      chain
      (push_on_head test_hash tables no_skip (block item_3.id 99) chain).0
push_on_head-Thrown_example =
    push_on_head-Thrown test_hash tables (block item_3.id 99) no_skip chain chain-IsReplay thrown

-- With one witness a block is irreversible before the end of its own application: what it left
-- behind before it threw stays.
begin_solo : Skip → SignedBlock → Head → Result Head
begin_solo skip b s = ok (record { id = b.content; num = suc s.num })

finish_solo : Skip → SignedBlock → Head → Result Head
finish_solo skip b s = err assertion

abbrev solo_tables : Tables
solo_tables = record {
  State = Head;
  head_block_id = λ s. s.id;
  head_block_num = λ s. s.num;
  last_irreversible_block_num = λ s. s.num;
  begin_block = begin_solo;
  finish_block = finish_solo;
  transactions = λ b. b.content ∷ [];
}

abbrev solo_end : ChainDb Head
solo_end = (push_on_head test_hash solo_tables no_skip (block item_3.id 99) chain).0

left_behind : (solo_end.state.num ≡ 4) × (solo_end.revision ≡ 4) × (solo_end.sessions ≡ [])
unfolding push_on_head remove fetch_branch_from find_id descend descend_both lock find_address
    previous_id head_block_id pop_to_fork pop_to ForkDatabase.pop_block pop_block undo reset_pending
    fetch_block_by_id fetch_block apply_branch apply_in_session start_undo_session apply_block
    check_checkpoint write_irreversible append_unless commit resize end_session log_head_num
    head_block_num set_max_size oldest trim least erase after_branch begin_solo finish_solo block_id
    block_num num_from_id
left_behind = (refl, refl, refl)
