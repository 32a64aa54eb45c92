-- ===== src/Chain/Application.antt =====
-- libraries/chain/database.cpp: the parts of `_apply_block` that keep the chain's own records.
-- The log of missed slots is a 128-bit number; other counters wrap around at their widths. A C `assert`
-- is taken as an `FC_ASSERT`, and the virtual operations, which only observers read, are left out.
-- The empty key is 0.
pub mod Finality
pub mod Participation
pub mod Transactions
pub mod Hardforks
mod Tests
use vidpow.Prelude.{
  ℕ, zero, suc, ◌+◌, ◌-◌, ◌*◌, ◌/◌, ◌%◌, ◌^◌, Bool, true, false, not, ◌&&◌, ◌==◌, ltb, leb,
  if◌then◌else◌, Option, none, some, List, [], ◌∷◌, ◌++◌, length, get_elem?, set, map, find, filter,
}
use vidpow.Prelude.{
  Result, ok, err, ◌>>=◌, ◌>>◌, assert, assert_or, or_throw, assertion, null_pointer,
  unknown_object, undo_database, unknown_hardfork,
}
use vidpow.Protocol.Block.{SignedBlock, BlockHash, block_num, block_id}
use vidpow.Chain.Ledger.State.{Chain, Witness, Transaction, get_witness, modify_witness}
use vidpow.Chain.Slots.{get_slot_at_time, get_scheduled_witness}
use vidpow.Chain.Blocks.{Skip}

-- The alternatives of a header's extension that are known: nothing, a version, and a vote for a hardfork.
pub data Extension : Type 0 where
  void : Extension
  version : ℕ → Extension
  hardfork_version_vote : (hf_version hf_time : ℕ) → Extension

-- What is read of a block beyond its header: its extensions, and whether a key signed it.
pub record BlockReader : Type 0 where
  pub extensions : SignedBlock → List Extension
  pub validate_signee : SignedBlock → ℕ → Bool

-- Without a check the slot is not computed.
check_schedule : Bool → SignedBlock → Witness → Chain → Result (Unit {0})
check_schedule true b w c = ok tt
check_schedule false b w c = do
  let slot_num = get_slot_at_time b.timestamp c
  assert (ltb 0 slot_num)
  scheduled ← get_scheduled_witness slot_num c
  assert (w.owner == scheduled)

pub validate_block_header : BlockReader → Skip → SignedBlock → Chain → Result Witness
unfolding check_schedule
validate_block_header reader skip b c = do
  assert (c.gpo.head_block_id == b.previous)
  assert (ltb c.gpo.time b.timestamp)
  w ← get_witness b.witness c
  assert (if skip.skip_witness_signature then true else reader.validate_signee b w.signing_key)
  check_schedule skip.skip_witness_schedule_check b w c
  ok w

pub process_extension : ℕ → Extension → Chain → Result Chain
process_extension name void c = ok c
process_extension name (version reported) c =
    modify_witness name (λ w. ok (record w { running_version = reported })) c
process_extension name (hardfork_version_vote v t) c =
    modify_witness name (λ w. ok (record w { hardfork_version_vote = v; hardfork_time_vote = t })) c

-- `process_header_extensions`
pub process_extensions : ℕ → List Extension → Chain → Result Chain
unfolding process_extension
process_extensions name [] c = ok c
process_extensions name (x ∷ xs) c = do
  c' ← process_extension name x c
  process_extensions name xs c'

pub create_block_summary : BlockHash → SignedBlock → Chain → Result Chain
create_block_summary hash b c = do
  let sid = block_num hash b % 2 ^ 16
  s ← or_throw (get_elem? c.block_summaries sid) unknown_object
  ok (record c { block_summaries = set c.block_summaries sid (block_id hash b) })

-- A witness that missed a slot, a day after its last block. `last_confirmed_block_num` has 64 bits.
pub miss_slot : ℕ → Witness → Witness
miss_slot head_block_num w =
    let missed = record w { total_missed = (w.total_missed + 1) % 2 ^ 32 } in
    if ltb 28800 ((head_block_num + 2 ^ 64 - w.last_confirmed_block_num) % 2 ^ 64)
    then record missed { signing_key = 0 }
    else missed

-- The loop over the missed slots, from slot `i + 1` on.
pub miss_slots : ℕ → ℕ → ℕ → Chain → Result Chain
unfolding miss_slot
miss_slots producer i zero c = ok c
miss_slots producer i (suc count) c = do
  name ← get_scheduled_witness (i + 1) c
  w ← get_witness name c
  c' ←
      if w.owner == producer
      then ok c
      else modify_witness name (λ v. ok (miss_slot c.gpo.head_block_number v)) c
  miss_slots producer (i + 1) count c'

-- One round of the loop over the slots: `recent_slots_filled` and `participation_count`, with the slot
-- of the block, `filled = 1`, or a missed one, `filled = 0`.
pub shift_slot : ℕ → ℕ × ℕ → ℕ × ℕ
shift_slot filled (recent, count) =
    ((recent * 2 + filled) % 2 ^ 128, ((count + 2 ^ 8 - recent / 2 ^ 127) % 2 ^ 8 + filled) % 2 ^ 8)

pub shift_missed : ℕ → ℕ × ℕ → ℕ × ℕ
unfolding shift_slot
shift_missed zero slots = slots
shift_missed (suc n) slots = shift_missed n (shift_slot 0 slots)

-- `popcount` is that of the fc library.
pub witness_participation_rate : (ℕ → ℕ) → Chain → ℕ
witness_participation_rate popcount c = 10000 * popcount c.gpo.recent_slots_filled / 128 % 2 ^ 32

pub record_block : BlockHash → SignedBlock → ℕ → Chain → Chain
unfolding shift_slot shift_missed
record_block hash b missed c =
    let slots =
      shift_missed missed (shift_slot 1 (c.gpo.recent_slots_filled, c.gpo.participation_count)) in
    record c {
      gpo = record c.gpo {
        recent_slots_filled = slots.0;
        participation_count = slots.1;
        head_block_number = block_num hash b;
        head_block_id = block_id hash b;
        time = b.timestamp;
        current_aslot = (c.gpo.current_aslot + missed + 1) % 2 ^ 64;
      };
    }

pub missed_blocks : SignedBlock → Chain → Result ℕ
missed_blocks b c =
    if c.gpo.time == 0
    then ok 0
    else (do let slot = get_slot_at_time b.timestamp c; assert (not (slot == 0)); ok (slot - 1))

pub update_global_dynamic_data : BlockHash → ℕ → Skip → SignedBlock → Chain → Result Chain
unfolding missed_blocks miss_slots record_block
update_global_dynamic_data hash max_undo skip b c = do
  missed ← missed_blocks b c
  c1 ← miss_slots b.witness 0 missed c
  let c2 = record_block hash b missed c1
  let depth = (c2.gpo.head_block_number + 2 ^ 32 - c2.gpo.last_irreversible_block_num) % 2 ^ 32
  assert_or (if skip.skip_undo_history_check then true else ltb depth max_undo) undo_database
  ok c2

pub update_signing_witness : BlockHash → Witness → SignedBlock → Chain → Result Chain
update_signing_witness hash signing_witness b c =
    let aslot = (c.gpo.current_aslot + get_slot_at_time b.timestamp c) % 2 ^ 64 in
    modify_witness signing_witness.owner
      (λ w. ok (record w { last_aslot = aslot; last_confirmed_block_num = block_num hash b })) c
