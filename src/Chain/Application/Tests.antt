-- ===== src/Chain/Application/Tests.antt =====
-- Tests of the parts of a block's application, at the chain of the other tests.
use vidpow.Prelude.{◌≡◌, ◌≢◌, ◌≤◌, refl, false, [], ◌∷◌, map, arith}
use vidpow.Prelude.{ok, err, out_of_fuel}
use vidpow.Chain.Ledger.State.{Chain, Witness, get_witness}
use vidpow.Chain.Evaluators.Tests.{chain}
use vidpow.Chain.Blocks.{skip_nothing}
use vidpow.Chain.ForkDatabase.Tests.{test_hash, block}
use vidpow.Chain.Application.{record_block, shift_slot, shift_missed}
use vidpow.Chain.Application.Finality.{
  update_last_irreversible_block, vote_irreversible, confirmed, voted_irreversible, sorted,
  insert_sorted, irreversible_offset, Voted, update_last_irreversible_block-Voted,
  clear_expired_transactions,
}
use vidpow.Chain.Application.Participation.{Counts, ones, record_block-Counts}
use vidpow.Chain.Application.Hardforks.{
  HardforkTable, process_hardforks, InOrder, NoneDue, process_hardforks-NoneDue,
}
use vidpow.Chain.Application.Transactions.{
  SignedTransaction, Processor, apply_transaction, check_valid, check_new, check_signatures,
  forgive, check_time, check_tapos, check_expiration, remember, insert_transaction,
  is_known_transaction, find_transaction, apply_operations,
}
use vidpow.Chain.Application.Transactions.Replays.{LeavesHead, now, clears, apply_transaction-once}

-- Two of the last three slots were filled.
abbrev recorded : Chain
recorded = record chain {
  gpo = record chain.gpo { recent_slots_filled = 5; participation_count = 2 };
}

recorded-Counts : Counts (5, 2)
unfolding ones
recorded-Counts = record { recent = omega arith; count = refl }

record_block-Counts_example :
    let c' = record_block test_hash (block 0 1) 2 recorded in
    Counts (c'.gpo.recent_slots_filled, c'.gpo.participation_count)
record_block-Counts_example = record_block-Counts test_hash (block 0 1) 2 recorded recorded-Counts

three_filled : (record_block test_hash (block 0 1) 2 recorded).gpo.participation_count ≡ 3
unfolding record_block shift_slot shift_missed
three_filled = refl

abbrev voting : Chain
voting = record chain {
  gpo = record chain.gpo { head_block_number = 40 };
  witnesses = map {A = Witness} (λ w. record w { last_confirmed_block_num = 39 }) chain.witnesses;
}

abbrev final : Chain
final = record voting { gpo = record voting.gpo { last_irreversible_block_num = 39 } }

voted : update_last_irreversible_block voting ≡ ok final
unfolding update_last_irreversible_block vote_irreversible confirmed voted_irreversible sorted
    insert_sorted irreversible_offset get_witness
voted = refl

update_last_irreversible_block-Voted_example :
    (voting.gpo.last_irreversible_block_num ≤ final.gpo.last_irreversible_block_num)
    × Voted voting final
update_last_irreversible_block-Voted_example =
    update_last_irreversible_block-Voted voting (omega arith) voted

abbrev processor : Processor
processor = record {
  trx_id = λ t. t.content;
  validate = λ t. ok tt;
  verify_authority = λ t c. ok tt;
  known_merkle = λ n. false;
  operations = λ t. [];
  evaluate = λ op c. ok c;
}

processor-LeavesHead : LeavesHead processor
processor-LeavesHead = record {
  transactions = λ op c c' e. ground (arith, e);
  time = λ op c c' e. ground (arith, e);
}

abbrev trx : SignedTransaction
trx = record { ref_block_num = 1; ref_block_prefix = 0; expiration = 1000; content = 17 }

abbrev after_trx : Chain
after_trx = record chain { transactions = record { trx_id = 17; expiration = 1000 } ∷ [] }

applied : apply_transaction processor skip_nothing trx chain ≡ ok after_trx
unfolding apply_transaction check_valid check_new check_signatures forgive check_time check_tapos
    check_expiration remember insert_transaction is_known_transaction find_transaction
    apply_operations
applied = refl

apply_transaction-once_example :
    apply_transaction processor skip_nothing trx (clear_expired_transactions after_trx)
    ≢ ok after_trx
unfolding clear_expired_transactions
apply_transaction-once_example =
    apply_transaction-once processor processor-LeavesHead skip_nothing skip_nothing trx chain
      after_trx (clear_expired_transactions after_trx) refl refl applied (clears now) (omega arith)

-- One hardfork was processed, a second one is due.
abbrev table : HardforkTable
table = record { num_hardforks = 1; versions = 0 ∷ 65536 ∷ []; times = 0 ∷ 10 ∷ [] }

abbrev due : Chain
due = record chain { hardforks = record chain.hardforks { next_hardfork = 65536 } }

due-InOrder : InOrder table due
due-InOrder = record { processed = refl; known = omega arith; current = refl }

process_hardforks-NoneDue_example :
    (process_hardforks table due ≢ err out_of_fuel)
    × ((c' : Chain) → process_hardforks table due ≡ ok c' → InOrder table c' × NoneDue table c')
process_hardforks-NoneDue_example = process_hardforks-NoneDue table due due-InOrder
