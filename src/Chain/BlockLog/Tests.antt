-- ===== src/Chain/BlockLog/Tests.antt =====
-- Tests of the block log, at a log of two blocks.
use vidpow.Prelude.{◌≡◌, refl, none, some, List, [], ◌∷◌, ◌++◌, arith}
use vidpow.Prelude.{ok}
use vidpow.Protocol.Block.{SignedBlock, block_num, num_from_id}
use vidpow.Chain.ForkDatabase.Tests.{test_hash, item_0, item_1, item_3, swap_bytes-IsByteSwap}
use vidpow.Chain.BlockLog.{read_block_by_num, append}
use vidpow.Chain.BlockLog.Reads.{IsNumbered, append-IsNumbered, read_block_by_num-get}

abbrev log : List SignedBlock
log = item_0.data_block ∷ item_1.data_block ∷ []

log-IsNumbered : IsNumbered test_hash 0 log
unfolding block_num num_from_id
log-IsNumbered = (refl, (refl, tt))

appended : append test_hash item_3.data_block log ≡ ok (log ++ item_3.data_block ∷ [])
unfolding append block_num num_from_id
appended = refl

append-IsNumbered_example :
    (log ++ item_3.data_block ∷ [] ≡ log ++ item_3.data_block ∷ [])
    × IsNumbered test_hash 0 (log ++ item_3.data_block ∷ [])
append-IsNumbered_example =
    append-IsNumbered test_hash item_3.data_block log appended (omega arith) log-IsNumbered

read_block_by_num-get_example :
    (read_block_by_num test_hash 0 log ≡ ok none)
    × (read_block_by_num test_hash 2 log ≡ ok (some item_1.data_block))
read_block_by_num-get_example =
    read_block_by_num-get test_hash swap_bytes-IsByteSwap log 1 log-IsNumbered
