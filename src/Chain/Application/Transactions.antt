-- ===== src/Chain/Application/Transactions.antt =====
-- libraries/chain/database.cpp: applying a transaction, and the table against duplicates.
-- WLS_MAX_TIME_UNTIL_EXPIRATION is an hour. Ids, operations and their evaluators are an interface.
pub mod Replays
use vidpow.Prelude.{
  ℕ, ◌+◌, ◌/◌, ◌%◌, ◌^◌, Bool, true, false, not, ◌||◌, ◌==◌, ltb, leb, if◌then◌else◌, Option, none,
  some, List, [], ◌∷◌, find, get_elem?,
}
use vidpow.Prelude.{
  Result, ok, err, Error, ◌>>=◌, ◌>>◌, assert, assert_or, or_throw, unknown_object,
  transaction_tapos, transaction_expiration, tx_missing_active_auth,
}
use vidpow.Chain.Ledger.State.{Chain, Transaction}
use vidpow.Chain.Blocks.{Skip}

-- A transaction; `content` stands for its operations, extensions and signatures.
pub record SignedTransaction : Type 0 where
  pub ref_block_num : ℕ
  pub ref_block_prefix : ℕ
  pub expiration : ℕ
  pub content : ℕ

-- `id`, `validate`, `verify_authority` with the authorities of the tables, the table of known merkle
-- roots, the operations, and `apply` of their evaluators.
pub record Processor : Type 0 where
  pub trx_id : SignedTransaction → ℕ
  pub validate : SignedTransaction → Result (Unit {0})
  pub verify_authority : SignedTransaction → Chain → Result (Unit {0})
  pub known_merkle : ℕ → Bool
  pub operations : SignedTransaction → List ℕ
  pub evaluate : ℕ → Chain → Result Chain

-- The index `by_trx_id`.
unfoldable pub find_transaction : ℕ → List Transaction → Option Transaction
find_transaction id = find (λ t. t.trx_id == id)

-- A missing active authority passes in a block whose merkle root is in the table.
unfoldable pub forgive : Bool → Result (Unit {0}) → Result (Unit {0})
forgive known (ok u) = ok u
forgive true (err tx_missing_active_auth) = ok tt
forgive known (err e) = err e

-- `_hash[ 1 ]` of a block id, for TaPoS.
unfoldable pub check_tapos : SignedTransaction → Chain → Result (Unit {0})
check_tapos trx c = do
  id ← or_throw (get_elem? c.block_summaries trx.ref_block_num) unknown_object
  assert_or (trx.ref_block_prefix == id / 2 ^ 32 % 2 ^ 32) transaction_tapos

-- The sum is a 64-bit `time_point`.
unfoldable pub check_expiration : SignedTransaction → Chain → Result (Unit {0})
check_expiration trx c = do
  assert_or (leb trx.expiration (c.gpo.time + 3600)) transaction_expiration
  assert_or (ltb c.gpo.time trx.expiration) transaction_expiration
  assert_or (leb c.gpo.time trx.expiration) transaction_expiration

-- Nothing of this is checked before the first block.
unfoldable pub check_time : Skip → SignedTransaction → Chain → Result (Unit {0})
unfolding check_tapos check_expiration
check_time skip trx c =
    if ltb 0 c.gpo.head_block_number
    then (do if skip.skip_tapos_check then ok tt else check_tapos trx c; check_expiration trx c)
    else ok tt

-- `create`: the index `by_expiration` keeps equal times in the order of insertion.
unfoldable pub insert_transaction : Transaction → List Transaction → List Transaction
insert_transaction t [] = t ∷ []
insert_transaction t (x ∷ xs) =
    if ltb t.expiration x.expiration then t ∷ x ∷ xs else x ∷ insert_transaction t xs

unfoldable pub apply_operations : Processor → List ℕ → Chain → Result Chain
apply_operations proc [] c = ok c
apply_operations proc (op ∷ ops) c = do c' ← proc.evaluate op c; apply_operations proc ops c'

unfoldable pub remember : Processor → Skip → SignedTransaction → Chain → Chain
unfolding insert_transaction
remember proc skip trx c =
    let t : Transaction = record { trx_id = proc.trx_id trx; expiration = trx.expiration } in
    if skip.skip_transaction_dupe_check
    then c
    else record c { transactions = insert_transaction t c.transactions }

unfoldable pub is_known_transaction : ℕ → Chain → Bool
unfolding find_transaction
is_known_transaction id c = elim (find_transaction id c.transactions) [
  | none ↦ false
  | some _ ↦ true
]

unfoldable pub check_valid : Processor → Skip → SignedTransaction → Result (Unit {0})
check_valid proc skip trx = if skip.skip_validate then ok tt else proc.validate trx

unfoldable pub check_new : Processor → Skip → SignedTransaction → Chain → Result (Unit {0})
unfolding is_known_transaction
check_new proc skip trx c =
    assert (skip.skip_transaction_dupe_check || not (is_known_transaction (proc.trx_id trx) c))

unfoldable pub check_signatures : Processor → Skip → SignedTransaction → Chain → Result (Unit {0})
unfolding forgive
check_signatures proc skip trx c =
    let known = proc.known_merkle ((c.gpo.head_block_number + 1) % 2 ^ 32) in
    if skip.skip_transaction_signatures || skip.skip_authority_check
    then ok tt
    else forgive known (proc.verify_authority trx c)

-- `_apply_transaction`
unfoldable pub apply_transaction : Processor → Skip → SignedTransaction → Chain → Result Chain
unfolding check_valid check_new check_signatures check_time remember apply_operations
apply_transaction proc skip trx c = do
  check_valid proc skip trx
  check_new proc skip trx c
  check_signatures proc skip trx c
  check_time skip trx c
  apply_operations proc (proc.operations trx) (remember proc skip trx c)
