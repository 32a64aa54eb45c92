-- ===== src/Chain/BlockLog.antt =====
-- libraries/chain/block_log.cpp: the irreversible blocks. The list holds the blocks of the log in the
-- order of the file; the position that the index file holds for a number is that of the list. Opening
-- the files, their streams and the packed bytes are left out.
pub mod Reads
mod Tests
use vidpow.Prelude.{
  ℕ, zero, suc, ◌+◌, ◌-◌, ◌%◌, ◌^◌, ◌≡◌, refl, ap, Bool, true, false, ◌&&◌, ◌==◌, ltb, leb,
  if◌then◌else◌, Option, none, some, List, [], ◌∷◌, ◌++◌, length, get_elem?, length-append, arith,
}
use vidpow.Prelude.{Result, ok, err, ◌>>=◌, ◌>>◌, assert}
use vidpow.Protocol.Block.{SignedBlock, BlockHash, block_num, block_id, num_from_id}

-- The last block that was appended.
pub head : List SignedBlock → Option SignedBlock
head [] = none
head (b ∷ rest) = elim rest [ [] ↦ some b | _ ∷ _ ↦ head rest ]

module _ (hash : BlockHash) where
  -- The position that the index file gives for a number.
  pub get_block_pos : ℕ → List SignedBlock → Option ℕ
  get_block_pos n log = elim (head log) [
    | none ↦ none
    | some h ↦ if leb n (num_from_id hash (block_id hash h)) && ltb 0 n then some (n - 1) else none
  ]

  pub read_block_by_num : ℕ → List SignedBlock → Result (Option SignedBlock)
  read_block_by_num n log = elim (get_block_pos n log) [
    | none ↦ ok none
    | some pos ↦ elim (get_elem? log pos) [
      | none ↦ ok none
      | some b ↦ (do assert (block_num hash b == n); ok (some b))
    ]
  ]

  -- `block_num() - 1` is an `uint32_t`.
  pub append : SignedBlock → List SignedBlock → Result (List SignedBlock)
  append b log = do
    assert (length log == (block_num hash b + 2 ^ 32 - 1) % 2 ^ 32)
    ok (log ++ b ∷ [])
