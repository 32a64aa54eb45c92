-- ===== src/Protocol/Block.antt =====
-- libraries/protocol/block.cpp and block_header.hpp: the number that a block id carries.
-- A block id is a 160-bit number whose lowest 32 bits are the word `_hash[0]`.
use vidpow.Prelude.{ℕ, ◌+◌, ◌*◌, ◌/◌, ◌%◌, ◌^◌, ◌<◌, ◌≡◌, arith}

-- A header, less the fields that nothing here reads; `content` stands for those.
pub record SignedBlock : Type 0 where
  pub previous : ℕ
  pub timestamp : ℕ
  pub witness : ℕ
  pub content : ℕ

-- What block.cpp takes from the fc library: `fc::sha224::hash` of a header, a 224-bit number, and
-- `fc::endian_reverse_u32`.
pub record BlockHash : Type 0 where
  pub sha224 : SignedBlock → ℕ
  pub endian_reverse_u32 : ℕ → ℕ

-- The documented behaviour of `fc::endian_reverse_u32`: a permutation of the 32-bit words, which
-- is its own inverse.
pub record IsByteSwap (f : ℕ → ℕ) : Type 0 where
  pub word : (x : ℕ) → f x < 2 ^ 32
  pub twice : (x : ℕ) → x < 2 ^ 32 → f (f x) ≡ x

low_word : (s r : ℕ) → r < 2 ^ 32 → (s / 2 ^ 32 * 2 ^ 32 + r) % 2 ^ 160 % 2 ^ 32 ≡ r
low_word s r h = omega arith

module _ (hash : BlockHash) where
  unfoldable pub num_from_id : ℕ → ℕ
  num_from_id id = hash.endian_reverse_u32 (id % 2 ^ 32)

  unfoldable pub block_num : SignedBlock → ℕ
  block_num b = (num_from_id b.previous + 1) % 2 ^ 32

  -- The first word of the hash is overwritten, and the first five words are kept.
  unfoldable pub block_id : SignedBlock → ℕ
  block_id b = (hash.sha224 b / 2 ^ 32 * 2 ^ 32 + hash.endian_reverse_u32 (block_num b)) % 2 ^ 160

  -- The number that is read back from a block's id is the block's number, where
  -- `endian_reverse_u32` is its own inverse on 32-bit words.
  pub num_from_id-block_id :
      IsByteSwap hash.endian_reverse_u32
      → (b : SignedBlock) → num_from_id (block_id b) ≡ block_num b
  unfolding num_from_id block_id block_num
  num_from_id-block_id swap b =
      let n : ℕ = block_num b in
      let below : n < 2 ^ 32 = omega arith in
      rw (num_from_id, low_word (hash.sha224 b) (hash.endian_reverse_u32 n) (swap.word n))
        (swap.twice n below)
