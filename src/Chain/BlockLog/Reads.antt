-- ===== src/Chain/BlockLog/Reads.antt =====
-- Reading the block log by a block's number.
use vidpow.Prelude.{
  ℕ, zero, suc, ◌+◌, ◌-◌, ◌%◌, ◌^◌, ◌<◌, ◌≤◌, ◌≡◌, ◌≢◌, refl, sym, subst, ◌∙◌, inl, inr, ◌==◌, ltb,
  if◌then◌else◌, Bool-cases, none, some, Option-cases, List, [], ◌∷◌, ◌++◌, length, get_elem?,
  arith,
}
use vidpow.Prelude.{ok, err, out_of_fuel, ok-injective}
use vidpow.Protocol.Block.{
  SignedBlock, BlockHash, IsByteSwap, block_num, block_id, num_from_id, num_from_id-block_id,
}
use vidpow.Chain.BlockLog.{head, get_block_pos, read_block_by_num, append}

module _ (hash : BlockHash) where
  -- The blocks' numbers count on from `n`.
  abbrev pub IsNumbered : ℕ → List SignedBlock → Type 0
  IsNumbered n [] = Unit
  IsNumbered n (b ∷ log) = (block_num hash b ≡ suc n) × IsNumbered (suc n) log

  IsNumbered-append :
      (n : ℕ) (log : List SignedBlock) (b : SignedBlock)
      → IsNumbered n log
      → block_num hash b ≡ suc (n + length log)
      → IsNumbered n (log ++ b ∷ [])
  IsNumbered-append n [] b h e = (omega arith, tt)
  IsNumbered-append n (x ∷ log) b h e = (h.0, IsNumbered-append (suc n) log b h.1 (omega arith))

  block_num-lt : (b : SignedBlock) → block_num hash b < 2 ^ 32
  unfolding block_num
  block_num-lt b = omega arith

  -- A block that is appended to a log of fewer than 2^32 - 1 blocks numbered from 1 is added at its
  -- end, and the blocks stay numbered from 1.
  pub append-IsNumbered :
      (b : SignedBlock) (log : List SignedBlock) {log' : List SignedBlock}
      → append hash b log ≡ ok log'
      → length log < 2 ^ 32 - 1
      → IsNumbered 0 log
      → (log' ≡ log ++ b ∷ []) × IsNumbered 0 log'
  unfolding append
  append-IsNumbered b log {log'} e small h =
      elim (Bool-cases (length log == (block_num hash b + 2 ^ 32 - 1) % 2 ^ 32)) [
        | inl t ↦
            let q : log ++ b ∷ [] ≡ log' = ok-injective (ground arith) in
            let n : block_num hash b ≡ suc (length log) = ground (arith, block_num-lt b) in
            (sym q, subst (IsNumbered 0) q (IsNumbered-append 0 log b h (omega arith)))
        | inr f ↦ absurd (ground arith)
      ]

  head-IsNumbered :
      (n : ℕ) (b : SignedBlock) (log : List SignedBlock)
      → IsNumbered n (b ∷ log)
      → (h : SignedBlock) × (head (b ∷ log) ≡ some h) × (block_num hash h ≡ suc n + length log)
  unfolding head
  head-IsNumbered n b [] v = (b, refl, omega (arith, v.0))
  head-IsNumbered n b (c ∷ log) v =
      let (h, e, m) = head-IsNumbered (suc n) c log v.1 in (h, e, omega arith)

  get_elem?-IsNumbered :
      (n i : ℕ) (log : List SignedBlock) (b : SignedBlock)
      → IsNumbered n log
      → get_elem? log i ≡ some b
      → block_num hash b ≡ suc (n + i)
  get_elem?-IsNumbered n i [] b v e = cc
  get_elem?-IsNumbered n zero (x ∷ log) b v e = ground (arith, v.0)
  get_elem?-IsNumbered n (suc i) (x ∷ log) b v e =
      omega (arith, get_elem?-IsNumbered (suc n) i log b v.1 e)

  get_elem?-length : {A : Type 0} (xs : List A) (i : ℕ) → length xs ≤ i → get_elem? xs i ≡ none
  get_elem?-length [] i h = refl
  get_elem?-length (x ∷ xs) zero h = absurd (omega arith)
  get_elem?-length (x ∷ xs) (suc i) h = get_elem?-length xs i (omega arith)

  get_block_pos-head :
      (log : List SignedBlock) (h : SignedBlock) (i : ℕ)
      → head log ≡ some h
      → num_from_id hash (block_id hash h) ≡ length log
      → (get_block_pos hash 0 log ≡ none)
        × (get_block_pos hash (suc i) log ≡ (if ltb i (length log) then some i else none))
  unfolding get_block_pos
  get_block_pos-head log h i e n = (ground arith, ground arith)

  -- Where the index has the positions below the length, reading gives the blocks there.
  read-positions :
      (log : List SignedBlock) (i : ℕ)
      → IsNumbered 0 log
      → get_block_pos hash 0 log ≡ none
      → get_block_pos hash (suc i) log ≡ (if ltb i (length log) then some i else none)
      → (read_block_by_num hash 0 log ≡ ok none)
        × (read_block_by_num hash (suc i) log ≡ ok (get_elem? log i))
  unfolding read_block_by_num
  read-positions log i v p q = (
    ground arith,
    elim (Option-cases (get_elem? log i)) [
      | inl e ↦ ground arith
      | inr (b, e) ↦
          let n = get_elem?-IsNumbered 0 i log b v e in
          elim (Bool-cases (ltb i (length log))) [
            | inl t ↦ ground (arith, n)
            | inr f ↦ absurd (ground (arith, get_elem?-length log i))
          ]
    ],
  )

  -- With a byte swap that is its own inverse, on a log whose blocks are numbered from 1, number 0
  -- reads nothing and number i + 1 reads the block at position i, where there is one; no read
  -- fails.
  pub read_block_by_num-get :
      IsByteSwap hash.endian_reverse_u32
      → (log : List SignedBlock) (i : ℕ) → IsNumbered 0 log
      → (read_block_by_num hash 0 log ≡ ok none)
        × (read_block_by_num hash (suc i) log ≡ ok (get_elem? log i))
  unfolding read_block_by_num get_block_pos head
  read_block_by_num-get swap [] i v = (refl, refl)
  read_block_by_num-get swap (b ∷ log) i v =
      let (h, e, m) = head-IsNumbered 0 b log v in
      let (p, q) =
        get_block_pos-head (b ∷ log) h i e (num_from_id-block_id hash swap h ∙ m ∙ omega arith) in
      read-positions (b ∷ log) i v p q

  pub read_block_by_num-ne :
      (n : ℕ) (log : List SignedBlock) → read_block_by_num hash n log ≢ err out_of_fuel
  unfolding read_block_by_num
  read_block_by_num-ne n log e = ground arith
