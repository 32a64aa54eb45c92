-- ===== src/Chain/Application/Finality.antt =====
-- libraries/chain/database.cpp: the last irreversible block, and the entries against duplicates that
-- have expired. WLS_START_MINER_VOTING_BLOCK is 30, WLS_IRREVERSIBLE_THRESHOLD 75%.
use vidpow.Prelude.{
  ℕ, zero, suc, ◌+◌, ◌-◌, ◌*◌, ◌/◌, ◌≤◌, ◌<◌, ◌≡◌, refl, ◌⊎◌, inl, inr, Bool-cases, ltb, leb,
  leb→le, if◌then◌else◌, some, List, [], ◌∷◌, length, get_elem?, take, arith, In,
}
use vidpow.Prelude.{Result, ok, ◌>>=◌, or_throw, or_throw-ok, null_pointer, Ensures, after, finally}
use vidpow.Chain.Ledger.State.{Chain, Transaction, get_witness}

-- The order that `std::nth_element` would leave, as far as it fixes one element.
unfoldable pub insert_sorted : ℕ → List ℕ → List ℕ
insert_sorted n [] = n ∷ []
insert_sorted n (x ∷ xs) = if leb n x then n ∷ x ∷ xs else x ∷ insert_sorted n xs

unfoldable pub sorted : List ℕ → List ℕ
unfolding insert_sorted
sorted [] = []
sorted (x ∷ xs) = insert_sorted x (sorted xs)

-- `last_confirmed_block_num` of the scheduled witnesses.
unfoldable pub confirmed : List ℕ → Chain → Result (List ℕ)
confirmed [] c = ok []
confirmed (name ∷ names) c = do
  w ← get_witness name c
  ns ← confirmed names c
  ok (w.last_confirmed_block_num ∷ ns)

unfoldable pub irreversible_offset : ℕ → ℕ
irreversible_offset size = (10000 - 7500) * size / 10000

-- The number that `std::nth_element` puts at the offset.
unfoldable pub voted_irreversible : List ℕ → Result ℕ
unfolding sorted irreversible_offset
voted_irreversible ns =
    or_throw (get_elem? (sorted ns) (irreversible_offset (length ns))) null_pointer

unfoldable pub vote_irreversible : Chain → Result Chain
unfolding confirmed voted_irreversible
vote_irreversible c = do
  ns ← confirmed (take c.schedule.num_scheduled_witnesses c.schedule.current_shuffled_witnesses) c
  new ← voted_irreversible ns
  ok (
      if ltb c.gpo.last_irreversible_block_num new
      then record c { gpo = record c.gpo { last_irreversible_block_num = new } }
      else c)

-- `update_last_irreversible_block`, up to the new number.
unfoldable pub update_last_irreversible_block : Chain → Result Chain
unfolding vote_irreversible
update_last_irreversible_block c =
    let head = c.gpo.head_block_number in
    if ltb head 30
    then ok (
        if ltb 21 head
        then record c { gpo = record c.gpo { last_irreversible_block_num = head - 21 } }
        else c)
    else vote_irreversible c

-- `while( head_block_time() > begin()->expiration ) remove( *begin() );`
pub drop_expired : ℕ → List Transaction → List Transaction
drop_expired now [] = []
drop_expired now (t ∷ ts) = if ltb t.expiration now then drop_expired now ts else t ∷ ts

unfoldable pub clear_expired_transactions : Chain → Chain
unfolding drop_expired
clear_expired_transactions c = record c { transactions = drop_expired c.gpo.time c.transactions }

-- How many of the numbers are `k` or higher.
abbrev pub at_least : ℕ → List ℕ → ℕ
at_least k [] = 0
at_least k (x ∷ xs) = if leb k x then suc (at_least k xs) else at_least k xs

abbrev Sorted : List ℕ → Type 0
Sorted [] = Unit
Sorted (x ∷ xs) = (at_least x xs ≡ length xs) × Sorted xs

at_least-le : (k : ℕ) (xs : List ℕ) → at_least k xs ≤ length xs
at_least-le k [] = omega arith
at_least-le k (x ∷ xs) = ground (arith, at_least-le k xs)

at_least-insert : (k n : ℕ) (xs : List ℕ) → at_least k (insert_sorted n xs) ≡ at_least k (n ∷ xs)
unfolding insert_sorted
at_least-insert k n [] = refl
at_least-insert k n (x ∷ xs) = ground (arith, at_least-insert k n xs)

at_least-sorted : (k : ℕ) (xs : List ℕ) → at_least k (sorted xs) ≡ at_least k xs
unfolding sorted
at_least-sorted k [] = refl
at_least-sorted k (x ∷ xs) = ground (arith, at_least-insert k x (sorted xs), at_least-sorted k xs)

length-insert : (n : ℕ) (xs : List ℕ) → length (insert_sorted n xs) ≡ suc (length xs)
unfolding insert_sorted
length-insert n [] = refl
length-insert n (x ∷ xs) = ground (arith, length-insert n xs)

length-sorted : (xs : List ℕ) → length (sorted xs) ≡ length xs
unfolding sorted
length-sorted [] = refl
length-sorted (x ∷ xs) = omega (arith, length-insert x (sorted xs), length-sorted xs)

at_least-lower : (j k : ℕ) (xs : List ℕ) → j ≤ k → at_least k xs ≤ at_least j xs
at_least-lower j k [] h = omega arith
at_least-lower j k (x ∷ xs) h = ground (arith, at_least-lower j k xs h)

insert-Sorted : (n : ℕ) (xs : List ℕ) → Sorted xs → Sorted (insert_sorted n xs)
unfolding insert_sorted
insert-Sorted n [] s = (refl, tt)
insert-Sorted n (x ∷ xs) s = elim (Bool-cases (leb n x)) [
  | inl t ↦
      let lower = at_least-lower n x xs (leb→le n x t) in
      rw t (ground (arith, lower, at_least-le n xs, s.0), s)
  | inr f ↦
      rw f (ground (arith, at_least-insert x n xs, length-insert n xs, s.0), insert-Sorted n xs s.1)
]

sorted-Sorted : (xs : List ℕ) → Sorted (sorted xs)
unfolding sorted
sorted-Sorted [] = tt
sorted-Sorted (x ∷ xs) = insert-Sorted x (sorted xs) (sorted-Sorted xs)

-- From a position of a sorted list on, no number is lower.
get_elem?-Sorted :
    (xs : List ℕ) (i : ℕ) {v : ℕ}
    → Sorted xs
    → get_elem? xs i ≡ some v
    → length xs ≤ i + at_least v xs
get_elem?-Sorted [] i s e = cc
get_elem?-Sorted (x ∷ xs) zero s e = ground (arith, s.0)
get_elem?-Sorted (x ∷ xs) (suc i) {v} s e = ground (arith, get_elem?-Sorted xs i {v = v} s.1 e)

-- Three quarters of the numbers are at least as high as the one at the offset.
voted_irreversible-Confirmed :
    (ns : List ℕ) {v : ℕ} → voted_irreversible ns ≡ ok v → 3 * length ns ≤ 4 * at_least v ns
unfolding voted_irreversible irreversible_offset
voted_irreversible-Confirmed ns {v} e =
    let g = or_throw-ok (get_elem? (sorted ns) (irreversible_offset (length ns))) null_pointer e in
    omega (
      arith,
      get_elem?-Sorted (sorted ns) (irreversible_offset (length ns)) {v = v} (sorted-Sorted ns) g,
      at_least-sorted v ns,
      length-sorted ns,
    )

-- The number was confirmed by three quarters of the scheduled witnesses, or it stayed.
abbrev pub Voted : Chain → Chain → Type 0
Voted c c' =
    (c' ≡ c)
    ⊎ ((ns : List ℕ) × (confirmed
            (take c.schedule.num_scheduled_witnesses c.schedule.current_shuffled_witnesses) c
          ≡ ok ns)
        × (3 * length ns ≤ 4 * at_least c'.gpo.last_irreversible_block_num ns))

vote_irreversible-Voted :
    (c : Chain)
    → Ensures (vote_irreversible c) (λ c'.
      (c.gpo.last_irreversible_block_num ≤ c'.gpo.last_irreversible_block_num) × Voted c c')
unfolding vote_irreversible
vote_irreversible-Voted c =
    let names = take c.schedule.num_scheduled_witnesses c.schedule.current_shuffled_witnesses in
    after (confirmed names c) (λ ns en. after (voted_irreversible ns) (λ v ev.
      let most = voted_irreversible-Confirmed ns {v = v} ev in
      elim (Bool-cases (ltb c.gpo.last_irreversible_block_num v)) [
        | inl t ↦ finally (rw t (ground arith, inr (ns, en, most)))
        | inr f ↦ finally (rw f (omega arith, inl refl))
      ]))

-- From block 30 on, the update never lowers the last irreversible block, and where it changes
-- anything, at least three quarters of the scheduled witnesses have confirmed a block as high as
-- the new number.
pub update_last_irreversible_block-Voted :
    (c : Chain) {c' : Chain}
    → 30 ≤ c.gpo.head_block_number
    → update_last_irreversible_block c ≡ ok c'
    → (c.gpo.last_irreversible_block_num ≤ c'.gpo.last_irreversible_block_num) × Voted c c'
unfolding update_last_irreversible_block
update_last_irreversible_block-Voted c {c'} old e =
    (vote_irreversible-Voted c).on_ok c' (ground arith)

-- What is dropped has expired.
pub drop_expired-In :
    (now : ℕ) (x : Transaction) (ts : List Transaction)
    → In x ts
    → In x (drop_expired now ts) ⊎ (x.expiration < now)
unfolding drop_expired
drop_expired-In now x [] m = inl m
drop_expired-In now x (t ∷ ts) m = ground (arith, drop_expired-In now x ts)
