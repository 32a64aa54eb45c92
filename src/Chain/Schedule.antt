-- ===== src/Chain/Schedule.antt =====
-- libraries/chain/witness_schedule.cpp: the shuffle of the scheduled witnesses. The array
-- `current_shuffled_witnesses` is a list.
pub mod Shuffle
mod Tests
use Prim.Native.Nat.{bit_xor}
use vidpow.Prelude.{
  ℕ, zero, suc, ◌+◌, ◌-◌, ◌*◌, ◌/◌, ◌%◌, ◌^◌, Bool, true, false, ◌==◌, leb, if◌then◌else◌, Option,
  none, some, List, [], ◌∷◌, length, get_elem?, set, take, map,
}
use vidpow.Prelude.{Result, ok, err, ◌>>=◌, or_throw, null_pointer}
use vidpow.Prelude.Int.{ℤ, pos, negsuc}
use vidpow.Chain.Ledger.State.{Chain, Witness, get_witness}

-- The generator's number for position `i`, over 64-bit words.
pub random : ℕ → ℕ → ℕ
random now_hi i =
    let k0 = (now_hi + i * 2685821657736338717 % 2 ^ 64) % 2 ^ 64 in
    let k1 = bit_xor k0 (k0 / 2 ^ 12) in
    let k2 = bit_xor k1 (k1 * 2 ^ 25 % 2 ^ 64) in
    let k3 = bit_xor k2 (k2 / 2 ^ 27) in k3 * 2685821657736338717 % 2 ^ 64

-- `std::swap( a[ i ], a[ j ] )`, for positions in the array.
pub swap : ℕ → ℕ → List ℕ → List ℕ
swap i j xs = elim (get_elem? xs i) [
  | none ↦ xs
  | some x ↦ elim (get_elem? xs j) [ none ↦ xs | some y ↦ set (set xs i y) j x ]
]

-- The loop of the shuffle, `count` rounds from position `i` on; `i + count` is the number of witnesses.
pub shuffle : ℕ → ℕ → ℕ → List ℕ → List ℕ
unfolding random swap
shuffle now_hi zero i xs = xs
shuffle now_hi (suc count) i xs =
    shuffle now_hi count (suc i) (swap i (i + random now_hi i % suc count % 2 ^ 32) xs)

-- The loop over the whole array, at a head block's time.
pub shuffle_witnesses : ℕ → ℕ → List ℕ → List ℕ
unfolding shuffle
shuffle_witnesses time num_scheduled xs = shuffle (time * 2 ^ 32 % 2 ^ 64) num_scheduled 0 xs
