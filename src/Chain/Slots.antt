-- ===== src/Chain/Slots.antt =====
-- database.cpp: the slots for blocks, and the inflation rate of a block. Times are `uint32_t` seconds
-- and wrap around; WLS_BLOCK_INTERVAL is 3, and a year has 10512000 blocks.
pub mod Times
pub mod Inflation
mod Tests
use vidpow.Prelude.{
  ℕ, zero, suc, ◌+◌, ◌-◌, ◌*◌, ◌/◌, ◌%◌, ◌^◌, min, max, List, [], ◌∷◌, ltb, ◌==◌, if◌then◌else◌,
}
use vidpow.Prelude.{Result, ok, err, null_pointer}
use vidpow.Chain.Ledger.State.{Chain}

unfoldable pub get_slot_time : ℕ → Chain → ℕ
get_slot_time slot_num c =
    let offset = slot_num * 3 % 2 ^ 32 in
    if slot_num == 0
    then 0
    else if c.gpo.head_block_number == 0
    then (c.gpo.time + offset) % 2 ^ 32
    else (c.gpo.time / 3 * 3 + offset) % 2 ^ 32

unfoldable pub get_slot_at_time : ℕ → Chain → ℕ
get_slot_at_time when c =
    let first_slot_time = get_slot_time 1 c in
    if ltb when first_slot_time then 0 else ((when - first_slot_time) / 3 + 1) % 2 ^ 32

-- `current_shuffled_witnesses[ n ]`, which must be there.
unfoldable pub witness_at : ℕ → List ℕ → Result ℕ
witness_at n [] = err null_pointer
witness_at zero (w ∷ ws) = ok w
witness_at (suc n) (w ∷ ws) = witness_at n ws

unfoldable pub get_scheduled_witness : ℕ → Chain → Result ℕ
get_scheduled_witness slot_num c =
    let current_aslot = (c.gpo.current_aslot + slot_num) % 2 ^ 64 in
    if c.schedule.num_scheduled_witnesses == 0
    then err null_pointer
    else witness_at (current_aslot % c.schedule.num_scheduled_witnesses)
        c.schedule.current_shuffled_witnesses

abbrev pub blocks_per_year : ℕ
blocks_per_year = 10512000

-- `start_inflation_rate` of a year; the rate falls from it to half of it.
unfoldable pub start_rate : ℕ → ℕ
start_rate year = 10000 / 2 ^ year

unfoldable pub rate_in_year : ℕ → ℕ → ℕ
rate_in_year start blocks =
    let dif = start - start / 2 in max (start - blocks * dif / blocks_per_year) 488

-- `get_current_inflation_rate`, of the head block's number.
unfoldable pub get_current_inflation_rate : ℕ → ℕ
get_current_inflation_rate head_block_num =
    rate_in_year (start_rate (min (head_block_num / blocks_per_year) 8))
      (head_block_num % blocks_per_year)
