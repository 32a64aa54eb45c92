-- ===== src/Chain/Slots/Tests.antt =====
-- The theorems on slots and inflation, at the chain of the other tests.
use vidpow.Prelude.{◌≡◌, ◌≤◌, refl, arith, ok}
use vidpow.Chain.Slots.{
  get_slot_time, get_slot_at_time, witness_at, get_scheduled_witness, start_rate, rate_in_year,
  get_current_inflation_rate,
}
use vidpow.Chain.Slots.Times.{get_slot_at_time-get_slot_time}
use vidpow.Chain.Slots.Inflation.{inflation_rate_antitone}
use vidpow.Chain.Evaluators.Tests.{chain}

fifth : get_slot_time 5 chain ≡ 36
unfolding get_slot_time
fifth = refl

scheduled : get_scheduled_witness 1 chain ≡ ok 3
unfolding get_scheduled_witness witness_at
scheduled = refl

second_year : get_current_inflation_rate 15768000 ≡ 3750
unfolding get_current_inflation_rate start_rate rate_in_year
second_year = refl

get_slot_at_time-get_slot_time_example : get_slot_at_time (get_slot_time 5 chain) chain ≡ 5
get_slot_at_time-get_slot_time_example =
    get_slot_at_time-get_slot_time chain 5 (omega arith) (omega arith)

inflation_rate_antitone_example :
    (get_current_inflation_rate 15768000 ≤ get_current_inflation_rate 100)
    × (488 ≤ get_current_inflation_rate 15768000)
    × (get_current_inflation_rate 100 ≤ 10000)
inflation_rate_antitone_example = inflation_rate_antitone 100 15768000 (omega arith)
