-- ===== src/Chain/Slots/Times.antt =====
-- database.cpp: `get_slot_at_time` against `get_slot_time`.
use vidpow.Prelude.{ℕ, ◌+◌, ◌*◌, ◌^◌, ◌<◌, ◌≡◌, arith}
use vidpow.Chain.Ledger.State.{Chain}
use vidpow.Chain.Slots.{get_slot_time, get_slot_at_time}

-- The slot at the time of a slot after the head block is that slot, as long as its time fits in 32
-- bits.
pub get_slot_at_time-get_slot_time :
    (c : Chain) (n : ℕ)
    → 0 < n
    → c.gpo.time + 3 * n < 2 ^ 32
    → get_slot_at_time (get_slot_time n c) c ≡ n
unfolding get_slot_at_time get_slot_time
get_slot_at_time-get_slot_time c n p h = ground arith
