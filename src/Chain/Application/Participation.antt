-- ===== src/Chain/Application/Participation.antt =====
-- The record of the last 128 slots and the count of the filled ones.
use vidpow.Prelude.{ℕ, zero, suc, ◌+◌, ◌-◌, ◌*◌, ◌/◌, ◌%◌, ◌^◌, ◌≤◌, ◌<◌, ◌≡◌, ap, ◌∙◌, arith}
use mathlib.Core.Path.{ap₂}
use native.Mathlib.Numerals.{unary_clauses}
use native.Mathlib.Decide.{dec_lt}
use vidpow.Protocol.Block.{SignedBlock, BlockHash}
use vidpow.Chain.Ledger.State.{Chain}
use vidpow.Chain.Application.{shift_slot, shift_missed, record_block}

-- How many of the lowest `n` bits are set.
unfoldable pub ones : ℕ → ℕ → ℕ
ones zero x = 0
ones (suc n) x = x % 2 + ones n (x / 2)

pow-suc : (n : ℕ) → 2 ^ suc n ≡ 2 * 2 ^ n
pow-suc n = simp unary_clauses (omega arith)

ones-low : (n r : ℕ) → r < 2 ^ n → ones (suc n) r ≡ ones n r
unfolding ones
ones-low zero r h = omega arith
ones-low (suc n) r h = omega (arith, ones-low n (r / 2) (omega (arith, pow-suc n)))

ones-high : (n r : ℕ) → r < 2 ^ n → ones (suc n) (2 ^ n + r) ≡ suc (ones n r)
unfolding ones
ones-high zero r h = omega arith
ones-high (suc n) r h =
    let e : (2 ^ suc n + r) / 2 ≡ 2 ^ n + r / 2 = omega (arith, pow-suc n) in
    let f : (2 ^ suc n + r) % 2 ≡ r % 2 = omega (arith, pow-suc n) in
    let ih : ones (suc n) (2 ^ n + r / 2) ≡ suc (ones n (r / 2)) =
      ones-high n (r / 2) (omega (arith, pow-suc n)) in
    ap₂ ◌+◌ f (ap (ones (suc n)) e ∙ ih) ∙ omega arith

ones-le : (n x : ℕ) → ones n x ≤ n
unfolding ones
ones-le zero x = omega arith
ones-le (suc n) x = omega (arith, ones-le n (x / 2))

-- The count is that of the set bits of the record.
pub record Counts (slots : ℕ × ℕ) : Type 0 where
  pub recent : slots.0 < 2 ^ 128
  pub count : slots.1 ≡ ones 128 slots.0

ones-double : (n f x : ℕ) → f < 2 → ones (suc n) (x * 2 + f) ≡ f + ones n x
unfolding ones
ones-double n f x h =
    let e : (x * 2 + f) / 2 ≡ x = omega arith in ap₂ ◌+◌ (omega arith) (ap (ones n) e)

-- A bit is shifted in at the low end and one out at the high end.
ones-shift :
    (f x : ℕ)
    → f < 2
    → x < 2 ^ 128
    → ones 128 ((x * 2 + f) % 2 ^ 128) + x / 2 ^ 127 ≡ ones 128 x + f
ones-shift f x hf hx = elim (dec_lt x (2 ^ 127)) [
  | yes lt ↦
      let e : (x * 2 + f) % 2 ^ 128 ≡ x * 2 + f = omega arith in
      let z : x / 2 ^ 127 ≡ 0 = omega arith in
      let d : ones 128 ((x * 2 + f) % 2 ^ 128) ≡ f + ones 127 x =
        ap (ones 128) e ∙ ones-double 127 f x hf in
      omega (arith, d, z, ones-low 127 x lt)
  | no ge ↦
      let r = x - 2 ^ 127 in
      let e : (x * 2 + f) % 2 ^ 128 ≡ r * 2 + f = omega arith in
      let z : x / 2 ^ 127 ≡ 1 = omega arith in
      let y : x ≡ 2 ^ 127 + r = omega arith in
      let d : ones 128 ((x * 2 + f) % 2 ^ 128) ≡ f + ones 127 r =
        ap (ones 128) e ∙ ones-double 127 f r hf in
      let top : ones 128 x ≡ suc (ones 127 r) = ap (ones 128) y ∙ ones-high 127 r (omega arith) in
      omega (arith, d, z, top)
]

shift_slot-Counts :
    (filled : ℕ) (slots : ℕ × ℕ) → filled < 2 → Counts slots → Counts (shift_slot filled slots)
unfolding shift_slot
shift_slot-Counts filled (x, n) h c =
    let shifted = ones-shift filled x h (omega (arith, c.recent)) in
    record {
      recent = omega arith;
      count = omega (
        arith,
        c.count,
        c.recent,
        shifted,
        ones-le 128 x,
        ones-le 128 ((x * 2 + filled) % 2 ^ 128),
      );
    }

shift_missed-Counts :
    (missed : ℕ) (slots : ℕ × ℕ) → Counts slots → Counts (shift_missed missed slots)
unfolding shift_missed
shift_missed-Counts zero slots c = c
shift_missed-Counts (suc missed) slots c =
    shift_missed-Counts missed (shift_slot 0 slots) (shift_slot-Counts 0 slots (omega arith) c)

-- Where the count of filled slots is the number of bits that are set in the record of the last 128
-- slots, it is so after a block with any number of missed slots: neither of the two counters wraps
-- around.
pub record_block-Counts :
    (hash : BlockHash) (b : SignedBlock) (missed : ℕ) (c : Chain)
    → Counts (c.gpo.recent_slots_filled, c.gpo.participation_count)
    → let c' = record_block hash b missed c in
      Counts (c'.gpo.recent_slots_filled, c'.gpo.participation_count)
unfolding record_block
record_block-Counts hash b missed c h =
    shift_missed-Counts missed _ (shift_slot-Counts 1 _ (omega arith) h)
