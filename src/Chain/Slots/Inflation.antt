-- ===== src/Chain/Slots/Inflation.antt =====
-- database.cpp: the inflation rate over the numbers of the head block.
use vidpow.Prelude.{
  ℕ, zero, suc, ◌+◌, ◌-◌, ◌*◌, ◌/◌, ◌%◌, min, max, ◌≤◌, ◌<◌, ◌≡◌, refl, sym, ◌∙◌, subst, arith, ltb,
  Bool-cases, inl, inr,
}
use vidpow.Chain.Slots.{blocks_per_year, start_rate, rate_in_year, get_current_inflation_rate}

pub mul_le : (a b d : ℕ) → a ≤ b → a * d ≤ b * d
mul_le a b d h =
    let k : ℕ = b - a in
    let e : a + k ≡ b = omega arith in
    let step : a * d ≤ (a + k) * d = omega arith in subst (λ x. a * d ≤ x * d) e step

-- Later in a year the rate is no higher.
rate_in_year-le : (start a b : ℕ) → a ≤ b → rate_in_year start b ≤ rate_in_year start a
unfolding rate_in_year
rate_in_year-le start a b h = omega (arith, mul_le a b (start - start / 2) h)

rate_in_year-low : (start a : ℕ) → a < blocks_per_year → max (start / 2) 488 ≤ rate_in_year start a
unfolding rate_in_year
rate_in_year-low start a h =
    let d : ℕ = start - start / 2 in
    let m : a * d ≤ blocks_per_year * d = mul_le a blocks_per_year d (omega arith) in
    let q : a * d / blocks_per_year ≤ d = omega (arith, m) in omega (arith, q)

rate_in_year-high : (start a : ℕ) → rate_in_year start a ≤ max start 488
unfolding rate_in_year
rate_in_year-high start a = omega arith

halves : (y : ℕ) → y < 8 → start_rate (suc y) ≡ start_rate y / 2
unfolding start_rate
halves zero h = refl
halves (suc zero) h = refl
halves (suc (suc zero)) h = refl
halves (suc (suc (suc zero))) h = refl
halves (suc (suc (suc (suc zero)))) h = refl
halves (suc (suc (suc (suc (suc zero))))) h = refl
halves (suc (suc (suc (suc (suc (suc zero)))))) h = refl
halves (suc (suc (suc (suc (suc (suc (suc zero))))))) h = refl
halves (suc (suc (suc (suc (suc (suc (suc (suc n)))))))) h = absurd (omega arith)

later_year : (k y : ℕ) → y + suc k ≤ 8 → start_rate (y + suc k) ≤ start_rate y / 2
later_year zero y h =
    let e : suc y ≡ y + 1 = omega arith in
    let low : start_rate (suc y) ≤ start_rate y / 2 = omega (arith, halves y (omega arith)) in
    subst (λ x. start_rate x ≤ start_rate y / 2) e low
later_year (suc k) y h =
    let e : suc (y + suc k) ≡ y + suc (suc k) = omega arith in
    let half = halves (y + suc k) (omega arith) in
    let before = later_year k y (omega arith) in
    let low : start_rate (suc (y + suc k)) ≤ start_rate y / 2 = omega (arith, half, before) in
    subst (λ x. start_rate x ≤ start_rate y / 2) e low

rates-le :
    (y z a b : ℕ)
    → y < z
    → z ≤ 8
    → a < blocks_per_year
    → rate_in_year (start_rate z) b ≤ rate_in_year (start_rate y) a
rates-le y z a b h w l =
    let e : y + suc (z - y - 1) ≡ z = omega arith in
    let s : start_rate z ≤ start_rate y / 2 =
      subst (λ x. start_rate x ≤ start_rate y / 2) e (later_year (z - y - 1) y (omega arith)) in
    omega (arith, s, rate_in_year-high (start_rate z) b, rate_in_year-low (start_rate y) a l)

-- The year that a block counts in, and what the rate in it is at the end.
floor_rate : (a : ℕ) → rate_in_year (start_rate 8) a ≡ 488
unfolding rate_in_year start_rate
floor_rate a = omega arith

start_rate-le : (y : ℕ) → y ≤ 8 → start_rate y ≤ 10000
unfolding start_rate
start_rate-le y h = omega arith

rate-antitone :
    (m n y z : ℕ)
    → m ≤ n
    → y ≡ min (m / blocks_per_year) 8
    → z ≡ min (n / blocks_per_year) 8
    → rate_in_year (start_rate z) (n % blocks_per_year)
      ≤ rate_in_year (start_rate y) (m % blocks_per_year)
rate-antitone m n y z h ey ez = elim (Bool-cases (ltb y z)) [
  | inl t ↦
      rates-le y z (m % blocks_per_year) (n % blocks_per_year) (ground arith) (omega arith)
        (omega arith)
  | inr f ↦
      let same : y ≡ z = ground arith in
      elim (Bool-cases (ltb z 8)) [
        | inl b ↦
            let r : m % blocks_per_year ≤ n % blocks_per_year = ground arith in
            subst
              (λ x.
                rate_in_year (start_rate z) (n % blocks_per_year)
                ≤ rate_in_year (start_rate x) (m % blocks_per_year))
              (sym same)
              (rate_in_year-le (start_rate z) (m % blocks_per_year) (n % blocks_per_year) r)
        | inr l ↦
            let e : 8 ≡ z = ground arith in
            subst
              (λ x.
                rate_in_year (start_rate x) (n % blocks_per_year)
                ≤ rate_in_year (start_rate y) (m % blocks_per_year))
              e
              (subst
                (λ x.
                  rate_in_year (start_rate 8) (n % blocks_per_year)
                  ≤ rate_in_year (start_rate x) (m % blocks_per_year))
                (e ∙ sym same)
                (omega (arith, floor_rate (m % blocks_per_year), floor_rate (n % blocks_per_year))))
      ]
]

-- A later block has an inflation rate that is no higher, at least 4.88% and at most 100%.
pub inflation_rate_antitone :
    (m n : ℕ)
    → m ≤ n
    → (get_current_inflation_rate n ≤ get_current_inflation_rate m)
      × (488 ≤ get_current_inflation_rate n)
      × (get_current_inflation_rate m ≤ 10000)
unfolding get_current_inflation_rate
inflation_rate_antitone m n h = (
  rate-antitone m n (min (m / blocks_per_year) 8) (min (n / blocks_per_year) 8) h refl refl,
  omega (
    arith,
    rate_in_year-low (start_rate (min (n / blocks_per_year) 8)) (n % blocks_per_year) (omega arith),
  ),
  omega (
    arith,
    rate_in_year-high (start_rate (min (m / blocks_per_year) 8)) (m % blocks_per_year),
    start_rate-le (min (m / blocks_per_year) 8),
  ),
)
