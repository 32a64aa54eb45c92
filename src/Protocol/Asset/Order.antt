-- ===== src/Protocol/Asset/Order.antt =====
-- asset.cpp: the order on prices, by cross products.
use vidpow.Prelude.{
  ℕ, ◌⊎◌, ap, ◌-◌, ◌+◌, ◌*◌, ◌%◌, ◌^◌, ◌≤◌, ◌<◌, ◌≡◌, true, arith, ltb, inl, inr, Bool, false,
  if◌then◌else◌, Bool-cases,
}
use vidpow.Prelude.Int.{ℤ, pos}
use vidpow.Protocol.Asset.{Price, to_u128, price_lt, price_eq}
use vidpow.Protocol.Asset.Rounding.{mul_lt}

-- An amount that is positive.
abbrev pub Positive : ℤ → Type 0
Positive x = (n : ℕ) × (x ≡ pos n) × (0 < n) × (n < 2 ^ 63)

product : (n m : ℕ) → n < 2 ^ 63 → m < 2 ^ 63 → to_u128 (pos n) * to_u128 (pos m) % 2 ^ 128 ≡ n * m
unfolding to_u128
product n m hn hm =
    let en : n % 2 ^ 128 ≡ n = omega arith in
    let em : m % 2 ^ 128 ≡ m = omega arith in
    let small : n * m < 2 ^ 63 * 2 ^ 63 = mul_lt n m (2 ^ 63) (2 ^ 63) hn hm in
    rw (en, em) (omega (arith, small))

-- Less by cross products is transitive.
cross : (ab aq bb bq cb cq : ℕ) → 0 < cb → bq * ab < aq * bb → cq * bb < bq * cb → cq * ab < aq * cb
cross ab aq bb bq cb cq p h k = elim (Bool-cases (ltb (cq * ab) (aq * cb))) [
  | inl t ↦ ground arith
  | inr f ↦
      let low : aq * cb ≤ cq * ab = ground arith in
      let i : ℕ = cq * ab - aq * cb in
      let j : ℕ = bq * cb - cq * bb - 1 in
      let l : ℕ = aq * bb - bq * ab - 1 in
      let e1 : cq * ab ≡ aq * cb + i = omega arith in
      let e2 : bq * cb ≡ cq * bb + 1 + j = omega arith in
      let e3 : aq * bb ≡ bq * ab + 1 + l = omega arith in
      let f1 : cq * ab * bb ≡ (aq * cb + i) * bb = ap (λ z. z * bb) e1 in
      let f2 : bq * cb * ab ≡ (cq * bb + 1 + j) * ab = ap (λ z. z * ab) e2 in
      let f3 : aq * bb * cb ≡ (bq * ab + 1 + l) * cb = ap (λ z. z * cb) e3 in
      absurd (omega (arith, f1, f2, f3, p))
]

-- First by the symbols of the bases, then by those of the quotes, then by the last test.
abbrev by_symbols : ℕ → ℕ → ℕ → ℕ → Bool → Bool
by_symbols s t u v last =
    if ltb s t
    then true
    else if ltb t s
    then false
    else if ltb u v
    then true
    else if ltb v u
    then false
    else last

by_symbols_trans :
    (s t r u v w : ℕ) (x y z : Bool)
    → (x ≡ true → y ≡ true → z ≡ true)
    → by_symbols s t u v x ≡ true
    → by_symbols t r v w y ≡ true
    → by_symbols s r u w z ≡ true
by_symbols_trans s t r u v w x y z last h k = ground (arith, last)

abbrev less : ℤ → ℤ → ℤ → ℤ → Bool
less ab aq bb bq = ltb (to_u128 bq * to_u128 ab % 2 ^ 128) (to_u128 aq * to_u128 bb % 2 ^ 128)

less_trans :
    (ab aq bb bq cb cq : ℤ)
    → Positive ab
    → Positive aq
    → Positive bb
    → Positive bq
    → Positive cb
    → Positive cq
    → less ab aq bb bq ≡ true
    → less bb bq cb cq ≡ true
    → less ab aq cb cq ≡ true
less_trans ab aq bb bq cb cq (m, em, pm, hm) (n, en, pn, hn) (k, ek, pk, hk) (l, el, pl, hl)
      (i, ei, pi, hi) (j, ej, pj, hj) =
    rw (em, en, ek, el, ei, ej)
      (λ h h'.
        let low : l * m < n * k = ground (arith, h, product l m hl hm, product n k hn hk) in
        let high : j * k < l * i = ground (arith, h', product j k hj hk, product l i hl hi) in
        let outer : j * m < n * i = cross m n k l i j pi low high in
        ground (arith, outer, product j m hj hm, product n i hn hi))

-- On prices whose amounts are positive and fit in 63 bits, the order by symbols and cross products
-- is transitive: a price that is less than one that is less than a third is less than the third.
pub price_lt_trans :
    (a b c : Price)
    → Positive a.base.amount
    → Positive a.quote.amount
    → Positive b.base.amount
    → Positive b.quote.amount
    → Positive c.base.amount
    → Positive c.quote.amount
    → price_lt a b ≡ true
    → price_lt b c ≡ true
    → price_lt a c ≡ true
unfolding price_lt
price_lt_trans a b c hab haq hbb hbq hcb hcq h k =
    by_symbols_trans a.base.symbol b.base.symbol c.base.symbol a.quote.symbol b.quote.symbol
      c.quote.symbol (less a.base.amount a.quote.amount b.base.amount b.quote.amount)
      (less b.base.amount b.quote.amount c.base.amount c.quote.amount)
      (less a.base.amount a.quote.amount c.base.amount c.quote.amount)
      (less_trans a.base.amount a.quote.amount b.base.amount b.quote.amount c.base.amount
        c.quote.amount hab haq hbb hbq hcb hcq)
      h k

-- Exactly one of the three tests is true.
abbrev pub OneOf : Bool → Bool → Bool → Type 0
OneOf x y z =
    ((x ≡ true) × (y ≡ false) × (z ≡ false))
    ⊎ (((x ≡ false) × (y ≡ true) × (z ≡ false)) ⊎ ((x ≡ false) × (y ≡ false) × (z ≡ true)))

-- Of two prices exactly one is true: the first is less, the second is less, or they are equal.
pub price_lt-OneOf : (a b : Price) → OneOf (price_lt a b) (price_lt b a) (price_eq a b)
unfolding price_lt price_eq
price_lt-OneOf a b = ground arith
