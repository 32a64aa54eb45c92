-- ===== src/Protocol/Asset/Rounding.antt =====
-- asset.cpp: the conversion of an asset by a price, and its rounding.
use native.Mathlib.Nat.{div-lt_iff_lt-mul, mod-add-div, mod-lt}
use vidpow.Prelude.{
  ℕ, true, List, [], ◌∷◌, inl, inr, ap, sym, Bool-cases, ◌≢◌, ◌==◌, ◌∙◌, subst₂, ◌-◌, ◌+◌, ◌*◌, ◌/◌,
  ◌%◌, ◌^◌, ◌≤◌, ◌<◌, ◌≡◌, refl, arith, ltb,
}
use vidpow.Prelude.{ok, assert, assert-true, Ensures, after, finally}
use vidpow.Prelude.Int.{ℤ, pos, negsuc, ltb_ℤ}
use vidpow.Protocol.Asset.{
  Asset, Price, to_u128, convert, signed64, same_text, symbol_name, mul_price,
}

pub mul_lt : (a b x y : ℕ) → a < x → b < y → a * b < x * y
mul_lt a b x y h k =
    let i : ℕ = x - a - 1 in
    let j : ℕ = y - b - 1 in
    let ex : a + 1 + i ≡ x = omega arith in
    let ey : b + 1 + j ≡ y = omega arith in
    let wide : a * b < (a + 1 + i) * (b + 1 + j) = omega arith in
    subst₂ (λ u v. a * b < u * v) ex ey wide

-- The quotient, rounded down.
abbrev pub Floors : ℕ → ℕ → ℕ → ℕ → Type 0
Floors a to from r = (r * from ≤ a * to) × (a * to < r * from + from)

convert-Ensures :
    (a to from : ℕ)
    → a < 2 ^ 63
    → to < 2 ^ 63
    → from < 2 ^ 63
    → Ensures (convert (pos a) (pos to) (pos from)) (λ r. Floors a to from r × (r < 2 ^ 64))
unfolding convert to_u128
convert-Ensures a to from ha ht hf = after (assert (ltb_ℤ (pos 0) (pos from))) (λ u eu.
    let result = a % 2 ^ 128 * (to % 2 ^ 128) % 2 ^ 128 / (from % 2 ^ 128) in
    after (assert (ltb result (2 ^ 64))) (λ w ew.
      let narrow = assert-true (ltb result (2 ^ 64)) {u = w} ew in
      let p = assert-true (ltb_ℤ (pos 0) (pos from)) {u = u} eu in
      let pf : 0 < from = ground (arith, p) in
      let ea : a % 2 ^ 128 ≡ a = omega arith in
      let et : to % 2 ^ 128 ≡ to = omega arith in
      let ef : from % 2 ^ 128 ≡ from = omega arith in
      let small : a * to < 2 ^ 63 * 2 ^ 63 = mul_lt a to (2 ^ 63) (2 ^ 63) ha ht in
      let ep : a * to % 2 ^ 128 ≡ a * to = omega (arith, small) in
      let q : result ≡ a * to / from = rw (ea, et, ef, ep) refl in
      finally (
        rw q (omega (arith, mod-add-div (a * to) from, mod-lt (a * to) {m = from} pf)),
        ground (arith, narrow),
      )))

convert-quotient :
    (a to from : ℕ)
    → a < 2 ^ 63
    → to < 2 ^ 63
    → 0 < from
    → from < 2 ^ 63
    → a * to < 2 ^ 64 * from
    → convert (pos a) (pos to) (pos from) ≡ ok (a * to / from)
unfolding convert to_u128
convert-quotient a to from ha ht p hf fits =
    let low : a * to / from < 2 ^ 64 =
      (div-lt_iff_lt-mul {k = from} {x = a * to} {y = 2 ^ 64} p).1 fits in
    let ea : a % 2 ^ 128 ≡ a = omega arith in
    let et : to % 2 ^ 128 ≡ to = omega arith in
    let ef : from % 2 ^ 128 ≡ from = omega arith in
    let small : a * to < 2 ^ 63 * 2 ^ 63 = mul_lt a to (2 ^ 63) (2 ^ 63) ha ht in
    let ep : a * to % 2 ^ 128 ≡ a * to = omega (arith, small) in
    rw (ea, et, ef, ep) (ground (arith, low, p))

same_text_refl : (xs : List ℕ) → same_text xs xs ≡ true
unfolding same_text
same_text_refl [] = refl
same_text_refl (x ∷ xs) = ground (arith, same_text_refl xs)

same_text_eq : (xs ys : List ℕ) → same_text xs ys ≡ true → xs ≡ ys
unfolding same_text
same_text_eq [] [] e = refl
same_text_eq [] (y ∷ ys) e = absurd (ground arith)
same_text_eq (x ∷ xs) [] e = absurd (ground arith)
same_text_eq (x ∷ xs) (y ∷ ys) e = elim (Bool-cases (x == y)) [
  | inl t ↦
      let tails : xs ≡ ys = same_text_eq xs ys (ground arith) in
      let heads : x ≡ y = ground arith in rw (heads, tails) refl
  | inr f ↦ absurd (ground arith)
]

-- Which side of the price is paid for which: the side whose symbol has the name of the asset's is
-- what is divided by, and the base where both have it.
pub data Sides (a : Asset) (p : Price) : Asset → Asset → Type 0 where
  by_base :
      {n : List ℕ}
      → symbol_name a.symbol ≡ ok n
      → symbol_name p.base.symbol ≡ ok n
      → Sides a p p.quote p.base
  by_quote :
      {n m : List ℕ}
      → symbol_name a.symbol ≡ ok n
      → symbol_name p.base.symbol ≡ ok m
      → n ≢ m
      → symbol_name p.quote.symbol ≡ ok n
      → Sides a p p.base p.quote

-- What a conversion returns: the quotient of the sides, less 2^64 from 2^63 on.
pub record Converted (a : Asset) (p : Price) (b : Asset) : Type 0 where
  pub to : Asset
  pub from : Asset
  pub sides : Sides a p to from
  pub paid : ℕ
  pub out : ℕ
  pub per : ℕ
  pub quotient : ℕ
  pub is_paid : a.amount ≡ pos paid
  pub is_out : to.amount ≡ pos out
  pub is_per : from.amount ≡ pos per
  pub floors : Floors paid out per quotient
  pub narrow : quotient < 2 ^ 64
  pub low : quotient < 2 ^ 63 → b.amount ≡ pos quotient
  pub high : 2 ^ 63 ≤ quotient → b.amount ≡ negsuc (2 ^ 64 - quotient - 1)
  pub symbol : b.symbol ≡ to.symbol

-- The amount is not negative.
abbrev pub Within : ℤ → Type 0
Within x = (n : ℕ) × (x ≡ pos n) × (n < 2 ^ 63)

signed64_low : (n : ℕ) → n < 2 ^ 63 → signed64 n ≡ pos n
unfolding signed64
signed64_low n h = ground arith

signed64_high : (n : ℕ) → 2 ^ 63 ≤ n → signed64 n ≡ negsuc (2 ^ 64 - n - 1)
unfolding signed64
signed64_high n h = ground arith

side-Ensures :
    (a : Asset) (p : Price) (to from : Asset)
    → Sides a p to from
    → Within a.amount
    → Within to.amount
    → Within from.amount
    → Ensures
        (convert a.amount to.amount from.amount)
        (λ r. Converted a p (record { amount = signed64 r; symbol = to.symbol }))
side-Ensures a p to from sides (n, en, hn) (t, et, ht) (f, ef, hf) = record {
  on_ok = λ r e.
      let same : convert (pos n) (pos t) (pos f) ≡ convert a.amount to.amount from.amount =
        rw (en, et, ef) refl in
      let (floors, narrow) = (convert-Ensures n t f hn ht hf).on_ok r (same ∙ e) in
      record {
        to = to;
        from = from;
        sides = sides;
        paid = n;
        out = t;
        per = f;
        quotient = r;
        is_paid = en;
        is_out = et;
        is_per = ef;
        floors = floors;
        narrow = narrow;
        low = signed64_low r;
        high = signed64_high r;
        symbol = refl;
      };
}

mul_price-Ensures :
    (a : Asset) (p : Price)
    → Within a.amount
    → Within p.base.amount
    → Within p.quote.amount
    → Ensures (mul_price a p) (Converted a p)
unfolding mul_price
mul_price-Ensures a p ha hb hq = after (symbol_name a.symbol) (λ n en.
    after (symbol_name p.base.symbol) (λ m em. elim (Bool-cases (same_text n m)) [
      | inl t ↦ rw t (
          let same : n ≡ m = same_text_eq n m t in
          let sides : Sides a p p.quote p.base = by_base en (em ∙ ap ok (sym same)) in
          after (convert a.amount p.quote.amount p.base.amount)
            (λ r er. finally ((side-Ensures a p p.quote p.base sides ha hq hb).on_ok r er)))
      | inr f ↦ rw f (
          let differ : n ≢ m =
            λ q. let one : same_text n m ≡ true = rw (sym q) (same_text_refl n) in ground arith in
          after (symbol_name p.quote.symbol) (λ k ek. elim (Bool-cases (same_text n k)) [
            | inl t ↦ rw t (
                let same : n ≡ k = same_text_eq n k t in
                let sides : Sides a p p.base p.quote =
                  by_quote en em differ (ek ∙ ap ok (sym same)) in
                after (convert a.amount p.base.amount p.quote.amount)
                  (λ r er. finally ((side-Ensures a p p.base p.quote sides ha hb hq).on_ok r er)))
            | inr g ↦ rw g (record { on_ok = λ x e. absurd (ground arith) })
          ]))
    ]))

-- Where the conversion of an asset by a price succeeds, and no amount of the three is negative, the
-- names of the symbols say which side is divided by; the exact quotient is rounded down, r * from ≤
-- a * to < (r + 1) * from, and fits in 64 bits; and the result has the symbol of the other side and
-- that quotient as its amount below 2^63, and the quotient less 2^64, a negative amount, from 2^63
-- on.
pub mul_price-Converted :
    (a : Asset) (p : Price) {b : Asset}
    → Within a.amount
    → Within p.base.amount
    → Within p.quote.amount
    → mul_price a p ≡ ok b
    → Converted a p b
mul_price-Converted a p {b} ha hb hq e = (mul_price-Ensures a p ha hb hq).on_ok b e

-- Where a side of a price is divided by and the other is paid, as the names of the symbols say, all
-- three amounts fit in 63 bits, the divisor is positive and the quotient fits in 63 bits, the
-- conversion of an asset succeeds, and returns the quotient of the exact product, rounded down,
-- with the symbol of the side that is paid: the 128-bit product loses nothing.
pub mul_price-quotient :
    (a : Asset) (p : Price) {to from : Asset} (n t f : ℕ)
    → Sides a p to from
    → a.amount ≡ pos n
    → to.amount ≡ pos t
    → from.amount ≡ pos f
    → n < 2 ^ 63
    → t < 2 ^ 63
    → 0 < f
    → f < 2 ^ 63
    → n * t < 2 ^ 63 * f
    → mul_price a p ≡ ok (record { amount = pos (n * t / f); symbol = to.symbol })
unfolding mul_price
mul_price-quotient a p n t f (by_base {n = name} e1 e2) en et ef hn ht pf hf fits =
    let low : n * t / f < 2 ^ 63 = (div-lt_iff_lt-mul {k = f} {x = n * t} {y = 2 ^ 63} pf).1 fits in
    let q = convert-quotient n t f hn ht pf hf (omega (arith, fits)) in
    rw (e1, e2, same_text_refl name, en, et, ef, q, signed64_low (n * t / f) low) refl
mul_price-quotient a p n t f (by_quote {n = name} {m = other} e1 e2 differ e3) en et ef hn ht pf hf
      fits =
    let low : n * t / f < 2 ^ 63 = (div-lt_iff_lt-mul {k = f} {x = n * t} {y = 2 ^ 63} pf).1 fits in
    let q = convert-quotient n t f hn ht pf hf (omega (arith, fits)) in
    elim (Bool-cases (same_text name other)) [
      | inl same ↦ absurd (differ (same_text_eq name other same))
      | inr f' ↦
          rw (e1, e2, f', e3, same_text_refl name, en, et, ef, q, signed64_low (n * t / f) low) refl
    ]
