-- ===== src/Protocol/Asset.antt =====
-- libraries/protocol/asset.cpp and asset.hpp: amounts with a symbol, and prices.
-- `share_type` is `fc::safe<int64_t>`. The fc library is not part of this program: each sum, difference
-- or product of shares goes through the parameter `safe`, which is given the exact value and returns
-- it or throws. `uint128_t` is read as the 128-bit words with wrap-around; a negative amount converts
-- to its two's complement.
pub mod Rounding
pub mod Order
mod Tests
use vidpow.Prelude.{
  ℕ, zero, suc, ◌+◌, ◌-◌, ◌*◌, ◌/◌, ◌%◌, ◌^◌, ◌≡◌, Bool, true, false, not, List, [], ◌∷◌, ltb, ◌==◌,
  ◌&&◌, ◌||◌, if◌then◌else◌,
}
use vidpow.Prelude.{Result, ok, err, ◌>>=◌, ◌>>◌, assert, assertion}
use vidpow.Prelude.Int.{ℤ, pos, negsuc, ◌+ℤ◌, ◌-ℤ◌, ◌≤ℤ◌, ltb_ℤ}

-- The documented behaviour of `fc::safe`: what it returns is exact.
abbrev pub IsExact : (ℤ → Result ℤ) → Type 0
IsExact safe = (x y : ℤ) → safe x ≡ ok y → x ≡ y

-- And it is a 64-bit integer.
abbrev pub IsWord64 : (ℤ → Result ℤ) → Type 0
IsWord64 safe = (x y : ℤ) → safe x ≡ ok y → y ≤ℤ pos (2 ^ 63 - 1)

-- The symbols of the main network: a byte of decimals, then the letters.
abbrev pub vests_symbol : ℕ
vests_symbol = 6 + b'V' * 2 ^ 8 + b'E' * 2 ^ 16 + b'S' * 2 ^ 24 + b'T' * 2 ^ 32 + b'S' * 2 ^ 40

abbrev pub wls_symbol : ℕ
wls_symbol = 3 + b'W' * 2 ^ 8 + b'L' * 2 ^ 16 + b'S' * 2 ^ 24

pub record Asset : Type 0 where
  pub amount : ℤ
  pub symbol : ℕ

pub record Price : Type 0 where
  pub base : Asset
  pub quote : Asset

-- `int64_t` and `uint128_t` from a number.
unfoldable pub signed64 : ℕ → ℤ
signed64 w = if ltb w (2 ^ 63) then pos w else negsuc (2 ^ 64 - w - 1)

unfoldable pub to_u128 : ℤ → ℕ
to_u128 (pos n) = n % 2 ^ 128
to_u128 (negsuc n) = 2 ^ 128 - 1 - n % 2 ^ 128

unfoldable pub same_text : List ℕ → List ℕ → Bool
same_text [] [] = true
same_text (x ∷ xs) (y ∷ ys) = x == y && same_text xs ys
same_text _ _ = false

-- The bytes of a C string, at most `n`.
unfoldable pub c_string : ℕ → ℕ → List ℕ
c_string zero s = []
c_string (suc n) s = if s % 256 == 0 then [] else s % 256 ∷ c_string n (s / 256)

unfoldable pub decimals : Asset → Result ℕ
decimals a = do assert (ltb (a.symbol % 256) 15); ok (a.symbol % 256)

unfoldable pub set_decimals : ℕ → Asset → Result Asset
set_decimals d a = do assert (ltb d 15); ok (record a { symbol = a.symbol / 256 * 256 + d })

unfoldable pub symbol_name : ℕ → Result (List ℕ)
unfolding c_string
symbol_name s = do assert (s / 2 ^ 56 == 0); ok (c_string 7 (s / 256))

-- The table of powers of ten.
unfoldable pub precision : Asset → Result ℕ
unfolding decimals
precision a = do d ← decimals a; ok (10 ^ d)

-- `operator <` and `operator >=` on assets.
unfoldable pub asset_lt : Asset → Asset → Result Bool
asset_lt a b = do assert (a.symbol == b.symbol); ok (ltb_ℤ a.amount b.amount)

unfoldable pub asset_ge : Asset → Asset → Result Bool
unfolding asset_lt
asset_ge a b = do less ← asset_lt a b; ok (not less)

-- `operator ==` and `operator <=`
abbrev pub asset_eq : Asset → Asset → Bool
asset_eq a b =
    a.symbol == b.symbol && not (ltb_ℤ a.amount b.amount) && not (ltb_ℤ b.amount a.amount)

unfoldable pub asset_le : Asset → Asset → Result Bool
unfolding asset_lt
asset_le a b = if asset_eq a b then ok true else asset_lt a b

module _ (safe : ℤ → Result ℤ) where
  unfoldable pub asset_add : Asset → Asset → Result Asset
  asset_add a b = do
    assert (a.symbol == b.symbol)
    sum ← safe (a.amount +ℤ b.amount)
    ok (record a { amount = sum })

  unfoldable pub asset_sub : Asset → Asset → Result Asset
  asset_sub a b = do
    assert (a.symbol == b.symbol)
    difference ← safe (a.amount -ℤ b.amount)
    ok (record a { amount = difference })

  unfoldable pub asset_neg : Asset → Result Asset
  asset_neg a = do negated ← safe (pos 0 -ℤ a.amount); ok (record a { amount = negated })

-- `(uint128_t( a ) * to) / from`, which must fit in 64 bits.
unfoldable pub convert : ℤ → ℤ → ℤ → Result ℕ
unfolding to_u128
convert a to from = do
  assert (ltb_ℤ (pos 0) from)
  let result = to_u128 a * to_u128 to % 2 ^ 128 / to_u128 from
  assert (ltb result (2 ^ 64))
  ok result

unfoldable pub mul_price : Asset → Price → Result Asset
mul_price a b = do
  name ← symbol_name a.symbol
  base ← symbol_name b.base.symbol
  if same_text name base
      then (do
        result ← convert a.amount b.quote.amount b.base.amount
        ok (record { amount = signed64 result; symbol = b.quote.symbol }))
      else (do
        quote ← symbol_name b.quote.symbol
        if same_text name quote
            then (do
              result ← convert a.amount b.base.amount b.quote.amount
              ok (record { amount = signed64 result; symbol = b.base.symbol }))
            else err assertion)

-- `operator <` and `operator ==` on prices, by cross products.
unfoldable pub price_lt : Price → Price → Bool
price_lt a b =
    if ltb a.base.symbol b.base.symbol
    then true
    else if ltb b.base.symbol a.base.symbol
    then false
    else if ltb a.quote.symbol b.quote.symbol
    then true
    else if ltb b.quote.symbol a.quote.symbol
    then false
    else ltb (to_u128 b.quote.amount * to_u128 a.base.amount % 2 ^ 128)
        (to_u128 a.quote.amount * to_u128 b.base.amount % 2 ^ 128)

unfoldable pub price_eq : Price → Price → Bool
price_eq a b =
    a.base.symbol == b.base.symbol
    && a.quote.symbol == b.quote.symbol
    && to_u128 b.quote.amount * to_u128 a.base.amount % 2 ^ 128
      == to_u128 a.quote.amount * to_u128 b.base.amount % 2 ^ 128

unfoldable pub price_le : Price → Price → Bool
unfolding price_eq price_lt
price_le a b = price_eq a b || price_lt a b

-- `operator /`
unfoldable pub div_price : Asset → Asset → Result Price
div_price base quote = do
  b ← symbol_name base.symbol
  q ← symbol_name quote.symbol
  assert (not (same_text b q))
  ok (record { base = base; quote = quote })

unfoldable pub validate_price : Price → Result (Unit {0})
validate_price p = do
  assert (ltb_ℤ (pos 0) p.base.amount)
  assert (ltb_ℤ (pos 0) p.quote.amount)
  b ← symbol_name p.base.symbol
  q ← symbol_name p.quote.symbol
  assert (not (same_text b q))
