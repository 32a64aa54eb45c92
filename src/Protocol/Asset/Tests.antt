-- ===== src/Protocol/Asset/Tests.antt =====
-- The theorems on conversion, where 100 tokens buy shares at 3000 shares for 301 tokens, and on the
-- order of prices.
use vidpow.Prelude.{ℕ, true, ◌*◌, ◌/◌, ◌^◌, ◌-◌, ◌≡◌, refl, arith, [], ◌∷◌}
use vidpow.Prelude.{ok, err, assertion}
use vidpow.Prelude.Int.{pos, negsuc}
use vidpow.Protocol.Asset.{
  Asset, Price, to_u128, convert, c_string, symbol_name, signed64, same_text, mul_price, price_lt,
  price_eq, wls_symbol, vests_symbol,
}
use vidpow.Protocol.Asset.Rounding.{
  Sides, by_base, Converted, mul_price-Converted, mul_price-quotient,
}
use vidpow.Protocol.Asset.Order.{OneOf, price_lt_trans, price_lt-OneOf}

bought : convert (pos 100) (pos 3000) (pos 301) ≡ ok 996
unfolding convert to_u128
bought = refl

no_price : convert (pos 100) (pos 3000) (pos 0) ≡ err assertion
unfolding convert
no_price = refl

name_of_tokens : symbol_name wls_symbol ≡ ok (b'W' ∷ b'L' ∷ b'S' ∷ [])
unfolding symbol_name c_string
name_of_tokens = refl

abbrev tokens : Asset
tokens = record { amount = pos 100; symbol = wls_symbol }

abbrev share_price : Price
share_price = record {
  base = record { amount = pos 301; symbol = wls_symbol };
  quote = record { amount = pos 3000; symbol = vests_symbol };
}

abbrev shares : Asset
shares = record { amount = pos 996; symbol = vests_symbol }

bought_shares : mul_price tokens share_price ≡ ok shares
unfolding mul_price convert to_u128 signed64 same_text symbol_name c_string
bought_shares = refl

-- The quotient 3 * 2^62 fits in 64 bits, but not in the 63 of an amount that is not negative.
negative_amount :
    mul_price
      (record tokens { amount = pos (2 ^ 62) })
      (record {
        base = record { amount = pos 1; symbol = wls_symbol };
        quote = record { amount = pos 3; symbol = vests_symbol };
      })
    ≡ ok (record { amount = negsuc (2 ^ 62 - 1); symbol = vests_symbol })
unfolding mul_price convert to_u128 signed64 same_text symbol_name c_string
negative_amount = refl

mul_price-Converted_example : Converted tokens share_price shares
mul_price-Converted_example =
    mul_price-Converted tokens share_price {b = shares} (100, refl, omega arith)
      (301, refl, omega arith) (3000, refl, omega arith) bought_shares

share_side : Sides tokens share_price share_price.quote share_price.base
unfolding symbol_name c_string
share_side = by_base {n = b'W' ∷ b'L' ∷ b'S' ∷ []} refl refl

mul_price-quotient_example :
    mul_price tokens share_price
    ≡ ok (record { amount = pos (100 * 3000 / 301); symbol = vests_symbol })
mul_price-quotient_example =
    mul_price-quotient tokens share_price {to = share_price.quote} {from = share_price.base} 100
      3000 301 share_side refl refl refl (omega arith) (omega arith) (omega arith) (omega arith)
      (omega arith)

abbrev priced : ℕ → ℕ → Price
priced m n = record {
  base = record { amount = pos m; symbol = wls_symbol };
  quote = record { amount = pos n; symbol = vests_symbol };
}

lower : price_lt (priced 1 2) (priced 2 3) ≡ true
unfolding price_lt to_u128
lower = refl

higher : price_lt (priced 2 3) (priced 1 1) ≡ true
unfolding price_lt to_u128
higher = refl

price_lt_trans_example : price_lt (priced 1 2) (priced 1 1) ≡ true
price_lt_trans_example =
    price_lt_trans (priced 1 2) (priced 2 3) (priced 1 1) (1, refl, omega arith, omega arith)
      (2, refl, omega arith, omega arith) (2, refl, omega arith, omega arith)
      (3, refl, omega arith, omega arith) (1, refl, omega arith, omega arith)
      (1, refl, omega arith, omega arith) lower higher

price_lt-OneOf_example :
    OneOf
      (price_lt (priced 1 2) (priced 2 4))
      (price_lt (priced 2 4) (priced 1 2))
      (price_eq (priced 1 2) (priced 2 4))
price_lt-OneOf_example = price_lt-OneOf (priced 1 2) (priced 2 4)
