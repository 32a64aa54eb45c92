-- ===== src/Chain/Evaluators/Withdrawals.antt =====
-- wls_evaluator.cpp: the withdrawal of vesting shares and its routes. The inflation rate is an argument
-- of `withdraw_vesting`; `quotient` is the division of `share_type` by a number, which is the fc
-- library's.
pub mod Routes
mod Tests
use vidpow.Prelude.{
  ℕ, ◌+◌, ◌-◌, ◌*◌, ◌%◌, ◌^◌, Bool, true, false, not, List, [], ◌∷◌, ◌++◌, ltb, leb, ◌==◌, ◌&&◌,
  ◌||◌, if◌then◌else◌,
}
use vidpow.Prelude.{Result, ok, ◌>>=◌, ◌>>◌, assert}
use vidpow.Prelude.Int.{ℤ, pos, ◌-ℤ◌, ◌*ℤ◌, ltb_ℤ}
use vidpow.Protocol.Asset.{Asset, asset_ge, asset_le, mul_price}
use vidpow.Chain.Ledger.State.{Account, WithdrawRoute, Chain, get_account, modify_account}
use vidpow.Chain.Ledger.Supply.{eq_ℤ, wls, vests, get_vesting_share_price}

module _ (safe : ℤ → Result ℤ) (quotient : ℤ → ℕ → ℤ) where
  -- The `modify` of a power down that ends: `time_point_sec::maximum()` is the largest `uint32_t`.
  unfoldable pub stop_withdrawal : Account → Result Account
  stop_withdrawal a = ok (record a {
    vesting_withdraw_rate = pos 0;
    next_vesting_withdrawal = 2 ^ 32 - 1;
    to_withdraw = pos 0;
    withdrawn = pos 0;
  })

  -- The `modify` of a new power down: WLS_VESTING_WITHDRAW_INTERVALS is 13, and an interval is a week.
  unfoldable pub start_withdrawal : ℕ → ℤ → Account → Result Account
  start_withdrawal now shares a = do
    let thirteenth = quotient shares 13
    let rate = if eq_ℤ thirteenth (pos 0) then pos 1 else thirteenth
    assert (not (eq_ℤ a.vesting_withdraw_rate rate))
    ok (record a {
      vesting_withdraw_rate = rate;
      next_vesting_withdrawal = (now + 604800) % 2 ^ 32;
      to_withdraw = shares;
      withdrawn = pos 0;
    })

  -- `withdraw_vesting_evaluator::do_apply`, of the main network. `min_vests.amount.value *= 10` is on the
  -- bare word, and stays small where the fee does.
  unfoldable pub withdraw_vesting : ℤ → ℕ → Asset → Chain → Result Chain
  withdraw_vesting inflation_rate account vesting_shares c = do
    a ← get_account account c
    assert (not (ltb_ℤ vesting_shares.amount (pos 0)))
    has_shares ← asset_ge (vests a.vesting_shares) (vests (pos 0))
    assert has_shares
    sufficient ← asset_ge (vests a.vesting_shares) vesting_shares
    assert sufficient
    product ← safe (a.vesting_shares *ℤ (pos 10000 -ℤ inflation_rate))
    assert (not (ltb_ℤ (quotient product 10000) vesting_shares.amount))
    fee ← mul_price (wls c.schedule.median_account_creation_fee) (get_vesting_share_price c.gpo)
    within ← asset_le (vests a.vesting_shares) (record fee { amount = fee.amount *ℤ pos 10 })
    assert (not within || eq_ℤ vesting_shares.amount (pos 0))
    if eq_ℤ vesting_shares.amount (pos 0)
        then (assert (not (eq_ℤ a.vesting_withdraw_rate (pos 0)))
            >> modify_account a.name stop_withdrawal c)
        else modify_account a.name (start_withdrawal c.gpo.time vesting_shares.amount) c

-- The key of the `by_withdraw_route` index.
abbrev pub is_route : ℕ → ℕ → WithdrawRoute → Bool
is_route from to r = r.from_account == from && r.to_account == to

abbrev pub has_route : ℕ → ℕ → List WithdrawRoute → Bool
has_route from to [] = false
has_route from to (r ∷ rs) = if is_route from to r then true else has_route from to rs

abbrev pub remove_route : ℕ → ℕ → List WithdrawRoute → List WithdrawRoute
remove_route from to [] = []
remove_route from to (r ∷ rs) = if is_route from to r then rs else r ∷ remove_route from to rs

abbrev pub replace_route : WithdrawRoute → List WithdrawRoute → List WithdrawRoute
replace_route n [] = []
replace_route n (r ∷ rs) =
    if is_route n.from_account n.to_account r then n ∷ rs else r ∷ replace_route n rs

unfoldable pub more_routes : Account → Result Account
more_routes a = ok (record a { withdraw_routes = (a.withdraw_routes + 1) % 2 ^ 16 })

unfoldable pub fewer_routes : Account → Result Account
fewer_routes a = ok (record a { withdraw_routes = (a.withdraw_routes + (2 ^ 16 - 1)) % 2 ^ 16 })

-- The loop that sums the percents of an account's routes in a `uint16_t`. It starts behind the key of
-- the account with id 0, so a route to that account, `first_account`, is not in the sum.
unfoldable pub total_percent : ℕ → ℕ → List WithdrawRoute → ℕ → ℕ
total_percent first_account from [] total = total
total_percent first_account from (r ∷ rs) total =
    if r.from_account == from && not (r.to_account == first_account)
    then total_percent first_account from rs ((total + r.percent) % 2 ^ 16)
    else total_percent first_account from rs total

-- The three branches, up to the sum.
unfoldable pub change_routes : WithdrawRoute → Account → Chain → Result Chain
change_routes route from c =
    if has_route route.from_account route.to_account c.routes
    then (if route.percent == 0
        then modify_account from.name fewer_routes
            (record c { routes = remove_route route.from_account route.to_account c.routes })
        else ok (record c { routes = replace_route route c.routes }))
    else (do
      assert (not (route.percent == 0))
      assert (ltb from.withdraw_routes 10)
      modify_account from.name more_routes (record c { routes = c.routes ++ route ∷ [] }))

-- `set_withdraw_vesting_route_evaluator::do_apply`
unfoldable pub set_withdraw_vesting_route : ℕ → ℕ → ℕ → ℕ → Bool → Chain → Result Chain
set_withdraw_vesting_route first_account from to percent auto_vest c = do
  from_account ← get_account from c
  to_account ← get_account to c
  let route : WithdrawRoute = record {
    from_account = from_account.name;
    to_account = to_account.name;
    percent = percent;
    auto_vest = auto_vest;
  }
  c' ← change_routes route from_account c
  assert (leb (total_percent first_account from_account.name c'.routes 0) 10000)
  ok c'
