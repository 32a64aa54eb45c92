-- ===== src/Chain/PowerDown.antt =====
-- database.cpp: the weekly withdrawals of vesting shares. The rows of the accounts stand in the order of
-- their ids, since they are created in it and none is removed. `remainder` is `%` on `share_type` and
-- `to_uint64` that of `uint128_t`, which are the fc library's and may throw.
pub mod Rows
pub mod Turns
pub mod Order
pub mod Runs
pub mod Balances
pub mod Conversion
pub mod Conservation
mod Tests
use vidpow.Prelude.{
  ℕ, zero, suc, ◌+◌, ◌-◌, ◌*◌, ◌/◌, ◌%◌, ◌^◌, Bool, true, false, not, Option, none, some, List, [],
  ◌∷◌, ◌++◌, ltb, leb, ◌==◌, ◌||◌, if◌then◌else◌, filter, drop, length,
}
use vidpow.Prelude.{Result, ok, err, ◌>>=◌, ◌>>◌, assert, out_of_fuel}
use vidpow.Prelude.Int.{ℤ, pos, ◌+ℤ◌, ◌-ℤ◌, ltb_ℤ}
use vidpow.Protocol.Asset.{Asset, asset_add, asset_sub, mul_price, signed64, to_u128}
use vidpow.Chain.Ledger.State.{Account, WithdrawRoute, Chain, named, get_account, modify_account}
use vidpow.Chain.Ledger.Votes.{adjust_proxied_witness_votes}
use vidpow.Chain.Ledger.Supply.{eq_ℤ, wls, vests, get_vesting_share_price, add_balance, add_vesting}
use vidpow.Chain.Evaluators.Withdrawals.{is_route}

-- `std::min` on amounts.
abbrev pub min_ℤ : ℤ → ℤ → ℤ
min_ℤ a b = if ltb_ℤ b a then b else a

-- The routes of an account in the order of `by_withdraw_route`. The loops start behind the key of the
-- account with id 0, so a route to that account is none of them.
unfoldable pub routes_to : ℕ → List Account → List WithdrawRoute → List WithdrawRoute
routes_to from [] routes = []
routes_to from (a ∷ more) routes =
    filter (is_route from a.name) routes ++ routes_to from more routes

unfoldable pub routes_of : ℕ → Chain → List WithdrawRoute
unfolding routes_to
routes_of from c = routes_to from (drop 1 c.accounts) c.routes

-- The first row of `by_next_vesting_withdrawal`, where `a` is before all of the list in the table.
abbrev pub least_from : Account → List Account → Account
least_from a [] = a
least_from a (b ∷ bs) =
    least_from (if ltb b.next_vesting_withdrawal a.next_vesting_withdrawal then b else a) bs

abbrev pub least : List Account → Option ℕ
least [] = none
least (a ∷ more) = some ((least_from a more).name)

-- The rows behind `a` in that index; `passed` says that `a` was met in the table.
abbrev pub behind : Account → Bool → List Account → List Account
behind a passed [] = []
behind a passed (x ∷ xs) =
    if named a.name x
    then behind a true xs
    else if (if passed
        then leb a.next_vesting_withdrawal x.next_vesting_withdrawal
        else ltb a.next_vesting_withdrawal x.next_vesting_withdrawal)
    then x ∷ behind a passed xs
    else behind a passed xs

-- `++current`
unfoldable pub following : Account → Chain → Option ℕ
following a c = least (behind a false c.accounts)

-- The date of the next withdrawal: `time_point_sec::maximum()`, or a week later.
unfoldable pub reschedule : Account → Account
reschedule a =
    if not (ltb_ℤ a.withdrawn a.to_withdraw) || eq_ℤ a.vesting_shares (pos 0)
    then record a { vesting_withdraw_rate = pos 0; next_vesting_withdrawal = 2 ^ 32 - 1 }
    else record a { next_vesting_withdrawal = (a.next_vesting_withdrawal + 604800) % 2 ^ 32 }

module _ (safe : ℤ → Result ℤ) (remainder : ℤ → ℤ → Result ℤ) (to_uint64 : ℕ → Result ℕ) where
  unfoldable pub amount_due : Account → Result ℤ
  amount_due a = do
    left ← safe (a.to_withdraw -ℤ a.withdrawn)
    if ltb_ℤ left a.vesting_withdraw_rate
        then (do
          rest ← remainder a.to_withdraw a.vesting_withdraw_rate
          ok (min_ℤ a.vesting_shares rest))
        else ok (min_ℤ a.vesting_shares a.vesting_withdraw_rate)

  -- `to_deposit` of a route.
  unfoldable pub route_part : ℤ → WithdrawRoute → Result ℤ
  route_part to_withdraw route = do
    part ← to_uint64 (to_u128 to_withdraw * route.percent % 2 ^ 128 / 10000)
    ok (signed64 part)

  unfoldable pub deposit_vests : ℕ → ℤ → Chain → Result Chain
  deposit_vests to shares c = do
    to_account ← get_account to c
    c' ← modify_account to_account.name (add_vesting safe shares) c
    adjust_proxied_witness_votes safe to_account.name shares c'

  -- The first pass: what it deposits as vesting shares.
  unfoldable pub first_pass : ℤ → ℤ → List WithdrawRoute → Chain → Result (ℤ × Chain)
  first_pass to_withdraw total [] c = ok (total, c)
  first_pass to_withdraw total (route ∷ routes) c =
      if route.auto_vest
      then (do
        to_deposit ← route_part to_withdraw route
        total' ← safe (total +ℤ to_deposit)
        c' ←
            (if ltb_ℤ (pos 0) to_deposit then deposit_vests route.to_account to_deposit c else ok c)
        first_pass to_withdraw total' routes c')
      else first_pass to_withdraw total routes c

  -- The `modify` of the global properties.
  unfoldable pub take_fund : Asset → ℤ → Chain → Result Chain
  take_fund converted shares c = do
    let g = c.gpo
    fund ← asset_sub safe (wls g.total_vesting_fund_steem) converted
    total ← safe (g.total_vesting_shares -ℤ shares)
    ok (record c {
      gpo = record g { total_vesting_fund_steem = fund.amount; total_vesting_shares = total };
    })

  unfoldable pub deposit_steem : ℕ → Asset → ℤ → Chain → Result Chain
  deposit_steem to converted shares c = do
    c' ← modify_account to (add_balance safe converted) c
    take_fund converted shares c'

  -- The second pass: the shares that it converts, and the tokens they convert to.
  unfoldable pub second_pass : ℤ → ℤ → Asset → List WithdrawRoute → Chain → Result (ℤ × Chain)
  second_pass to_withdraw total steem [] c = ok (total, c)
  second_pass to_withdraw total steem (route ∷ routes) c =
      if route.auto_vest then second_pass to_withdraw total steem routes c else (do
        to_account ← get_account route.to_account c
        to_deposit ← route_part to_withdraw route
        total' ← safe (total +ℤ to_deposit)
        converted ← mul_price (vests to_deposit) (get_vesting_share_price c.gpo)
        steem' ← asset_add safe steem converted
        c' ←
            (if ltb_ℤ (pos 0) to_deposit
              then deposit_steem to_account.name converted to_deposit c
              else ok c)
        second_pass to_withdraw total' steem' routes c')

  -- The `modify` of the account that withdraws.
  unfoldable pub withdraw_shares : ℤ → Asset → Account → Result Account
  withdraw_shares to_withdraw converted a = do
    shares ← safe (a.vesting_shares -ℤ to_withdraw)
    balance ← asset_add safe (wls a.balance) converted
    withdrawn ← safe (a.withdrawn +ℤ to_withdraw)
    ok (
        reschedule
          (record a { vesting_shares = shares; balance = balance.amount; withdrawn = withdrawn }))

  -- What is left after the passes.
  unfoldable pub convert_rest : ℕ → ℤ → ℤ → Chain → Result Chain
  convert_rest from to_withdraw to_convert c = do
    assert (not (ltb_ℤ to_convert (pos 0)))
    converted ← mul_price (vests to_convert) (get_vesting_share_price c.gpo)
    c1 ← modify_account from (withdraw_shares to_withdraw converted) c
    c2 ← take_fund converted to_convert c1
    if ltb_ℤ (pos 0) to_withdraw
        then (do lost ← safe (pos 0 -ℤ to_withdraw); adjust_proxied_witness_votes safe from lost c2)
        else ok c2

  -- The body of the loop.
  unfoldable pub withdraw : Account → Chain → Result Chain
  withdraw a c = do
    to_withdraw ← amount_due a
    (as_vests, c1) ← first_pass to_withdraw (pos 0) (routes_of a.name c) c
    (as_steem, c2) ← second_pass to_withdraw (pos 0) (wls (pos 0)) (routes_of a.name c1) c1
    less ← safe (to_withdraw -ℤ as_steem)
    to_convert ← safe (less -ℤ as_vests)
    convert_rest a.name to_withdraw to_convert c2

  -- The loop, on fuel: each turn is at a later date, or at a later row of the same date.
  unfoldable pub process_from : ℕ → Option ℕ → Chain → Result Chain
  process_from zero current c = err out_of_fuel
  process_from (suc fuel) none c = ok c
  process_from (suc fuel) (some name) c = do
    a ← get_account name c
    if leb a.next_vesting_withdrawal c.gpo.time
        then (withdraw a c >>= λ c'. process_from fuel (following a c) c')
        else ok c

  unfoldable pub process_vesting_withdrawals : Chain → Result Chain
  process_vesting_withdrawals c =
      process_from (suc ((c.gpo.time + 1) * length c.accounts)) (least c.accounts) c
