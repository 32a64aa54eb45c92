-- ===== src/Chain/Evaluators/Withdrawals/Tests.antt =====
-- The theorem on routes, where account 1 sends 40% of its withdrawals to account 2.
use vidpow.Prelude.{◌≡◌, refl, true, [], ◌∷◌, arith, ok, err, assertion}
use vidpow.Prelude.Int.{pos}
use vidpow.Chain.Ledger.State.{Chain, get_account, modify_account}
use vidpow.Chain.Evaluators.Withdrawals.{
  more_routes, total_percent, change_routes, set_withdraw_vesting_route,
}
use vidpow.Chain.Evaluators.Withdrawals.Routes.{Routed, set_withdraw_vesting_route-Routed}
use vidpow.Chain.Evaluators.Tests.{account, chain}

chain-Routed : Routed 9 chain
chain-Routed = record { within = λ from. omega arith }

abbrev after_route : Chain
after_route = record chain {
  accounts =
      record (account 1 0 (pos 1000) (pos 1000) (pos 2000)) { withdraw_routes = 1 }
      ∷ account 2 1 (pos 500) (pos 2000) (pos 0)
      ∷ [];
  routes = record { from_account = 1; to_account = 2; percent = 4000; auto_vest = true } ∷ [];
}

routed : set_withdraw_vesting_route 9 1 2 4000 true chain ≡ ok after_route
unfolding set_withdraw_vesting_route get_account change_routes modify_account more_routes
    total_percent
routed = refl

too_much : set_withdraw_vesting_route 9 1 2 10001 true chain ≡ err assertion
unfolding set_withdraw_vesting_route get_account change_routes modify_account more_routes
    total_percent
too_much = refl

-- A route to the account with id 0 is not in the sum.
not_counted : (c : Chain) × (set_withdraw_vesting_route 2 1 2 10001 true chain ≡ ok c)
unfolding set_withdraw_vesting_route get_account change_routes modify_account more_routes
    total_percent
not_counted = (_, refl)

set_withdraw_vesting_route-Routed_example : Routed 9 after_route
set_withdraw_vesting_route-Routed_example =
    set_withdraw_vesting_route-Routed 9 1 2 4000 true chain {c' = after_route} (omega arith)
      chain-Routed routed
