-- ===== src/Chain/Evaluators/Withdrawals/Routes.antt =====
-- wls_evaluator.cpp: the sum of the percents of an account's routes, and the `uint16_t` that holds it.
use vidpow.Prelude.{
  ℕ, ◌+◌, ◌%◌, ◌^◌, ◌≤◌, ◌<◌, ◌≡◌, sym, ap, subst, inl, inr, Bool, not, List, [], ◌∷◌, ◌++◌, ltb,
  leb, ◌==◌, ◌&&◌, if◌then◌else◌, arith, Bool-cases,
}
use vidpow.Prelude.{Result, ok, assert, Ensures, after, finally, assert-true}
use vidpow.Chain.Ledger.State.{
  Account, WithdrawRoute, Chain, get_account, modify_account, modify_account-ok,
}
use vidpow.Chain.Evaluators.Withdrawals.{
  has_route, remove_route, replace_route, more_routes, fewer_routes, total_percent, change_routes,
  set_withdraw_vesting_route,
}

-- The sum with no wrap-around.
abbrev pub percent_sum : ℕ → ℕ → List WithdrawRoute → ℕ
percent_sum first from [] = 0
percent_sum first from (r ∷ rs) =
    if r.from_account == from && not (r.to_account == first)
    then r.percent + percent_sum first from rs
    else percent_sum first from rs

total_percent-sum :
    (first from : ℕ) (rs : List WithdrawRoute) (total : ℕ)
    → total + percent_sum first from rs < 2 ^ 16
    → total_percent first from rs total ≡ total + percent_sum first from rs
unfolding total_percent
total_percent-sum first from [] total h = omega arith
total_percent-sum first from (r ∷ rs) total h = ground (
  arith,
  total_percent-sum first from rs ((total + r.percent) % 2 ^ 16),
  total_percent-sum first from rs total,
)

-- A change of routes adds one percent at most to the sum of the route's sender, and nothing to others'.
percent_sum-append :
    (first from : ℕ) (r : WithdrawRoute) (rs : List WithdrawRoute)
    → percent_sum first from (rs ++ r ∷ [])
      ≡ percent_sum first from rs + percent_sum first from (r ∷ [])
percent_sum-append first from r [] = ground arith
percent_sum-append first from r (x ∷ rs) = ground (arith, percent_sum-append first from r rs)

percent_sum-remove :
    (first from n m : ℕ) (rs : List WithdrawRoute)
    → percent_sum first from (remove_route n m rs) ≤ percent_sum first from rs
percent_sum-remove first from n m [] = omega arith
percent_sum-remove first from n m (x ∷ rs) = ground (arith, percent_sum-remove first from n m rs)

percent_sum-replace :
    (first from : ℕ) (r : WithdrawRoute) (rs : List WithdrawRoute)
    → percent_sum first from (replace_route r rs)
      ≤ percent_sum first from rs + percent_sum first from (r ∷ [])
percent_sum-replace first from r [] = omega arith
percent_sum-replace first from r (x ∷ rs) = ground (arith, percent_sum-replace first from r rs)

abbrev Grows : ℕ → WithdrawRoute → Chain → Chain → Type 0
Grows first route c c' =
    (from : ℕ)
    → percent_sum first from c'.routes
      ≤ percent_sum first from c.routes + percent_sum first from (route ∷ [])

modify_account-routes :
    (n : ℕ) (change : Account → Result Account) (c : Chain)
    → Ensures (modify_account n change c) (λ c'. c'.routes ≡ c.routes)
modify_account-routes n change c = record {
  on_ok = λ c' e.
      let (_, _, _, _, q) = modify_account-ok n change c {c' = c'} e in ap (λ d. d.routes) (sym q);
}

change_routes-Grows :
    (first : ℕ) (route : WithdrawRoute) (a : Account) (c : Chain)
    → Ensures (change_routes route a c) (Grows first route c)
unfolding change_routes
change_routes-Grows first route a c =
    elim (Bool-cases (has_route route.from_account route.to_account c.routes)) [
      | inl t ↦ rw t (elim (Bool-cases (route.percent == 0)) [
        | inl z ↦ rw z (record {
          on_ok = λ c' e from.
              rw
                ((modify_account-routes a.name fewer_routes (record c {
                  routes = remove_route route.from_account route.to_account c.routes;
                })).on_ok
                  c' e)
                (omega (
                  arith,
                  percent_sum-remove first from route.from_account route.to_account c.routes,
                ));
        })
        | inr z ↦ rw z (finally (λ from. percent_sum-replace first from route c.routes))
      ])
      | inr b ↦ rw b (
          after (assert (not (route.percent == 0))) (λ _ _.
            after (assert (ltb a.withdraw_routes 10)) (λ _ _. record {
              on_ok = λ c' e from.
                  rw
                    ((modify_account-routes a.name more_routes
                        (record c { routes = c.routes ++ route ∷ [] })).on_ok
                      c' e)
                    (omega (arith, percent_sum-append first from route c.routes));
            })))
    ]

-- Every account's routes, but for one to the account with id 0, add up to WLS_100_PERCENT at most.
pub record Routed (first_account : ℕ) (c : Chain) : Type 0 where
  pub within : (from : ℕ) → percent_sum first_account from c.routes ≤ 10000

set_route-Ensures :
    (first from to percent : ℕ) (auto_vest : Bool) (c : Chain)
    → percent ≤ 10000
    → Routed first c
    → Ensures (set_withdraw_vesting_route first from to percent auto_vest c) (Routed first)
unfolding set_withdraw_vesting_route
set_route-Ensures first from to percent auto_vest c h v = after (get_account from c) (λ a _.
    after (get_account to c) (λ b _.
      let route : WithdrawRoute = record {
        from_account = a.name;
        to_account = b.name;
        percent = percent;
        auto_vest = auto_vest;
      } in
      after (change_routes route a c) (λ c' e.
        let grows = (change_routes-Grows first route a c).on_ok c' e in
        after (assert (leb (total_percent first a.name c'.routes 0) 10000)) (λ u eu.
          let low = assert-true (leb (total_percent first a.name c'.routes 0) 10000) {u = u} eu in
          finally (record {
            within = λ n. elim (Bool-cases (a.name == n)) [
              | inl t ↦
                  let q : a.name ≡ n = ground arith in
                  let s = total_percent-sum first a.name c'.routes 0 in
                  subst (λ k. percent_sum first k c'.routes ≤ 10000) q
                    (ground (arith, s, grows a.name, v.within a.name))
              | inr f ↦ ground (arith, grows n, v.within n)
            ];
          })))))

-- Where the routes of each account, but for one to the account with id 0, add up to 100% at most,
-- they still do after a route of at most 100% is set: the 16-bit sum that the code tests never
-- wraps around.
pub set_withdraw_vesting_route-Routed :
    (first_account from to percent : ℕ) (auto_vest : Bool) (c : Chain) {c' : Chain}
    → percent ≤ 10000
    → Routed first_account c
    → set_withdraw_vesting_route first_account from to percent auto_vest c ≡ ok c'
    → Routed first_account c'
set_withdraw_vesting_route-Routed first from to percent auto_vest c {c'} h v e =
    (set_route-Ensures first from to percent auto_vest c h v).on_ok c' e
