-- ===== src/Chain/PowerDown/Rows.antt =====
-- database.cpp: what a withdrawal does to the rows of the accounts. The accounts that it deposits to
-- keep their own withdrawal, and the one that withdraws gets a later date.
use vidpow.Prelude.{
  ℕ, ◌^◌, ◌-◌, ◌≡◌, refl, ◌∙◌, true, List, [], ◌∷◌, ltb→lt, ◌==◌, if◌then◌else◌, arith,
}
use vidpow.Prelude.{Result, ok, assert, Ensures, after, finally, Ensures-if}
use vidpow.Prelude.Int.{ℤ, pos, ◌+ℤ◌, ◌-ℤ◌, ◌≤ℤ◌, ltb_ℤ, int_laws}
use vidpow.Protocol.Asset.{wls_symbol, IsExact, IsWord64, Asset, asset_add, asset_sub, mul_price}
use vidpow.Chain.Ledger.State.{
  ProxiedVotes, Account, WithdrawRoute, Chain, get_account, modify_account,
}
use vidpow.Chain.Ledger.Rows.{
  Related, IsPreorder, Related-refl, Related-trans, modify_account-Related,
  adjust_proxied_witness_votes-Related,
}
use vidpow.Chain.Ledger.Supply.{wls, vests, get_vesting_share_price, add_balance, add_vesting}
use vidpow.Chain.PowerDown.{
  route_part, deposit_vests, first_pass, take_fund, deposit_steem, second_pass,
}

-- A deposit leaves an account's own withdrawal as it is, and takes no shares.
pub record Kept (a b : Account) : Type 0 where
  pub name : b.name ≡ a.name
  pub due : b.next_vesting_withdrawal ≡ a.next_vesting_withdrawal
  pub wanted : b.to_withdraw ≡ a.to_withdraw
  pub rate : b.vesting_withdraw_rate ≡ a.vesting_withdraw_rate
  pub shares : a.vesting_shares ≤ℤ b.vesting_shares
  pub small : a.vesting_shares ≤ℤ pos (2 ^ 63 - 1) → b.vesting_shares ≤ℤ pos (2 ^ 63 - 1)

pub Kept-IsPreorder : IsPreorder Kept
Kept-IsPreorder = record {
  same = λ a. record {
    name = refl;
    due = refl;
    wanted = refl;
    rate = refl;
    shares = omega arith;
    small = λ h. h;
  };
  then_by = λ a b d r s. record {
    name = s.name ∙ r.name;
    due = s.due ∙ r.due;
    wanted = s.wanted ∙ r.wanted;
    rate = s.rate ∙ r.rate;
    shares = omega (arith, r.shares, s.shares);
    small = λ h. s.small (r.small h);
  };
}

proxied-Kept : (a : Account) (v : ProxiedVotes) → Kept a (record a { proxied_vsf_votes = v })
proxied-Kept a v = record {
  name = refl;
  due = refl;
  wanted = refl;
  rate = refl;
  shares = omega arith;
  small = λ h. h;
}

module _ (safe : ℤ → Result ℤ) (exact : IsExact safe) (fits : IsWord64 safe)
    (remainder : ℤ → ℤ → Result ℤ) (to_uint64 : ℕ → Result ℕ) where
  add_vesting-Kept :
      (d : ℤ) (a : Account) → ltb_ℤ (pos 0) d ≡ true → Ensures (add_vesting safe d a) (Kept a)
  unfolding add_vesting
  add_vesting-Kept d a h = after (safe (a.vesting_shares +ℤ d)) (λ x ex.
      let e = exact _ x ex in
      let more = ltb→lt _ _ h in
      finally (record {
        name = refl;
        due = refl;
        wanted = refl;
        rate = refl;
        shares = rw (← e) (omega (int_laws, more));
        small = λ _. fits _ x ex;
      }))

  add_balance-Kept : (d : Asset) (a : Account) → Ensures (add_balance safe d a) (Kept a)
  unfolding add_balance
  add_balance-Kept d a = after (assert (d.symbol == wls_symbol)) (λ _ _.
      after (safe (a.balance +ℤ d.amount)) (λ x _. finally (record {
        name = refl;
        due = refl;
        wanted = refl;
        rate = refl;
        shares = omega arith;
        small = λ h. h;
      })))

  deposit_vests-Kept :
      (to : ℕ) (d : ℤ) (c : Chain)
      → ltb_ℤ (pos 0) d ≡ true
      → Ensures (deposit_vests safe remainder to_uint64 to d c) (Related Kept c)
  unfolding deposit_vests
  deposit_vests-Kept to d c h = after (get_account to c) (λ a _.
      after (modify_account a.name (add_vesting safe d) c) (λ c1 e1. record {
        on_ok = λ c2 e2.
            Related-trans Kept Kept-IsPreorder
              ((modify_account-Related Kept Kept-IsPreorder a.name (add_vesting safe d) c
                  (λ x y _ e. (add_vesting-Kept d x h).on_ok y e)).on_ok
                c1 e1)
              ((adjust_proxied_witness_votes-Related Kept Kept-IsPreorder safe exact proxied-Kept
                  a.name d c1).on_ok
                c2 e2);
      }))

  pub first_pass-Kept :
      (tw total : ℤ) (routes : List WithdrawRoute) (c : Chain)
      → Ensures (first_pass safe remainder to_uint64 tw total routes c) (λ r. Related Kept c r.1)
  unfolding first_pass
  first_pass-Kept tw total [] c = finally (Related-refl Kept Kept-IsPreorder c)
  first_pass-Kept tw total (route ∷ routes) c =
      Ensures-if route.auto_vest _ _
        (λ _. after (route_part safe remainder to_uint64 tw route) (λ d _.
          after (safe (total +ℤ d)) (λ t _.
            after
              (if ltb_ℤ (pos 0) d
                then deposit_vests safe remainder to_uint64 route.to_account d c
                else ok c)
              (λ c1 e1. record {
                on_ok = λ r e.
                    Related-trans Kept Kept-IsPreorder
                      ((Ensures-if (ltb_ℤ (pos 0) d) _ _
                          (λ h. deposit_vests-Kept route.to_account d c h)
                          (λ _. finally (Related-refl Kept Kept-IsPreorder c))).on_ok
                        c1 e1)
                      ((first_pass-Kept tw t routes c1).on_ok r e);
              }))))
        (λ _. first_pass-Kept tw total routes c)

  -- The global properties that a deposit changes are not the time.
  pub take_fund-Related :
      (R : Account → Account → Type 0) (p : IsPreorder R) (converted : Asset) (d : ℤ) (c : Chain)
      → Ensures (take_fund safe remainder to_uint64 converted d c) (Related R c)
  unfolding take_fund
  take_fund-Related R p converted d c =
      after (asset_sub safe (wls c.gpo.total_vesting_fund_steem) converted) (λ _ _.
        after (safe (c.gpo.total_vesting_shares -ℤ d)) (λ _ _. finally (record {
          rows = (Related-refl R p c).rows;
          time = refl;
          routes = refl;
          comments = refl;
        })))

  deposit_steem-Kept :
      (to : ℕ) (converted : Asset) (d : ℤ) (c : Chain)
      → Ensures (deposit_steem safe remainder to_uint64 to converted d c) (Related Kept c)
  unfolding deposit_steem
  deposit_steem-Kept to converted d c =
      after (modify_account to (add_balance safe converted) c) (λ c1 e1. record {
        on_ok = λ c2 e2.
            Related-trans Kept Kept-IsPreorder
              ((modify_account-Related Kept Kept-IsPreorder to (add_balance safe converted) c
                  (λ x y _ e. (add_balance-Kept converted x).on_ok y e)).on_ok
                c1 e1)
              ((take_fund-Related Kept Kept-IsPreorder converted d c1).on_ok c2 e2);
      })

  pub second_pass-Kept :
      (tw total : ℤ) (steem : Asset) (routes : List WithdrawRoute) (c : Chain)
      → Ensures
          (second_pass safe remainder to_uint64 tw total steem routes c)
          (λ r. Related Kept c r.1)
  unfolding second_pass
  second_pass-Kept tw total steem [] c = finally (Related-refl Kept Kept-IsPreorder c)
  second_pass-Kept tw total steem (route ∷ routes) c =
      Ensures-if route.auto_vest _ _ (λ _. second_pass-Kept tw total steem routes c)
        (λ _. after (get_account route.to_account c) (λ a _.
          after (route_part safe remainder to_uint64 tw route) (λ d _.
            after (safe (total +ℤ d)) (λ t _.
              after (mul_price (vests d) (get_vesting_share_price c.gpo)) (λ converted _.
                after (asset_add safe steem converted) (λ s _.
                  after
                    (if ltb_ℤ (pos 0) d
                      then deposit_steem safe remainder to_uint64 a.name converted d c
                      else ok c)
                    (λ c1 e1. record {
                      on_ok = λ r e.
                          Related-trans Kept Kept-IsPreorder
                            ((Ensures-if (ltb_ℤ (pos 0) d) _ _
                                (λ _. deposit_steem-Kept a.name converted d c)
                                (λ _. finally (Related-refl Kept Kept-IsPreorder c))).on_ok
                              c1 e1)
                            ((second_pass-Kept tw t s routes c1).on_ok r e);
                    })))))))
